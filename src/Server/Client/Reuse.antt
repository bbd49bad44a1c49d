-- ===== src/Server/Client/Reuse.antt =====
-- clueapi/server/client: a client that comes back from a connection.
use clueapi.Base.{[], ◌≡◌, refl, Bool, true, false, not, ◌&&◌, arith}
use clueapi.Http.Request.{reset}
use clueapi.Server.Client.{
  Client, new_client, is_idle, is_connected, clear, cleaned, reset_to_idle, force_cleanup,
  return_to_pool, prepare_for_connection, init, socket_is_open, is_active,
}

-- What is left of a client: the buffer's capacity, the version, the method, the target and the body of
-- Beast's message, and the status of a response that was reset.
abbrev pub kept : Client → Client
kept c = record (new_client c.max_size) {
  capacity = c.capacity;
  response_status = 200;
  beast_request = record {
    version = c.beast_request.version;
    method_string = c.beast_request.method_string;
    target = c.beast_request.target;
    fields = [];
    content = c.beast_request.content;
  };
}

-- A client that was in use is as new when it is back, whether the connection ended or was forced to,
-- but for the capacity of its buffer, the status of its response, and Beast's message, of which only
-- the fields are cleared: its version, its method, its target and its body are left to the next
-- connection.
pub return_to_pool-kept :
    (c : Client) → is_idle c ≡ false → (return_to_pool c ≡ kept c) × (force_cleanup c ≡ kept c)
unfolding return_to_pool reset_to_idle force_cleanup cleaned reset clear
return_to_pool-kept c h = (rw h refl, rw h refl)

-- A client that is idle takes a connection exactly if the socket is open and nothing throws; it is
-- connected then, and else it is idle again.
pub prepare_for_connection-takes :
    (is_open throws : Bool) (c : Client)
    → is_idle c ≡ true
    → ((prepare_for_connection is_open throws c).0 ≡ (is_open && not throws))
      × (is_connected (prepare_for_connection is_open throws c).1 ≡ (is_open && not throws))
      × (is_idle (prepare_for_connection is_open throws c).1 ≡ not (is_open && not throws))
unfolding prepare_for_connection init is_connected socket_is_open is_active is_idle reset_to_idle
    cleaned
prepare_for_connection-takes is_open throws c h = ground arith
