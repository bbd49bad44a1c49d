-- ===== src/Server/Session/Tests.antt =====
-- The session of a client at concrete inputs: the instances of the theorems.
use clueapi.Base.{ℕ, ◌≡◌, refl, Bool, true, false, none, some, [], ◌∷◌, ◌++◌}
use clueapi.Base.Bytes.{codes, equal}
use clueapi.Http.Request.{find_field, keep_alive}
use clueapi.Server.Client.{
  Client, new_client, new_message, active, is_connected, is_active, socket_is_open,
}
use clueapi.Server.Receive.{
  Peer, Head, Session, no_error, handle, body_handle, raw_handle, take_head, add_headers,
  add_header, close_connection, closes, is_error,
}
use clueapi.Server.Respond.{Reply, Wire, Style, respond}
use clueapi.Server.Session.{Rules, serve, start, ended}
use clueapi.Server.Session.Closing.{session_behind, serve-closing, start-once}
use clueapi.Server.Tests.{Ends, peer, file_disk, limits}

abbrev head : Head
head = record {
  target = codes "/";
  method_string = codes "GET";
  fields = (codes "connection", codes "close") ∷ [];
  is_upgrade = false;
}

-- A peer whose header asks for the connection to be closed.
abbrev closer : Peer Ends
closer = record peer {
  read_header = λ n b w. record {
    late = false;
    ec = no_error;
    value = head;
    buffer = [];
    capacity = 16;
    world = w;
  };
}

abbrev reply : ℕ → Reply Ends
reply status = record {
  status = status;
  headers = [];
  cookies = [];
  body = codes "hello";
  is_stream = false;
  stream_fn = λ w. (w, true);
}

-- What is written goes behind what the second half of the world holds.
abbrev wire : ℕ → Wire Ends
wire status = record {
  write = λ m w. record { late = false; ec = no_error; world = (w.0, w.1 ++ m.content) };
  write_header = λ m w. record { late = false; ec = no_error; world = w };
  insert_field = λ name value fs. fs ++ (name, value) ∷ [];
  set_field = λ name value fs. fs ++ (name, value) ∷ [];
  async_write = λ b w. ((w.0, w.1 ++ b), true);
  format = λ n. codes "5";
  chain = some (λ r w. (some (reply status), w));
  error_json = λ a b. a ++ b;
}

abbrev style : Style
style = record { plain = true; keep_alive_timeout = codes "timeout=30" }

abbrev rules : Bool → Rules
rules stay = record { keep_alive_enabled = stay; socket_timeout = true; buffer_capacity = 16 }

abbrev client : Client
client = record (new_client 16) { state = active; socket = some true; timeout_timer = true }

abbrev waiting : Session Ends
waiting = record { client = client; world = ([], []) }

abbrev asked : Session Ends
asked = record {
  client = record client { request = take_head equal head client.request; capacity = 16 };
  world = ([], []);
}

serve-closing_example :
    serve closer file_disk limits
      (wire 200)
      style
      (rules true)
      (λ w. true)
      equal
      equal
      equal
      (λ text. none)
      5
      3
      waiting
    ≡ ended (session_behind (respond (wire 200) style equal equal asked))
unfolding is_connected is_active socket_is_open handle body_handle raw_handle close_connection
    closes is_error take_head add_headers add_header find_field equal keep_alive
serve-closing_example =
    serve-closing closer file_disk limits (wire 200) style (rules true) (λ w. true) equal equal
      equal (λ text. none) 5 2 (λ r w. (some (reply 200), w)) (reply 200) waiting asked refl refl
      refl refl refl refl

start-once_example :
    start closer file_disk limits
      (wire 200)
      style
      (rules false)
      (λ w. true)
      equal
      equal
      equal
      (λ text. none)
      5
      3
      waiting
    ≡ start closer file_disk limits
        (wire 200)
        style
        (rules false)
        (λ w. true)
        equal
        equal
        equal
        (λ text. none)
        5
        1
        waiting
start-once_example =
    start-once closer file_disk limits (wire 200) style (rules false) (λ w. true) equal equal equal
      (λ text. none) 5 2 waiting refl

-- A client that read a request of HTTP/1.0 on an earlier connection.
abbrev used : Client
used = record client { beast_request = record new_message { version = 10 } }
