-- ===== src/Server/Client.antt =====
-- clueapi/server/client: the data of a client, which is used for one connection after the other.
pub mod Reuse
use clueapi.Base.{ℕ, ◌*◌, Bool, true, false, not, ◌&&◌, [], Option, none, some, if◌then◌else◌, ltb}
use clueapi.Base.Bytes.{Bytes}
use clueapi.Http.Request.{Request, Fields, new_request, reset}

-- `e_state` of `data_t`
pub data ClientState : Type 0 where
  idle : ClientState
  active : ClientState
  cleanup : ClientState

-- Of Beast's `message`, the parts that the program reads or clears; a new one is of HTTP/1.1.
pub record BeastMessage : Type 0 where
  pub version : ℕ
  pub method_string : Bytes
  pub target : Bytes
  pub fields : Fields
  pub content : Bytes

abbrev pub new_message : BeastMessage
new_message = record { version = 11; method_string = []; target = []; fields = []; content = [] }

-- `m_beast_request.clear()`: Beast clears the fields, and nothing else.
unfoldable pub clear : BeastMessage → BeastMessage
clear m = record m { fields = [] }

-- The fields of `data_t`. Of a socket, which is absent or present, it counts whether it is open; of
-- the timer whether it is there; of the response its status, and whether it holds anything besides.
-- Of the `flat_buffer` there are its bytes, its capacity and its limit.
pub record Client : Type 0 where
  pub state : ClientState
  pub should_close : Bool
  pub socket : Option Bool
  pub timeout_timer : Bool
  pub buffer : Bytes
  pub capacity : ℕ
  pub max_size : ℕ
  pub request : Request
  pub response_data : Bool
  pub response_status : ℕ
  pub beast_request : BeastMessage

-- `data_t(buffer_size)`: the size is the limit of the buffer, which has no capacity yet. The status of a
-- new response is 0.
abbrev pub new_client : ℕ → Client
new_client buffer_size = record {
  state = idle;
  should_close = false;
  socket = none;
  timeout_timer = false;
  buffer = [];
  capacity = 0;
  max_size = buffer_size;
  request = new_request;
  response_data = false;
  response_status = 0;
  beast_request = new_message;
}

unfoldable pub is_idle : Client → Bool
is_idle c = elim c.state [ idle ↦ true | _ ↦ false ]

unfoldable pub is_active : Client → Bool
is_active c = elim c.state [ active ↦ true | _ ↦ false ]

-- `m_socket && m_socket->is_open()`
unfoldable pub socket_is_open : Client → Bool
socket_is_open c = elim c.socket [ none ↦ false | some is_open ↦ is_open ]

unfoldable pub is_connected : Client → Bool
unfolding is_active socket_is_open
is_connected c = socket_is_open c && is_active c

-- What both ways to an idle client leave. The buffer keeps its capacity and its limit, and `reset` of the
-- response makes its status `ok`.
unfoldable pub cleaned : Client → Client
unfolding reset clear
cleaned c = record c {
  state = idle;
  should_close = false;
  socket = none;
  timeout_timer = false;
  buffer = [];
  request = reset c.request;
  response_data = false;
  response_status = 200;
  beast_request = clear c.beast_request;
}

unfoldable pub reset_to_idle : Client → Client
unfolding is_idle cleaned
reset_to_idle c = if is_idle c then c else cleaned c

-- Nothing in it throws: the calls on the socket take an error code.
unfoldable pub force_cleanup : Client → Client
unfolding is_idle cleaned
force_cleanup c = if is_idle c then c else cleaned c

-- `init`, where `is_open` says whether the socket is open, and `throws` whether an exception stops
-- the setting up.
unfoldable pub init : Bool → Bool → Client → Bool × Client
unfolding is_idle reset_to_idle
init is_open throws c =
    let opened = record c { state = active; socket = some is_open } in
    if not (is_idle c)
    then (false, c)
    else if throws
    then (false, reset_to_idle (record c { state = active }))
    else if is_open
    then (true, record opened { timeout_timer = true })
    else (false, reset_to_idle opened)

-- The limit of a `flat_buffer` that is made without one.
abbrev pub no_limit : ℕ
no_limit = 18446744073709551615

-- A buffer that has grown is replaced by one without a limit; what it holds is lost.
-- Where Beast keeps the capacity within the limit, and the limit is the same size, this never happens.
unfoldable pub cut_buffer : ℕ → Client → Client
cut_buffer size c =
    if ltb c.capacity (size * 2)
    then c
    else record c { buffer = []; capacity = size; max_size = no_limit }

unfoldable pub prepare_for_connection : Bool → Bool → Client → Bool × Client
unfolding init is_idle
prepare_for_connection is_open throws c =
    if not (is_idle c) then (false, c) else init is_open throws c

unfoldable pub return_to_pool : Client → Client
unfolding reset_to_idle
return_to_pool c = reset_to_idle c

unfoldable pub is_ready_for_reuse : Client → Bool
unfolding is_idle
is_ready_for_reuse c = is_idle c
