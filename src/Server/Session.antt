-- ===== src/Server/Session.antt =====
-- clueapi/server/client/impl/client.cxx: the session of a client, which serves one request after the
-- other.
pub mod Closing
pub mod Tests
use clueapi.Base.{ℕ, zero, suc, ◌&&◌, Option, Bool, true, false, not, if◌then◌else◌}
use clueapi.Base.Bytes.{Bytes}
use clueapi.Http.Multipart.{Disk}
use clueapi.Http.Request.{reset}
use clueapi.Server.Client.{cut_buffer, is_connected, clear}
use clueapi.Server.Receive.{
  Peer, Limits, Session, Handled, result, unexpected, threw, no_fuel, ErrorCode, success,
  bad_request, timeout, payload_too_large, internal_server_error, handle,
}
use clueapi.Server.Respond.{
  Wire, Style, Answered, answered, failed, threw, respond, send_error_response,
}

-- Of the configuration, whether connections stay, whether sockets have a time limit, and the size of a
-- buffer.
pub record Rules : Type 0 where
  pub keep_alive_enabled : Bool
  pub socket_timeout : Bool
  pub buffer_capacity : ℕ

-- What a round of the loop leaves; `stuck` is no end of it.
pub data Round (W : Type 0) : Type 0 where
  goes_on : Session W → Round W
  stops : Session W → Round W
  stuck : Round W

-- What a session leaves; `unfinished` is no end of it.
pub data Served (W : Type 0) : Type 0 where
  ended : Session W → Served W
  unfinished : Served W

-- The number of an error code.
unfoldable pub code_of : ErrorCode → ℕ
code_of success = 200
code_of bad_request = 400
code_of timeout = 408
code_of payload_too_large = 413
code_of internal_server_error = 500

-- `m_request.reset()` and `m_beast_request.clear()`
unfoldable pub forget_request : {W : Type 0} → Session W → Session W
unfolding reset clear
forget_request s = record s {
  client = record s.client {
    request = reset s.client.request;
    beast_request = clear s.client.beast_request;
  };
}

unfoldable pub after_response : {W : Type 0} → Rules → Session W → Round W
unfolding cut_buffer
after_response rules s =
    if not rules.keep_alive_enabled
    then stops s
    else if s.client.should_close
    then stops s
    else goes_on (record s { client = cut_buffer rules.buffer_capacity s.client })

unfoldable pub take_response : {W : Type 0} → Rules → Answered W → Round W
unfolding after_response forget_request
take_response rules (answered s) = after_response rules (forget_request s)
take_response rules (failed s) = stops (forget_request s)
take_response rules (threw s) = stops s

-- The timer stays where there is a time limit for it; when it expires is an outcome of the reads and
-- writes.
unfoldable pub set_timer : {W : Type 0} → Rules → Session W → Session W
set_timer rules s = record s {
  client = record s.client {
    timeout_timer =
        s.client.timeout_timer && (if rules.keep_alive_enabled then true else rules.socket_timeout);
  };
}

-- `running` is what `is_running` of the server says.
module _ {W : Type 0} (peer : Peer W) (disk : Disk W) (cfg : Limits) (wire : Wire W) (style : Style)
    (rules : Rules) (running : W → Bool) (same iequals istarts_with : Bytes → Bytes → Bool)
    (stoull : Bytes → Option ℕ) where
  unfoldable pub take_request : Handled W → Round W
  unfolding take_response respond send_error_response code_of
  take_request (result success s) = take_response rules (respond wire style same iequals s)
  take_request (result bad_request s) =
      stops (send_error_response wire style same iequals (code_of bad_request) s)
  take_request (result timeout s) =
      stops (send_error_response wire style same iequals (code_of timeout) s)
  take_request (result payload_too_large s) =
      stops (send_error_response wire style same iequals (code_of payload_too_large) s)
  take_request (result internal_server_error s) =
      stops (send_error_response wire style same iequals (code_of internal_server_error) s)
  take_request (unexpected s) = stops s
  take_request (threw s) = stops s
  take_request no_fuel = stuck

  -- The loop, on at most so many rounds; the other count is the fuel of a round.
  unfoldable pub serve : ℕ → ℕ → Session W → Served W
  unfolding take_request handle is_connected
  serve fuel zero s = unfinished
  serve fuel (suc rounds) s = elim (running s.world && is_connected s.client) [
    | false ↦ ended s
    | true ↦ elim (take_request (handle peer disk cfg same istarts_with stoull fuel s)) [
      | goes_on q ↦ serve fuel rounds q
      | stops q ↦ ended q
      | stuck ↦ unfinished
    ]
  ]

  unfoldable pub start : ℕ → ℕ → Session W → Served W
  unfolding serve set_timer is_connected
  start fuel rounds s =
      if not (running s.world)
      then ended s
      else if not (is_connected s.client)
      then ended s
      else serve fuel rounds (set_timer rules s)
