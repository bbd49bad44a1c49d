-- ===== src/Server/Receive/Refused.antt =====
-- clueapi/server/client/detail/request_handler: the errors that a raw body can end with.
use clueapi.Base.{
  ℕ, ◌≡◌, true, false, Option, none, some, arith, if-split, ltb, ◌&&◌, not, length, ◌==◌,
  Option-cases, inl, inr,
}
use clueapi.Base.Bytes.{Bytes}
use clueapi.Http.Multipart.{Disk}
use clueapi.Server.Client.{BeastMessage}
use clueapi.Server.Receive.{
  Peer, Limits, Session, Read, Handled, result, unexpected, threw, no_fuel, success, bad_request,
  timeout, payload_too_large, internal_server_error, Ec, closes, close_connection, is_error,
  take_body, raw_handle,
}

-- The handler answers with `success` or `bad_request`, or gives no answer.
abbrev pub IsPlainAnswer : {W : Type 0} → Handled W → Type 0
IsPlainAnswer (result success s) = Unit {0}
IsPlainAnswer (result bad_request s) = Unit {0}
IsPlainAnswer (result timeout s) = ⊥
IsPlainAnswer (result payload_too_large s) = ⊥
IsPlainAnswer (result internal_server_error s) = ⊥
IsPlainAnswer (unexpected s) = Unit {0}
IsPlainAnswer (threw s) = Unit {0}
IsPlainAnswer no_fuel = ⊥

no_error_left : (ec : Ec) → close_connection ec false ≡ false → is_error ec ≡ true → ⊥
unfolding close_connection is_error closes
no_error_left ec h e = ground arith

module _ {W : Type 0} (peer : Peer W) (disk : Disk W) (cfg : Limits) where
  take_body-IsPlainAnswer :
      (n : ℕ) (r : Read W BeastMessage) (s : Session W)
      → IsPlainAnswer (take_body peer disk cfg n r s)
  unfolding take_body close_connection is_error closes
  take_body-IsPlainAnswer n r s =
      if-split (IsPlainAnswer {W = W}) (r.late && s.client.timeout_timer) (λ _. tt)
        (λ _.
          if-split (IsPlainAnswer {W = W}) (close_connection r.ec false) (λ _. tt)
            (λ open_still.
              if-split (IsPlainAnswer {W = W}) (is_error r.ec)
                (λ e. absurd (no_error_left r.ec open_still e))
                (λ _.
                  if-split (IsPlainAnswer {W = W}) (ltb 0 n && not (length r.value.content == n))
                    (λ _. tt) (λ _. tt))))

  -- A defect: a body over the limit is never answered with 413, and one that times out never with 408,
  -- since every error of the read closes the connection first.
  pub raw_handle-IsPlainAnswer :
      (text : Option Bytes) (stoull : Bytes → Option ℕ) (s : Session W)
      → IsPlainAnswer (raw_handle peer disk cfg text stoull s)
  unfolding raw_handle
  raw_handle-IsPlainAnswer none stoull s = tt
  raw_handle-IsPlainAnswer (some text) stoull s = elim (Option-cases (stoull text)) [
    | inl e ↦ rw (IsPlainAnswer, raw_handle, e) tt
    | inr (n, e) ↦
        rw (IsPlainAnswer, raw_handle, e)
          (if-split (IsPlainAnswer {W = W}) (ltb 0 n) (λ _. take_body-IsPlainAnswer n _ s)
            (λ _. tt))
  ]
