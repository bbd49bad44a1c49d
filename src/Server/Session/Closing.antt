-- ===== src/Server/Session/Closing.antt =====
-- clueapi/server/client/impl/client.cxx: the requests behind which a session ends.
use clueapi.Base.{
  ℕ, suc, ◌≡◌, ap, subst, refl, ◌==◌, ◌&&◌, Bool, true, false, not, Option, some, if◌then◌else◌,
  if-split,
}
use clueapi.Base.Bytes.{Bytes}
use clueapi.Http.Multipart.{Disk}
use clueapi.Http.Request.{Request, keep_alive}
use clueapi.Server.Client.{is_connected}
use clueapi.Server.Receive.{
  Peer, Limits, Session, Handled, result, success, bad_request, timeout, payload_too_large,
  internal_server_error, unexpected, threw, no_fuel, handle,
}
use clueapi.Server.Respond.{Reply, Wire, Style, Answered, answered, failed, threw, respond, unknown}
use clueapi.Server.Respond.Closing.{Marks, respond-Marks}
use clueapi.Server.Session.{
  Rules, Round, goes_on, stops, stuck, Served, ended, unfinished, take_response, after_response,
  take_request, serve, start, forget_request, set_timer,
}

-- The session behind an answer.
abbrev pub session_behind : {W : Type 0} → Answered W → Session W
session_behind (answered s) = forget_request s
session_behind (failed s) = forget_request s
session_behind (threw s) = s

forget_request-mark :
    {W : Type 0} (s : Session W) → (forget_request s).client.should_close ≡ s.client.should_close
unfolding forget_request
forget_request-mark s = refl

take_response-closing :
    {W : Type 0} (rules : Rules) (a : Answered W)
    → Marks true a
    → take_response rules a ≡ stops (session_behind a)
unfolding take_response after_response
take_response-closing rules (answered s) h =
    if-split (λ r. r ≡ stops (forget_request s)) (not rules.keep_alive_enabled) (λ _. refl)
      (λ _. rw (forget_request-mark s, h) refl)
take_response-closing rules (failed s) h = refl
take_response-closing rules (threw s) h = absurd h

-- The round is the last one.
abbrev pub IsLast : {W : Type 0} → Round W → Type 0
IsLast (goes_on s) = ⊥
IsLast (stops s) = Unit {0}
IsLast stuck = Unit {0}

take_response-IsLast :
    {W : Type 0} (rules : Rules) (a : Answered W)
    → rules.keep_alive_enabled ≡ false
    → IsLast (take_response rules a)
unfolding take_response after_response
take_response-IsLast rules (answered s) h = rw (h) tt
take_response-IsLast rules (failed s) h = tt
take_response-IsLast rules (threw s) h = tt

-- A last round ends the loop the same way, however many are left.
last_round :
    {W : Type 0} (r : Round W) (f g : Session W → Served W)
    → IsLast r
    → elim r [ goes_on q ↦ f q | stops q ↦ ended q | stuck ↦ unfinished ]
      ≡ elim r [ goes_on q ↦ g q | stops q ↦ ended q | stuck ↦ unfinished ]
last_round (goes_on s) f g h = absurd h
last_round (stops s) f g h = refl
last_round stuck f g h = refl

module _ {W : Type 0} (peer : Peer W) (disk : Disk W) (cfg : Limits) (wire : Wire W) (style : Style)
    (rules : Rules) (running : W → Bool) (same iequals istarts_with : Bytes → Bytes → Bool)
    (stoull : Bytes → Option ℕ) where
  -- A request that was read, that asks for the connection to be closed, and for which the middlewares make
  -- a response with a status, is the last of its session: nothing is read behind it.
  pub serve-closing :
      (fuel rounds : ℕ) (run : Request → W → Option (Reply W) × W) (reply : Reply W)
      (s q : Session W)
      → (running s.world && is_connected s.client) ≡ true
      → handle peer disk cfg same istarts_with stoull fuel s ≡ result success q
      → keep_alive same iequals q.client.request ≡ false
      → wire.chain ≡ some run
      → (run q.client.request q.world).0 ≡ some reply
      → (reply.status == unknown) ≡ false
      → serve peer disk cfg wire style rules running same iequals istarts_with stoull fuel
          (suc rounds)
          s
        ≡ ended (session_behind (respond wire style same iequals q))
  unfolding serve take_request
  serve-closing fuel rounds run reply s q up received closing c made known =
      let marked : Marks true (respond wire style same iequals q) =
        subst (λ b. Marks (not b) (respond wire style same iequals q)) closing
          (respond-Marks wire style same iequals run reply q c made known) in
      rw (serve, up, received, take_request, take_response-closing rules _ marked) refl

  take_request-IsLast :
      (h : Handled W)
      → rules.keep_alive_enabled ≡ false
      → IsLast
          (take_request peer disk cfg wire style rules running same iequals istarts_with stoull h)
  unfolding take_request
  take_request-IsLast (result success s) e =
      take_response-IsLast rules (respond wire style same iequals s) e
  take_request-IsLast (result bad_request s) e = tt
  take_request-IsLast (result timeout s) e = tt
  take_request-IsLast (result payload_too_large s) e = tt
  take_request-IsLast (result internal_server_error s) e = tt
  take_request-IsLast (unexpected s) e = tt
  take_request-IsLast (threw s) e = tt
  take_request-IsLast no_fuel e = tt

  serve-once :
      (fuel rounds : ℕ) (s : Session W)
      → rules.keep_alive_enabled ≡ false
      → serve peer disk cfg wire style rules running same iequals istarts_with stoull fuel
          (suc rounds)
          s
        ≡ serve peer disk cfg wire style rules running same iequals istarts_with stoull fuel 1 s
  unfolding serve
  serve-once fuel rounds s e =
      ap (λ r. elim (running s.world && is_connected s.client) [ false ↦ ended s | true ↦ r ])
        (last_round _
          (serve peer disk cfg wire style rules running same iequals istarts_with stoull fuel
            rounds)
          (λ q. unfinished)
          (take_request-IsLast (handle peer disk cfg same istarts_with stoull fuel s) e))

  -- Where connections do not stay, a session reads one request at most, whatever comes of it.
  pub start-once :
      (fuel rounds : ℕ) (s : Session W)
      → rules.keep_alive_enabled ≡ false
      → start peer disk cfg wire style rules running same iequals istarts_with stoull fuel
          (suc rounds)
          s
        ≡ start peer disk cfg wire style rules running same iequals istarts_with stoull fuel 1 s
  unfolding start
  start-once fuel rounds s e =
      ap
        (λ r.
          if not (running s.world)
          then ended s
          else if not (is_connected s.client)
          then ended s
          else r)
        (serve-once fuel rounds (set_timer rules s) e)
