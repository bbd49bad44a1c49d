-- ===== src/Server/Connections.antt =====
-- clueapi/server/impl/server.cxx: the handlers of the connections, which take clients from the pool
-- and give them back, as steps that may come in any order.
pub mod Exclusive
use clueapi.Base.{
  ℕ, suc, ◌+◌, ◌-◌, ◌%◌, Bool, true, false, not, List, [], ◌∷◌, ◌++◌, Option, none, some, ◌==◌,
  if◌then◌else◌,
}
use clueapi.Shared.Split.{size_mod}
use clueapi.Server.Client.{Client, prepare_for_connection}
use clueapi.Server.Pool.{
  Clients, get_client, set_client, acquire_client, release_client, client, no_client, freed,
}

-- The pool, `m_active_connections`, `m_total_connections`, the clients whose handlers wait in
-- `client->start()`, and, which the code does not keep, how many handlers an exception ended before
-- they had counted their connection.
pub record Serving : Type 0 where
  pub clients : Clients
  pub active : ℕ
  pub total : ℕ
  pub busy : List ℕ
  pub missed : ℕ

-- What comes next: a connection, whose socket may be closed by then and whose client may fail to
-- set up; a connection whose handler meets an exception before it counts it, with or without a client
-- by then; or the end of a session, by itself or by an exception.
pub data Event : Type 0 where
  connects : Bool → Bool → Event
  breaks : Bool → Event
  ends : ℕ → Event

-- `fetch_add(1)` and `fetch_sub(1)` on a `std::atomic<std::size_t>`.
unfoldable pub fetch_add : ℕ → ℕ
fetch_add n = (n + 1) % size_mod

unfoldable pub fetch_sub : ℕ → ℕ
fetch_sub n = (n + size_mod - 1) % size_mod

unfoldable pub has : ℕ → List ℕ → Bool
has id [] = false
has id (i ∷ l) = if i == id then true else has id l

unfoldable pub remove : ℕ → List ℕ → List ℕ
remove id [] = []
remove id (i ∷ l) = let rest = remove id l in if i == id then l else i ∷ rest

module _ (room : List ℕ → Bool) where
  -- `release_client(client)`, and the end of the handler.
  unfoldable pub released : ℕ → Serving → Option Serving
  unfolding release_client
  released id s = elim (release_client room id s.clients) [
    | none ↦ none
    | some cs ↦ some (record s { clients = cs })
  ]

  -- The handler behind `acquire_client`, up to its wait for the session.
  unfoldable pub begin_session : Bool → Bool → ℕ → Serving → Option Serving
  unfolding released get_client set_client prepare_for_connection fetch_add
  begin_session is_open throws id s = elim (get_client id s.clients.storage) [
    | none ↦ none
    | some c ↦
        let (ready, d) = prepare_for_connection is_open throws c in
        let q = record s {
          clients = record s.clients { storage = set_client id d s.clients.storage };
        } in
        if ready
        then some (record q { active = fetch_add s.active; busy = id ∷ s.busy })
        else released id q
  ]

  -- `handle_client_connection` up to its wait for the session, with the count of the accept loop;
  -- `none` is an access to a client that is gone.
  unfoldable pub connect : Bool → Bool → Serving → Option Serving
  unfolding acquire_client begin_session fetch_add
  connect is_open throws s =
      let (acquired, cs) = acquire_client room s.clients in
      let q = record s { clients = cs; total = fetch_add s.total } in
      elim acquired [
        | client id ↦ begin_session is_open throws id q
        | no_client ↦ some q
        | freed ↦ none
      ]

  -- A handler that an exception ends before `fetch_add`, behind `acquire_client` or ahead of it: the
  -- connection is counted off all the same.
  unfoldable pub break_off : Bool → Serving → Option Serving
  unfolding acquire_client released fetch_add fetch_sub
  break_off acquires s =
      let q = record s { total = fetch_add s.total } in
      let off = record q { active = fetch_sub s.active; missed = suc s.missed } in
      let (acquired, cs) = acquire_client room s.clients in
      if not acquires then some off else elim acquired [
        | client id ↦ released id (record off { clients = cs })
        | no_client ↦ some (record q { clients = cs })
        | freed ↦ none
      ]

  -- The handler behind the session: the client is released, and the connection counted off.
  unfoldable pub finish : ℕ → Serving → Option Serving
  unfolding released remove fetch_sub
  finish id s = released id (record s { active = fetch_sub s.active; busy = remove id s.busy })

  -- The end of a session that no handler waits for is no step.
  unfoldable pub step : Serving → Event → Option Serving
  unfolding connect break_off finish has
  step s (connects is_open throws) = connect is_open throws s
  step s (breaks acquires) = break_off acquires s
  step s (ends id) = if has id s.busy then finish id s else some s

  unfoldable pub run : List Event → Serving → Option Serving
  unfolding step
  run [] s = some s
  run (e ∷ es) s = elim (step s e) [ none ↦ none | some q ↦ run es q ]
