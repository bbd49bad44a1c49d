-- ===== src/Server/Lifecycle.antt =====
-- clueapi/server/impl/server.cxx: the states of the server, its acceptor, start and stop.
pub mod Restart
pub mod Stopping
pub mod Leftover
use clueapi.Base.{
  ℕ, zero, suc, ◌+◌, ◌/◌, ◌%◌, ◌^◌, Bool, true, false, not, List, [], ◌∷◌, Option, none, some, ltb,
  if◌then◌else◌,
}
use clueapi.Server.Pool.{Clients, init_clients, free_all, return_all}
use clueapi.Server.Connections.{Serving, Event, run}

-- `e_state` of `state_t`
pub data ServerState : Type 0 where
  stopped : ServerState
  starting : ServerState
  running : ServerState
  stopping : ServerState

-- What the configuration says of the server.
pub record Settings : Type 0 where
  pub max_connections : ℕ
  pub buffer_capacity : ℕ
  pub workers : ℕ
  pub reuse_port : Bool

-- `m_state`, `m_acceptor` and whether it is open, the pool with its counters, and the number of
-- accept loops that were started.
pub record Impl : Type 0 where
  pub state : ServerState
  pub acceptor : Option Bool
  pub serving : Serving
  pub loops : ℕ

-- What the system answers while the server starts: which clients can be made, the test of the port,
-- the address, the port as a number, the contexts for the acceptor, for the first and for the further
-- loops, and the calls on the acceptor.
pub record World : Type 0 where
  pub made : ℕ → Bool
  pub port_available : Bool
  pub address : Bool
  pub port : Bool
  pub acceptor_ctx : Bool
  pub opens : Bool
  pub binds : Bool
  pub listens : Bool
  pub first_ctx : Bool
  pub next_ctx : ℕ → Bool

-- `compare_exchange_strong`, with what it stores.
unfoldable pub is_stopped : ServerState → Bool
is_stopped s = elim s [ stopped ↦ true | _ ↦ false ]

unfoldable pub is_running : Impl → Bool
is_running a = elim a.state [ running ↦ true | _ ↦ false ]

-- An operation that ends, or throws an exception; either way it has left its changes.
pub data Ended : Type 0 where
  done : Impl → Ended
  threw : Impl → Ended

-- `configure_acceptor`, on an acceptor that was made.
unfoldable pub configure_acceptor : World → Impl → Ended
configure_acceptor w a =
    if not w.opens
    then threw a
    else if not w.binds
    then threw (record a { acceptor = some true })
    else if not w.listens
    then threw (record a { acceptor = some true })
    else done (record a { acceptor = some true })

unfoldable pub setup_acceptor : World → Impl → Ended
unfolding configure_acceptor
setup_acceptor w a = elim a.acceptor [
  | some is_open ↦ done a
  | none ↦
      if not w.port_available
      then threw a
      else if not w.address
      then threw a
      else if not w.port
      then threw a
      else if not w.acceptor_ctx
      then threw a
      else configure_acceptor w (record a { acceptor = some false })
]

unfoldable pub destroy_acceptor : Impl → Impl
destroy_acceptor a = elim a.acceptor [ none ↦ a | some is_open ↦ record a { acceptor = none } ]

unfoldable pub max_of : ℕ → ℕ → ℕ
max_of a b = if ltb a b then b else a

-- `std::clamp(v, low, high)`
unfoldable pub clamp : ℕ → ℕ → ℕ → ℕ
clamp v low high = if ltb v low then low else if ltb high v then high else v

-- `std::clamp((m_workers + 3u) / 4u, 1u, std::max(1u, m_workers / 2u))`, on 32 bits.
unfoldable pub acceptor_count : ℕ → ℕ
unfolding max_of clamp
acceptor_count workers = clamp ((workers + 3) % 2 ^ 32 / 4) 1 (max_of 1 (workers / 2))

-- The loop that starts the accept loops from number `i` on, each with the next context.
unfoldable pub spawn_loops : ℕ → ℕ → (ℕ → Bool) → Impl → Ended
spawn_loops zero i next_ctx a = done a
spawn_loops (suc n) i next_ctx a =
    let b = record a { loops = suc a.loops } in
    let rest = spawn_loops n (suc i) next_ctx b in if next_ctx i then rest else threw b

unfoldable pub start_accept_loops : Settings → World → Impl → Ended
unfolding spawn_loops acceptor_count
start_accept_loops cfg w a = elim a.acceptor [
  | none ↦ threw a
  | some is_open ↦
      let b = record a { state = running } in
      if not w.first_ctx
      then threw a
      else if cfg.reuse_port
      then spawn_loops (acceptor_count cfg.workers) 0 w.next_ctx b
      else done (record b { loops = suc b.loops })
]

unfoldable pub next_stage : Ended → (Impl → Ended) → Ended
next_stage (done a) k = k a
next_stage (threw a) k = threw a

-- What `start` gives back.
pub data StartResult : Type 0 where
  not_stopped : StartResult
  started : StartResult
  failed : StartResult

-- The handler of the exception.
unfoldable pub settle : Ended → Impl × StartResult
unfolding destroy_acceptor
settle (done a) = (a, started)
settle (threw a) = (record (destroy_acceptor a) { state = stopped }, failed)

module _ (room : List ℕ → Bool) (cfg : Settings) where
  -- `init_clients` on the pool of the server.
  unfoldable pub make_pool : World → Impl → Ended
  unfolding init_clients
  make_pool w a =
      let (some_made, cs) =
        init_clients room cfg.max_connections cfg.buffer_capacity w.made a.serving.clients in
      let b = record a { serving = record a.serving { clients = cs } } in
      if some_made then done b else threw b

  unfoldable pub start : World → Impl → Impl × StartResult
  unfolding make_pool setup_acceptor start_accept_loops next_stage settle is_stopped
  start w a =
      if is_stopped a.state
      then settle (
          next_stage (make_pool w (record a { state = starting }))
            (λ b. next_stage (setup_acceptor w b) (λ c. start_accept_loops cfg w c)))
      else (a, not_stopped)

  -- `destroy_clients`, where `es` is what happens while it waits for the handlers, until none is left
  -- or the deadline has passed.
  unfoldable pub destroy_clients : List Event → Serving → Option Serving
  unfolding return_all free_all run
  destroy_clients es s =
      let t = record s { clients = record s.clients { storage = return_all s.clients.storage } } in
      elim (run room es t) [
        | none ↦ none
        | some q ↦ some (record q { clients = free_all q.clients })
      ]

  -- `stop`; `none` is an access to a client that is gone.
  unfoldable pub stop : List Event → Impl → Option Impl
  unfolding destroy_acceptor destroy_clients is_running
  stop es a =
      let b = destroy_acceptor (record a { state = stopping }) in
      if is_running a
      then elim (destroy_clients es b.serving) [
        | none ↦ none
        | some s ↦ some (record b { serving = s; state = stopped })
      ]
      else some a
