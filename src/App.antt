-- ===== src/App.antt =====
-- clueapi/impl/clueapi.cxx: the life of an application, from `start` to its shutdown. The calls that
-- the program makes one after the other are functions, and the thread of a shutdown is an event.
pub mod Lifecycle
pub mod Tests
use clueapi.Base.{
  ℕ, zero, suc, Bool, true, false, not, ◌&&◌, ◌||◌, Option, none, some, if◌then◌else◌,
}
use clueapi.Shared.IoCtxPool
use clueapi.Shared.IoCtxPool.{Pool, unstarted}

-- `state_t::e_state`
pub data AppState : Type 0 where
  stopped starting running stopping : AppState

unfoldable pub same_state : AppState → AppState → Bool
same_state stopped stopped = true
same_state starting starting = true
same_state running running = true
same_state stopping stopping = true
same_state _ _ = false

-- The fields of `c_impl` that the life of the application changes. `signals` and `server` say
-- whether the pointers are set, `tmp_dir` whether the directory is there, `tasks` counts the threads
-- of `stop_async` that have not run yet.
pub record App : Type 0 where
  pub state : AppState
  pub pool : Pool
  pub signals : Bool
  pub server : Bool
  pub tmp_dir : Bool
  pub shutdown_requested : Bool
  pub tasks : ℕ

-- What the calls of one start do that belong to other parts: whether each of them succeeds. A part
-- that throws is one that does not succeed.
pub record World : Type 0 where
  pub modules_init : Bool
  pub signals_set : Bool
  pub directory_created : Bool
  pub chain_built : Bool
  pub server_runs : Bool
  pub dir_removed : Bool

-- The exceptions of `start`, by their texts; `other` is one that a called part throws.
pub data StartError : Type 0 where
  not_stopped no_pool no_io_context no_tmp_dir no_server other : StartError

pub data StartResult : Type 0 where
  started : StartResult
  thrown : StartError → StartResult

-- How a cleanup ends: with everything released, with the exception of `remove_tmp_dir`, which leaves the
-- rest undone, or never, where the pool does not stop.
pub data Cleaned : Type 0 where
  all_clean : App → Cleaned
  broken : App → Cleaned
  stuck : Cleaned

-- How a shutdown ends: it comes back, with or without an exception; an exception in its thread ends the
-- program; it never comes back; or the thread and the call clean up at one time, which no state here
-- describes.
pub data Outcome : Type 0 where
  back : App → Outcome
  threw : App → Outcome
  terminated : Outcome
  hangs : Outcome
  overlaps : Outcome

-- `cancel_signals`, `destroy_server`, `remove_tmp_dir` and `stop_io_ctx_pool`, as `cleanup_on_error`
-- and both shutdowns call them; `removes` says whether `exists` and `remove_all` do not throw.
unfoldable pub cleanup : Bool → App → Cleaned
cleanup removes a =
    let b = record a { signals = false; server = false } in
    if not removes then broken b else elim (IoCtxPool.stop none a.pool) [
      | none ↦ stuck
      | some pool ↦ all_clean (record b { tmp_dir = false; pool = pool })
    ]

-- The handler of the exceptions of `start`. An exception of its cleanup replaces the one at hand, and
-- the state is not updated.
unfoldable pub fail : Bool → StartError → App → Option (App × StartResult)
unfolding cleanup
fail removes e a = elim (cleanup removes a) [
  | all_clean b ↦ some (record b { state = stopped }, thrown e)
  | broken b ↦ some (b, thrown other)
  | stuck ↦ none
]

-- The body of the `try`, from the signal handlers on.
unfoldable pub start_server : World → App → Option (App × StartResult)
unfolding fail
start_server w a =
    if not w.signals_set
    then fail w.dir_removed other (record a { signals = true })
    else if not a.tmp_dir && not w.directory_created
    then fail w.dir_removed no_tmp_dir (record a { signals = true })
    else if not w.chain_built
    then fail w.dir_removed other (record a { signals = true; tmp_dir = true })
    else if not w.server_runs
    then fail w.dir_removed no_server (record a { signals = true; tmp_dir = true; server = true })
    else some (record a { signals = true; tmp_dir = true; server = true; state = running }, started)

-- `start`, where `workers` is the number of threads that the configuration asks for.
unfoldable pub start : World → ℕ → App → Option (App × StartResult)
unfolding start_server same_state
start w workers a =
    if not (same_state a.state stopped)
    then some (a, thrown not_stopped)
    else if not w.modules_init
    then fail w.dir_removed other a
    else let b = record a { state = starting; pool = IoCtxPool.start workers a.pool } in
      if not b.pool.running then fail w.dir_removed no_pool b else elim b.pool.def_io_ctx [
        | none ↦ fail w.dir_removed no_io_context b
        | some _ ↦ start_server w b
      ]

-- `stop_async`; `spawned` says whether the thread could be made.
unfoldable pub stop_async : Bool → App → App
unfolding same_state
stop_async spawned a =
    if not (same_state a.state running)
    then a
    else record a { state = stopping; tasks = if spawned then suc a.tasks else a.tasks }

-- The handler of the signals.
unfoldable pub on_signal : Bool → App → App
unfolding stop_async
on_signal spawned a =
    if a.shutdown_requested then a else stop_async spawned (record a { shutdown_requested = true })

-- `shutdown_task`, when its thread runs.
unfoldable pub run_task : Bool → App → Outcome
unfolding cleanup
run_task removes a = elim a.tasks [
  | zero ↦ back a
  | suc n ↦ elim (cleanup removes (record a { tasks = n })) [
    | all_clean b ↦ back (record b { state = stopped })
    | broken b ↦ terminated
    | stuck ↦ hangs
  ]
]

-- The cleanup of `stop_sync` itself, behind the deadline.
unfoldable pub force_stop : Bool → App → Outcome
unfolding cleanup
force_stop removes a = elim (cleanup removes a) [
  | all_clean b ↦ back (record b { state = stopped })
  | broken b ↦ threw b
  | stuck ↦ hangs
]

-- `stop_sync`: behind `stop_async` it waits for the state to be `stopped`. `in_time` says whether the
-- thread of the shutdown, if it was made, is done by the deadline.
unfoldable pub stop_sync : Bool → Bool → Bool → App → Outcome
unfolding run_task force_stop
stop_sync spawned in_time removes a =
    let b = stop_async spawned a in
    if same_state a.state stopped || same_state a.state stopping then back a else elim b.tasks [
      | zero ↦ force_stop removes b
      | suc n ↦ if in_time then run_task removes b else overlaps
    ]

unfoldable pub is_running : App → Bool
is_running a = same_state a.state running

-- `c_impl(…)`
abbrev pub new_app : Bool → App
new_app tmp_dir = record {
  state = stopped;
  pool = unstarted 0;
  signals = false;
  server = false;
  tmp_dir = tmp_dir;
  shutdown_requested = false;
  tasks = 0;
}
