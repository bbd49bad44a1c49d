-- ===== src/App/Tests.antt =====
-- The life of an application at concrete calls: tests, and the instances of the theorems.
use clueapi.Base.{◌≡◌, refl, true, false, Bool, some}
use clueapi.Shared.IoCtxPool
use clueapi.Shared.IoCtxPool.{
  unstarted, new_contexts, new_threads, stop_all, was_stopped, join_all, comes_back, same_thread,
}
use clueapi.Shared.IoCtxPool.Lifecycle.{Reachable}
use clueapi.App.{
  App, AppState, World, started, new_app, start, start_server, back, cleanup, same_state, stop_sync,
  stop_async, on_signal, run_task,
}
use clueapi.App.Lifecycle.{IsIdle, IsServing, Ends, start-Ends}
use clueapi.App.Lifecycle.Shutdown.{Stops, stop_sync-Stops}

abbrev all_well : World
all_well = record {
  modules_init = true;
  signals_set = true;
  directory_created = true;
  chain_built = true;
  server_runs = true;
  dir_removed = true;
}

abbrev no_listener : World
no_listener = record all_well { server_runs = false }

-- An application that serves with two workers.
abbrev serving : App
serving = record {
  state = AppState.running;
  pool = IoCtxPool.start 2 (unstarted 0);
  signals = true;
  server = true;
  tmp_dir = true;
  shutdown_requested = false;
  tasks = 0;
}

start_well : start all_well 2 (new_app false) ≡ some (serving, started)
unfolding start start_server same_state IoCtxPool.start
start_well = refl

new_app-IsIdle : (b : Bool) → IsIdle (new_app b)
new_app-IsIdle b = (refl, refl, refl, refl, Reachable.created)

serving-IsServing : IsServing serving
unfolding IoCtxPool.start
serving-IsServing = (refl, refl, refl, refl, refl, Reachable.started 2 Reachable.created)

start-Ends_example : Ends no_listener (new_app false) (start no_listener 2 (new_app false))
start-Ends_example = start-Ends no_listener 2 (new_app false) (new_app-IsIdle false)

stop_sync-Stops_example : Stops true false (stop_sync true true false serving)
stop_sync-Stops_example = stop_sync-Stops true false serving serving-IsServing refl

-- What is left behind the signal, and the application when it serves again.
abbrev stopped_app : App
stopped_app = record (new_app false) { shutdown_requested = true }

abbrev serving_again : App
serving_again = record serving { shutdown_requested = true }

signal_run : run_task true (on_signal true serving) ≡ back stopped_app
unfolding run_task on_signal stop_async same_state cleanup IoCtxPool.stop IoCtxPool.start
    new_contexts new_threads stop_all was_stopped join_all comes_back same_thread
signal_run = refl

start_again : start all_well 2 stopped_app ≡ some (serving_again, started)
unfolding start start_server same_state IoCtxPool.start
start_again = refl
