-- ===== src/App/Lifecycle.antt =====
-- clueapi/impl/clueapi.cxx: what an application holds in its states, and how a start ends.
pub mod Shutdown
pub mod Signals
use clueapi.Base.{
  ℕ, zero, suc, ◌≡◌, refl, Bool, true, false, not, ◌&&◌, ◌||◌, ◌⊎◌, inl, inr, Option, none, some,
  if◌then◌else◌, ◌==◌, arith, Bool-cases, Option-cases, subst, sym, ap, ◌∙◌,
}
use clueapi.Shared.IoCtxPool
use clueapi.Shared.IoCtxPool.{Pool, unstarted}
use clueapi.Shared.IoCtxPool.Lifecycle.{
  Reachable, stop-returns, Reachable-unstarted, running-start, next_ctx-start,
}
use clueapi.App.{
  AppState, stopped, starting, running, stopping, same_state, App, World, StartResult, StartError,
  not_stopped, no_io_context, no_pool, no_tmp_dir, no_server, other, started, thrown, Cleaned,
  all_clean, broken, cleanup, fail, start_server, start, stop_async, on_signal, run_task, stop_sync,
  is_running,
}

-- Nothing is held: no signal handler, no server, no thread.
abbrev pub IsIdle : App → Type 0
IsIdle a =
    (a.state ≡ stopped)
    × (a.signals ≡ false)
    × (a.server ≡ false)
    × (a.pool.running ≡ false)
    × Reachable a.pool

-- All parts are there.
abbrev pub IsServing : App → Type 0
IsServing a =
    (a.state ≡ running)
    × (a.signals ≡ true)
    × (a.server ≡ true)
    × (a.tmp_dir ≡ true)
    × (a.pool.running ≡ true)
    × Reachable a.pool

-- What a cleanup leaves behind.
abbrev pub released : App → App
released a = record a {
  state = stopped;
  signals = false;
  server = false;
  tmp_dir = false;
  pool = unstarted a.pool.next_ctx;
}

-- What a cleanup leaves, but for the state.
abbrev pub emptied : App → App
emptied a = record a {
  signals = false;
  server = false;
  tmp_dir = false;
  pool = unstarted a.pool.next_ctx;
}

pub cleanup-emptied : (a : App) → Reachable a.pool → cleanup true a ≡ all_clean (emptied a)
unfolding cleanup
cleanup-emptied a r = rw (cleanup, stop-returns none a.pool r) refl

Reachable-released : (p : Pool) → Reachable p → Reachable (unstarted p.next_ctx)
Reachable-released p r = Reachable.stopped none r (stop-returns none p r)

IsIdle-released : (a : App) → Reachable a.pool → IsIdle (released a)
IsIdle-released a r = (refl, refl, refl, refl, Reachable-released a.pool r)

fail-released :
    (e : StartError) (a : App) → Reachable a.pool → fail true e a ≡ some (released a, thrown e)
unfolding fail
fail-released e a r = rw (fail, cleanup-emptied a r) refl

-- Where a start fails: before the pool was started, or behind it.
abbrev pub IsAtFailure : App → Type 0
IsAtFailure a =
    ((a.state ≡ stopped) × (a.pool.running ≡ false))
    ⊎ ((a.state ≡ starting) × (a.pool.running ≡ true))

-- How a start may end, and what it leaves: it serves, or it holds nothing, or, where the directory
-- cannot be removed, it has no server and no signal handlers, and the state and the pool are as they
-- were at the failure. What was asked for with a signal is not forgotten.
abbrev pub IsStarted : World → App → App × StartResult → Type 0
IsStarted w a r =
    ((r.1 ≡ started) × IsServing r.0
      ⊎ (((e : StartError) × (r.1 ≡ thrown e) × IsIdle r.0)
          ⊎ ((w.dir_removed ≡ false)
              × (r.1 ≡ thrown other)
              × (r.0.signals ≡ false)
              × (r.0.server ≡ false)
              × IsAtFailure r.0)))
    × (r.0.shutdown_requested ≡ a.shutdown_requested)

-- The call comes back, with such an end.
abbrev pub Ends : World → App → Option (App × StartResult) → Type 0
Ends w a o = (r : App × StartResult) × (o ≡ some r) × IsStarted w a r

if-Ends :
    (w : World) (a : App) (b : Bool) {x y : Option (App × StartResult)}
    → (b ≡ true → Ends w a x)
    → (b ≡ false → Ends w a y)
    → Ends w a (if b then x else y)
if-Ends w a true t f = t refl
if-Ends w a false t f = f refl

fail-Ends :
    (w : World) (e : StartError) (a : App)
    → Reachable a.pool
    → IsAtFailure a
    → Ends w a (fail w.dir_removed e a)
unfolding fail cleanup
fail-Ends w e a r at = elim (Bool-cases w.dir_removed) [
  | inl h ↦ (
    (released a, thrown e),
    ap (λ removes. fail removes e a) h ∙ fail-released e a r,
    (inr (inl (e, refl, IsIdle-released a r)), refl),
  )
  | inr h ↦ (
    (record a { signals = false; server = false }, thrown other),
    ap (λ removes. fail removes e a) h,
    (inr (inr (h, refl, refl, refl, at)), refl),
  )
]

start_server-Ends :
    (w : World) (a : App)
    → Reachable a.pool
    → a.state ≡ starting
    → a.pool.running ≡ true
    → Ends w a (start_server w a)
unfolding start_server
start_server-Ends w a r s h =
    if-Ends w a (not w.signals_set)
      (λ _. fail-Ends w other (record a { signals = true }) r (inr (s, h)))
      (λ _.
        if-Ends w a (not a.tmp_dir && not w.directory_created)
          (λ _. fail-Ends w no_tmp_dir (record a { signals = true }) r (inr (s, h)))
          (λ _.
            if-Ends w a (not w.chain_built)
              (λ _. fail-Ends w other (record a { signals = true; tmp_dir = true }) r (inr (s, h)))
              (λ _.
                if-Ends w a (not w.server_runs)
                  (λ _.
                    fail-Ends w no_server
                      (record a { signals = true; tmp_dir = true; server = true }) r (inr (s, h)))
                  (λ _. (_, refl, (inl (refl, (refl, refl, refl, refl, h, r)), refl))))))

context-Ends :
    (w : World) (a : App)
    → Reachable a.pool
    → a.state ≡ starting
    → a.pool.running ≡ true
    → Ends w a (elim a.pool.def_io_ctx [
      | none ↦ fail w.dir_removed no_io_context a
      | some _ ↦ start_server w a
    ])
context-Ends w a r s h = elim (Option-cases a.pool.def_io_ctx) [
  | inl e ↦ rw e (fail-Ends w no_io_context a r (inr (s, h)))
  | inr (c, e) ↦ rw e (start_server-Ends w a r s h)
]

-- A start of an idle application comes back, whatever the parts that it calls do: either all parts
-- are there and the application is running, or an exception is thrown and the application is idle
-- again, or, only where the directory cannot be removed, an exception is thrown, the server and the
-- signal handlers are gone, and the application is still starting and its pool still runs, if it did
-- at the failure.
pub start-Ends : (w : World) (workers : ℕ) (a : App) → IsIdle a → Ends w a (start w workers a)
unfolding start same_state
start-Ends w workers a (state, signals, server, pool, r) =
    let b = record a { state = starting; pool = IoCtxPool.start workers a.pool } in
    let rb = Reachable.started workers r in
    let runs = (running-start workers a.pool r pool).0 in
    if-Ends w a (not (same_state a.state stopped)) (λ h. absurd (ground (arith, state, h)))
      (λ _.
        if-Ends w a (not w.modules_init) (λ _. fail-Ends w other a r (inl (state, pool)))
          (λ _.
            if-Ends w a (not b.pool.running) (λ _. fail-Ends w no_pool b rb (inr (refl, runs)))
              (λ _. context-Ends w b rb refl runs)))

-- Without worker threads, a start of an idle application whose modules can be set up fails, for want
-- of an I/O context, and releases everything, if the directory can be removed.
pub start-no_workers :
    (w : World) (a : App)
    → IsIdle a
    → w.modules_init ≡ true
    → w.dir_removed ≡ true
    → start w 0 a ≡ some (released a, thrown no_io_context)
unfolding start same_state
start-no_workers w a (state, signals, server, pool, r) init removed =
    let b = record a { state = starting; pool = IoCtxPool.start 0 a.pool } in
    let (runs, _, empty) = running-start 0 a.pool r pool in
    let next : b.pool.next_ctx ≡ a.pool.next_ctx = next_ctx-start 0 a.pool in
    ground (
      arith,
      state,
      init,
      removed,
      runs,
      empty refl,
      next,
      fail-released no_io_context b (Reachable.started 0 r),
    )
