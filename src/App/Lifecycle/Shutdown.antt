-- ===== src/App/Lifecycle/Shutdown.antt =====
-- clueapi/impl/clueapi.cxx: shutting down by a call of `stop`, and by a signal.
use clueapi.Base.{
  subst, suc, zero, ◌≡◌, ◌∙◌, refl, sym, ap, Bool, true, false, not, ◌||◌, if◌then◌else◌,
}
use clueapi.Shared.IoCtxPool.Lifecycle.{Reachable}
use clueapi.App.Lifecycle.{IsIdle, IsServing, cleanup-emptied, IsIdle-released}
use clueapi.App.{
  stopped, running, stopping, same_state, App, Outcome, back, threw, terminated, cleanup,
  force_stop, stop_async, run_task, stop_sync,
}

-- What a shutdown promises, by whether its thread was made and whether the directory can be removed.
abbrev pub Stops : Bool → Bool → Outcome → Type 0
Stops spawned true (back b) = IsIdle b × (b.tmp_dir ≡ false) × (b.tasks ≡ 0)
Stops true false terminated = Unit {0}
Stops false false (threw b) =
    (b.state ≡ stopping) × (b.signals ≡ false) × (b.server ≡ false) × (b.pool.running ≡ true)
Stops _ _ _ = ⊥

run_task-Stops :
    (removes : Bool) (a : App)
    → Reachable a.pool
    → a.tasks ≡ 1
    → Stops true removes (run_task removes a)
unfolding run_task
run_task-Stops true a r one =
    let b = record a { tasks = 0 } in
    rw (run_task, one, cleanup-emptied b r) (IsIdle-released b r, refl, refl)
run_task-Stops false a r one = rw (run_task, one, cleanup) tt

force_stop-Stops :
    (removes : Bool) (a : App)
    → Reachable a.pool
    → a.tasks ≡ 0
    → a.state ≡ stopping
    → a.pool.running ≡ true
    → Stops false removes (force_stop removes a)
unfolding force_stop cleanup
force_stop-Stops true a r none_left s runs =
    rw (force_stop, cleanup-emptied a r) (IsIdle-released a r, refl, none_left)
force_stop-Stops false a r none_left s runs = (s, refl, refl, runs)

serving-stop_async :
    (spawned : Bool) (a : App)
    → a.state ≡ running
    → stop_async spawned a
      ≡ record a { state = stopping; tasks = if spawned then suc a.tasks else a.tasks }
unfolding stop_async same_state
serving-stop_async spawned a state =
    ap
      (λ s.
        if not (same_state s running)
        then a
        else record a { state = stopping; tasks = if spawned then suc a.tasks else a.tasks })
      state

-- Behind `stop_async` the thread is waited for, or the call cleans up itself.
abbrev waits : Bool → App → Outcome
waits removes b = elim b.tasks [ zero ↦ force_stop removes b | suc n ↦ run_task removes b ]

stop_sync-waits :
    (spawned removes : Bool) (a : App)
    → a.state ≡ running
    → stop_sync spawned true removes a
      ≡ waits removes
          (record a { state = stopping; tasks = if spawned then suc a.tasks else a.tasks })
unfolding stop_sync same_state
stop_sync-waits spawned removes a state =
    ap
      (λ s.
        if same_state s stopped || same_state s stopping
        then back a
        else waits removes (stop_async spawned a))
      state
    ∙ ap (waits removes) (serving-stop_async spawned a state)

-- Stopping an application that serves, with no shutdown under way, where the thread of the shutdown, if
-- it can be made, is done by the deadline. If the directory can be removed, the call comes back and leaves
-- the application idle, without its directory and without a task. If not, the program is terminated where
-- the thread was made; where it was not, an exception leaves the call, and the application is still
-- stopping, without a server, while its pool runs.
pub stop_sync-Stops :
    (spawned removes : Bool) (a : App)
    → IsServing a
    → a.tasks ≡ 0
    → Stops spawned removes (stop_sync spawned true removes a)
stop_sync-Stops true removes a (state, _, _, _, _, r) none_left =
    subst (Stops true removes) (sym (stop_sync-waits true removes a state)) (
      run_task-Stops removes (record a { state = stopping; tasks = suc a.tasks }) r
        (ap suc none_left))
stop_sync-Stops false removes a (state, _, _, _, runs, r) none_left =
    subst (Stops false removes)
      (sym (
        stop_sync-waits false removes a state
        ∙ ap (λ n. waits removes (record a { state = stopping; tasks = n })) none_left))
      (force_stop-Stops removes (record a { state = stopping; tasks = 0 }) r refl refl runs)
