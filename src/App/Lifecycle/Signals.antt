-- ===== src/App/Lifecycle/Signals.antt =====
-- clueapi/impl/clueapi.cxx: a signal, another start, and another signal.
use clueapi.Base.{
  some-injective, subst, ℕ, ◌≡◌, ◌∙◌, refl, sym, ap, Bool, true, false, inl, inr, some, arith,
}
use clueapi.App.Lifecycle.{
  IsIdle, IsServing, released, cleanup-emptied, IsIdle-released, start-Ends,
}
use clueapi.App.{
  stopping, same_state, App, World, StartResult, started, back, start, stop_async, on_signal,
  run_task, is_running,
}

-- The first signal stops an application that serves, with no shutdown under way, once the thread of
-- the shutdown was made and has run, and if the directory can be removed; it leaves the application
-- idle, without its directory.
pub run_task-on_signal :
    (a : App)
    → IsServing a
    → a.tasks ≡ 0
    → a.shutdown_requested ≡ false
    → (b : App) × (run_task true (on_signal true a) ≡ back b)
      × IsIdle b
      × (b.tmp_dir ≡ false)
      × (b.shutdown_requested ≡ true)
unfolding on_signal stop_async same_state run_task
run_task-on_signal a (state, _, _, _, _, r) none_left fresh =
    let b = record a { state = stopping; shutdown_requested = true; tasks = a.tasks } in
    let done = cleanup-emptied b r in
    (released b, ground (arith, state, fresh, done), IsIdle-released b r, refl, refl)

started_again :
    (w : World) (workers : ℕ) (spawned : Bool) (b : App) {r : App × StartResult}
    → IsIdle b
    → b.shutdown_requested ≡ true
    → start w workers b ≡ some r
    → r.1 ≡ started
    → (is_running r.0 ≡ true) × (on_signal spawned r.0 ≡ r.0)
unfolding on_signal is_running same_state
started_again w workers spawned b {r = r} idle asked f ok =
    let (q, f', (ends, kept)) = start-Ends w workers b idle in
    let same : q ≡ r = some-injective _ _ (sym f' ∙ f) in
    elim ends [
      | inl (_, serving) ↦ ground (arith, same, serving.0, kept, asked)
      | inr (inl (e, failed, _)) ↦ ground (arith, same, failed, ok)
      | inr (inr (_, failed, _, _, _)) ↦ ground (arith, same, failed, ok)
    ]

back-injective : (a b : App) → back a ≡ back b → a ≡ b
back-injective a b h = ap (λ o. elim o [ back x ↦ x | _ ↦ a ]) h

-- A defect: the note that a shutdown was requested is never taken back. An application that was
-- stopped by its first signal and is started anew with success runs, and ignores a further signal.
pub on_signal-start :
    (w : World) (workers : ℕ) (spawned : Bool) (a b : App) {r : App × StartResult}
    → IsServing a
    → a.tasks ≡ 0
    → a.shutdown_requested ≡ false
    → run_task true (on_signal true a) ≡ back b
    → start w workers b ≡ some r
    → r.1 ≡ started
    → (is_running r.0 ≡ true) × (on_signal spawned r.0 ≡ r.0)
on_signal-start w workers spawned a b serving none_left fresh e f ok =
    let (c, e', idle, _, asked) = run_task-on_signal a serving none_left fresh in
    let same : c ≡ b = back-injective c b (sym e' ∙ e) in
    started_again w workers spawned b (subst IsIdle same idle)
      (subst (λ (x : App). x.shutdown_requested ≡ true) same asked) f ok
