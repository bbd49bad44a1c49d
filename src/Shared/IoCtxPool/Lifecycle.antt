-- ===== src/Shared/IoCtxPool/Lifecycle.antt =====
-- clueapi/shared/io_ctx_pool: starting and stopping the pool.
use clueapi.Base.{
  ℕ, zero, suc, ◌+◌, ◌≤◌, ◌<◌, ◌≡◌, refl, sym, ◌∙◌, Bool, true, false, ◌%◌, subst, some-injective,
  inl, inr, Bool-cases, ◌||◌, ◌==◌, ◌∷◌, Option, none, some, arith,
}
use clueapi.Shared.Split.{size_mod}
use clueapi.Shared.IoCtxPool.{
  Thread, def_thread, Pool, unstarted, new_contexts, new_threads, start, stop_all, was_stopped,
  comes_back, join_all, stop, io_ctx,
}

was_stopped-stop_all : (n i : ℕ) → i < n → was_stopped (stop_all (new_contexts n)) i ≡ true
unfolding was_stopped stop_all new_contexts
was_stopped-stop_all zero i h = ground arith
was_stopped-stop_all (suc n) zero h = refl
was_stopped-stop_all (suc n) (suc i) h = was_stopped-stop_all n i (omega arith)

join_all-new_threads :
    (self : Option Thread) (d : Option Bool) (n i m : ℕ)
    → i + m ≤ n
    → join_all self d (stop_all (new_contexts n)) (new_threads i m) ≡ true
unfolding join_all new_threads comes_back
join_all-new_threads self d n i zero h = refl
join_all-new_threads self d n i (suc m) h = ground (
  arith,
  was_stopped-stop_all n i (omega arith),
  join_all-new_threads self d n (suc i) m (omega arith),
)

-- The pool behind the branch of `start` that does the work.
abbrev with_threads : ℕ → ℕ → Pool
with_threads n next = record {
  running = true;
  def_io_ctx = some false;
  def_work_guard = true;
  threads = def_thread ∷ new_threads 0 n;
  io_ctxs = new_contexts n;
  work_guards = 0 + n;
  next_ctx = next;
}

-- The pool behind `start(0)`: it counts as running, and has nothing.
abbrev without_threads : ℕ → Pool
without_threads next = record (unstarted next) { running = true }

start_zero : (next : ℕ) → start 0 (unstarted next) ≡ without_threads next
unfolding start
start_zero next = refl

start-suc : (n next : ℕ) → start (suc n) (unstarted next) ≡ with_threads (suc n) next
unfolding start
start-suc n next = rw (==_suc n) refl
  where
    ==_suc : (n : ℕ) → (suc n == 0) ≡ false
    ==_suc n = ground arith

start-running : (n : ℕ) (p : Pool) → p.running ≡ true → start n p ≡ record p { running = true }
unfolding start
start-running n p h = rw h refl

stop-with_threads :
    (self : Option Thread) (n next : ℕ) → stop self (with_threads n next) ≡ some (unstarted next)
unfolding stop join_all comes_back
stop-with_threads self n next =
    ground (arith, join_all-new_threads self (some true) n 0 n (omega arith))

stop-without_threads :
    (self : Option Thread) (next : ℕ) → stop self (without_threads next) ≡ some (unstarted next)
unfolding stop join_all stop_all
stop-without_threads self next = refl

-- The pools that the operations lead to.
pub data Reachable : Pool → Type 0 where
  created : Reachable (unstarted 0)
  started : (n : ℕ) {p : Pool} → Reachable p → Reachable (start n p)
  stopped : (self : Option Thread) {p q : Pool} → Reachable p → stop self p ≡ some q → Reachable q
  used : {p q : Pool} (i : ℕ) → Reachable p → io_ctx p ≡ some (i, q) → Reachable q

-- The three shapes of a pool.
data Shape : Pool → Type 0 where
  is_unstarted : (next : ℕ) → Shape (unstarted next)
  is_empty_pool : (next : ℕ) → Shape (without_threads next)
  is_full : (n next : ℕ) → Shape (with_threads n next)

Shape-start : (n : ℕ) (p : Pool) → Shape p → Shape (start n p)
Shape-start zero p (is_unstarted next) = rw (start_zero next) (is_empty_pool next)
Shape-start (suc n) p (is_unstarted next) = rw (start-suc n next) (is_full (suc n) next)
Shape-start n p (is_empty_pool next) =
    rw (start-running n (without_threads next) refl) (is_empty_pool next)
Shape-start n p (is_full k next) = rw (start-running n (with_threads k next) refl) (is_full k next)

stop-Shape : (self : Option Thread) (p : Pool) → Shape p → stop self p ≡ some (unstarted p.next_ctx)
unfolding stop
stop-Shape self p (is_unstarted next) = refl
stop-Shape self p (is_empty_pool next) = stop-without_threads self next
stop-Shape self p (is_full n next) = stop-with_threads self n next

io_ctx-next :
    (p q : Pool) (i : ℕ)
    → io_ctx p ≡ some (i, q)
    → record p { next_ctx = (p.next_ctx + 1) % size_mod } ≡ q
unfolding io_ctx
io_ctx-next p q i e = ground arith

Shape-io_ctx : (p q : Pool) (i : ℕ) → Shape p → io_ctx p ≡ some (i, q) → Shape q
Shape-io_ctx p q i (is_unstarted next) e =
    subst Shape (io_ctx-next (unstarted next) q i e) (is_unstarted ((next + 1) % size_mod))
Shape-io_ctx p q i (is_empty_pool next) e =
    subst Shape (io_ctx-next (without_threads next) q i e) (is_empty_pool ((next + 1) % size_mod))
Shape-io_ctx p q i (is_full n next) e =
    subst Shape (io_ctx-next (with_threads n next) q i e) (is_full n ((next + 1) % size_mod))

Reachable-Shape : {p : Pool} → Reachable p → Shape p
Reachable-Shape created = is_unstarted 0
Reachable-Shape (started n {p = p} r) = Shape-start n p (Reachable-Shape r)
Reachable-Shape (stopped self {p = p} {q = q} r e) =
    subst Shape (some-injective _ _ (sym (stop-Shape self p (Reachable-Shape r)) ∙ e))
      (is_unstarted p.next_ctx)
Reachable-Shape (used {p = p} {q = q} i r e) = Shape-io_ctx p q i (Reachable-Shape r) e

-- Whatever was called before, `stop` comes back: no `join` waits for ever, and the pool is as it was
-- made, but for its counter.
pub stop-returns :
    (self : Option Thread) (p : Pool) → Reachable p → stop self p ≡ some (unstarted p.next_ctx)
stop-returns self p r = stop-Shape self p (Reachable-Shape r)

-- A defect: `start(0)` leaves a pool that counts as running and has no context; a later `start`
-- with threads does nothing, and `io_ctx` divides by zero.
pub start-zero :
    (n next : ℕ)
    → (start n (start 0 (unstarted next)) ≡ start 0 (unstarted next))
      × ((start 0 (unstarted next)).running ≡ true)
      × (io_ctx (start n (start 0 (unstarted next))) ≡ none)
unfolding start io_ctx
start-zero n next = (refl, refl, refl)

-- A pool that does not run has nothing.
pub Reachable-unstarted : (p : Pool) → Reachable p → p.running ≡ false → p ≡ unstarted p.next_ctx
Reachable-unstarted p r h = unstarted_Shape p (Reachable-Shape r) h
  where
    unstarted_Shape : (p : Pool) → Shape p → p.running ≡ false → p ≡ unstarted p.next_ctx
    unstarted_Shape p (is_unstarted next) h = refl
    unstarted_Shape p (is_empty_pool next) h = ground arith
    unstarted_Shape p (is_full n next) h = ground arith

-- A pool that does not run is running once it was started, and has the default context if the
-- number of threads is not 0.
pub running-start :
    (n : ℕ) (p : Pool)
    → Reachable p
    → p.running ≡ false
    → ((start n p).running ≡ true)
      × ((n == 0) ≡ false → (start n p).def_io_ctx ≡ some false)
      × ((n == 0) ≡ true → (start n p).def_io_ctx ≡ none)
unfolding start
running-start n p r h = rw (Reachable-unstarted p r h) (fields n p.next_ctx)
  where
    fields :
        (n next : ℕ)
        → ((start n (unstarted next)).running ≡ true)
          × ((n == 0) ≡ false → (start n (unstarted next)).def_io_ctx ≡ some false)
          × ((n == 0) ≡ true → (start n (unstarted next)).def_io_ctx ≡ none)
    fields n next = elim (Bool-cases (n == 0)) [
      | inl e ↦ ground (arith, e)
      | inr e ↦ ground (arith, e)
    ]

pub next_ctx-start : (n : ℕ) (p : Pool) → (start n p).next_ctx ≡ p.next_ctx
unfolding start
next_ctx-start n p = elim (Bool-cases (p.running || n == 0)) [
  | inl e ↦ rw e refl
  | inr e ↦ rw e refl
]
