-- ===== src/Shared/IoCtxPool.antt =====
-- clueapi/shared/io_ctx_pool: the pool of I/O contexts, each run by a thread of its own. A context
-- is known by its position, and by whether it was stopped; making contexts and threads succeeds.
pub mod Lifecycle
pub mod RoundRobin
pub mod Tests
use clueapi.Base.{
  ℕ, zero, suc, ◌+◌, ◌%◌, ◌≡◌, Bool, true, false, not, ◌&&◌, ◌||◌, List, [], ◌∷◌, ◌++◌, Option,
  none, some, length, ◌==◌, if◌then◌else◌,
}
use mathlib.Core.Option
use clueapi.Shared.Split.{size_mod}

-- What the function of a thread runs: `m_def_io_ctx`, or `m_io_ctxs[i]`.
pub data Thread : Type 0 where
  def_thread : Thread
  worker : ℕ → Thread

-- The fields of `io_ctx_pool_t`. A context is `true` once it was stopped; of the work guards only
-- their number counts.
pub record Pool : Type 0 where
  pub running : Bool
  pub def_io_ctx : Option Bool
  pub def_work_guard : Bool
  pub threads : List Thread
  pub io_ctxs : List Bool
  pub work_guards : ℕ
  pub next_ctx : ℕ

-- `io_ctx_pool_t()`, where the counter has got to `next`.
abbrev pub unstarted : ℕ → Pool
unstarted next = record {
  running = false;
  def_io_ctx = none;
  def_work_guard = false;
  threads = [];
  io_ctxs = [];
  work_guards = 0;
  next_ctx = next;
}

-- The loops over `num_threads`: the contexts, and the threads that run them, from `i` on.
unfoldable pub new_contexts : ℕ → List Bool
new_contexts zero = []
new_contexts (suc n) = false ∷ new_contexts n

unfoldable pub new_threads : ℕ → ℕ → List Thread
new_threads i zero = []
new_threads i (suc n) = worker i ∷ new_threads (suc i) n

unfoldable pub start : ℕ → Pool → Pool
start num_threads p =
    if p.running || num_threads == 0 then record p { running = true } else record p {
      running = true;
      def_io_ctx = some false;
      def_work_guard = true;
      threads = p.threads ++ (def_thread ∷ new_threads 0 num_threads);
      io_ctxs = p.io_ctxs ++ new_contexts num_threads;
      work_guards = p.work_guards + num_threads;
    }

-- `if (io_ctx && !io_ctx->stopped()) io_ctx->stop();`
unfoldable pub stop_all : List Bool → List Bool
stop_all [] = []
stop_all (stopped ∷ cs) = true ∷ stop_all cs

-- Whether the context at the position was stopped.
unfoldable pub was_stopped : List Bool → ℕ → Bool
was_stopped [] i = false
was_stopped (c ∷ cs) zero = c
was_stopped (c ∷ cs) (suc i) = was_stopped cs i

-- `run()` comes back once the context was stopped.
unfoldable pub comes_back : Option Bool → List Bool → Thread → Bool
comes_back none cs def_thread = false
comes_back (some stopped) cs def_thread = stopped
comes_back d cs (worker i) = was_stopped cs i

unfoldable pub same_thread : Thread → Option Thread → Bool
same_thread t none = false
same_thread def_thread (some def_thread) = true
same_thread (worker i) (some (worker j)) = i == j
same_thread t (some u) = false

-- Each thread is joined, but the one that runs `stop` itself is detached. False if a `join` never
-- returns.
unfoldable pub join_all : Option Thread → Option Bool → List Bool → List Thread → Bool
unfolding same_thread comes_back
join_all self d cs [] = true
join_all self d cs (t ∷ ts) = (same_thread t self || comes_back d cs t) && join_all self d cs ts

-- `none` if a `join` never returns; `self` is the thread of the pool that makes the call, if any.
unfoldable pub stop : Option Thread → Pool → Option Pool
unfolding stop_all join_all
stop self p =
    if not p.running
    then some p
    else let d = Option.map (λ stopped. true) p.def_io_ctx in
      if join_all self d (stop_all p.io_ctxs) p.threads then some (unstarted p.next_ctx) else none

-- `io_ctx()`: the position of the context; `none` where the code divides by zero.
unfoldable pub io_ctx : Pool → Option (ℕ × Pool)
io_ctx p =
    if length p.io_ctxs == 0
    then none
    else some (p.next_ctx % length p.io_ctxs, record p { next_ctx = (p.next_ctx + 1) % size_mod })
