-- ===== src/Shared/IoCtxPool/Tests.antt =====
-- The pool at concrete numbers of threads: tests, and the instances of the theorems.
use clueapi.Base.{ℕ, ◌<◌, ◌≡◌, some, arith}
use clueapi.Shared.IoCtxPool.{worker, unstarted, start, stop, new_contexts, new_threads}
use clueapi.Shared.IoCtxPool.Lifecycle.{created, started, stop-returns}
use clueapi.Shared.IoCtxPool.RoundRobin.{nth_call, io_ctx_covers}

stop-returns_example :
    stop (some (worker 1)) (start 2 (unstarted 0))
    ≡ some (unstarted (start 2 (unstarted 0)).next_ctx)
stop-returns_example = stop-returns (some (worker 1)) (start 2 (unstarted 0)) (started 2 created)

io_ctx_covers_example : (j : ℕ) × (j < 2) × (nth_call j (start 2 (unstarted 0)) ≡ some 1)
unfolding start new_contexts new_threads
io_ctx_covers_example = io_ctx_covers (start 2 (unstarted 0)) 1 (ground arith) (ground arith)
