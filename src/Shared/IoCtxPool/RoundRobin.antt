-- ===== src/Shared/IoCtxPool/RoundRobin.antt =====
-- clueapi/shared/io_ctx_pool: the order in which the contexts are handed out.
use clueapi.Base.{
  ℕ, zero, suc, ◌+◌, ◌-◌, ◌%◌, ◌<◌, ◌≡◌, sym, ◌∙◌, ap, inl, inr, Option, none, some, length, arith,
  Bool-cases, ltb,
}
use mathlib.Core.Option
use native.Mathlib.Nat.{mod-lt, mod-add-mod, add-mod_left, mod-eq_of_lt}
use clueapi.Shared.Split.{size_mod}
use clueapi.Shared.IoCtxPool.{Pool, io_ctx}

-- The context that the `j`-th call from now on gives.
pub nth_call : ℕ → Pool → Option ℕ
nth_call zero p = Option.map (λ r. r.0) (io_ctx p)
nth_call (suc j) p = elim (io_ctx p) [ none ↦ none | some r ↦ nth_call j r.1 ]

nth_call-mod :
    (j : ℕ) (p : Pool)
    → 0 < length p.io_ctxs
    → p.next_ctx + j < size_mod
    → nth_call j p ≡ some ((p.next_ctx + j) % length p.io_ctxs)
unfolding nth_call io_ctx
nth_call-mod zero p h k = ground arith
nth_call-mod (suc j) p h k =
    let q = record p { next_ctx = (p.next_ctx + 1) % size_mod } in
    let step : (p.next_ctx + 1) % size_mod ≡ p.next_ctx + 1 = omega arith in
    ground (arith, step, nth_call-mod j q h (omega arith))

mod-reaches : (next n i : ℕ) → i < n → (j : ℕ) × (j < n) × ((next + j) % n ≡ i)
mod-reaches next n i h = elim (Bool-cases (ltb i (next % n))) [
  | inl e ↦
      let j = n + i - next % n in
      let below : next % n < n = mod-lt next (omega arith) in
      let sum : next % n + j ≡ n + i = ground arith in
      (
        j,
        ground arith,
        sym (mod-add-mod next n j) ∙ ap (λ (x : ℕ). x % n) sum ∙ add-mod_left n i ∙ mod-eq_of_lt h,
      )
  | inr e ↦
      let j = i - next % n in
      let sum : next % n + j ≡ i = ground arith in
      (j, omega arith, sym (mod-add-mod next n j) ∙ ap (λ (x : ℕ). x % n) sum ∙ mod-eq_of_lt h)
]

-- While the counter does not wrap, `n` calls in a row, on a pool of `n` contexts, give each of the
-- contexts.
pub io_ctx_covers :
    (p : Pool) (i : ℕ)
    → i < length p.io_ctxs
    → p.next_ctx + length p.io_ctxs < size_mod
    → (j : ℕ) × (j < length p.io_ctxs) × (nth_call j p ≡ some i)
io_ctx_covers p i h k =
    let (j, less, e) = mod-reaches p.next_ctx (length p.io_ctxs) i h in
    (j, less, nth_call-mod j p (omega arith) (omega arith) ∙ ap some e)
