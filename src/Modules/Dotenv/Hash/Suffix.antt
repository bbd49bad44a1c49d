-- ===== src/Modules/Dotenv/Hash/Suffix.antt =====
-- clueapi/modules/dotenv/detail/hash: which bytes of a key its hash depends on.
use clueapi.Base.{
  ℕ, zero, suc, ◌+◌, ◌*◌, ◌/◌, ◌%◌, ◌^◌, ◌≤◌, ◌<◌, ◌≡◌, refl, ◌∙◌, sym, ap, subst, inl, inr, ltb,
  Bool-cases, [], ◌∷◌, ◌++◌, length, arith,
}
use native.Mathlib.Nat.{
  mod-lt, div-add-mod, mul-add-mod_self_left, mod-eq_of_lt, pow-succ', one-le-pow,
}
use clueapi.Base.Bytes.{Bytes}
use clueapi.Modules.Dotenv.Hash.{
  k_hash_basis, k_hash_prime, xor, to_hash, hash_step, hash_from, rt_hash,
}

-- The lowest `k` binary digits are the same.
Agree : ℕ → ℕ → ℕ → Type 0
Agree zero a b = Unit {0}
Agree (suc k) a b = (a % 2 ≡ b % 2) × Agree k (a / 2) (b / 2)

Agree-refl : (k a : ℕ) → Agree k a a
unfolding Agree
Agree-refl zero a = tt
Agree-refl (suc k) a = (refl, Agree-refl k (a / 2))

Agree-xor : (k w a b c : ℕ) → Agree k a b → Agree k (xor w a c) (xor w b c)
unfolding Agree xor
Agree-xor zero w a b c h = tt
Agree-xor (suc k) zero a b c h = Agree-refl (suc k) 0
Agree-xor (suc k) (suc w) a b c h =
    let left : ((a % 2 + c % 2) % 2 + 2 * xor w (a / 2) (c / 2)) / 2 ≡ xor w (a / 2) (c / 2) =
      omega arith in
    let right : ((b % 2 + c % 2) % 2 + 2 * xor w (b / 2) (c / 2)) / 2 ≡ xor w (b / 2) (c / 2) =
      omega arith in
    (omega (arith, h.0), rw (left, right) (Agree-xor k w (a / 2) (b / 2) (c / 2) h.1))

-- With a carry `e`.
Agree-add : (k a b c d e : ℕ) → e ≤ 1 → Agree k a b → Agree k c d → Agree k (a + c + e) (b + d + e)
unfolding Agree
Agree-add zero a b c d e le h g = tt
Agree-add (suc k) a b c d e le h g =
    let carry = (a % 2 + c % 2 + e) / 2 in
    let left : (a + c + e) / 2 ≡ a / 2 + c / 2 + carry = omega arith in
    let right : (b + d + e) / 2 ≡ b / 2 + d / 2 + carry = omega (arith, h.0, g.0) in
    (
      omega (arith, h.0, g.0),
      rw (left, right) (Agree-add k (a / 2) (b / 2) (c / 2) (d / 2) carry (omega arith) h.1 g.1),
    )

Agree-double : (k a b : ℕ) → Agree k a b → Agree (suc k) (2 * a) (2 * b)
unfolding Agree
Agree-double k a b h =
    let left : 2 * a / 2 ≡ a = omega arith in
    let right : 2 * b / 2 ≡ b = omega arith in (omega arith, rw (left, right) h)

Agree-mul : (k n a b : ℕ) → Agree k a b → Agree k (n * a) (n * b)
Agree-mul k zero a b h =
    let left : 0 * a ≡ 0 = omega arith in
    let right : 0 * b ≡ 0 = omega arith in rw (left, right) (Agree-refl k 0)
Agree-mul k (suc n) a b h =
    let left : suc n * a ≡ a + n * a + 0 = omega arith in
    let right : suc n * b ≡ b + n * b + 0 = omega arith in
    rw (left, right) (Agree-add k a b (n * a) (n * b) 0 (omega arith) h (Agree-mul k n a b h))

mod-double : (x m : ℕ) → 0 < m → x % (2 * m) ≡ x % 2 + 2 * (x / 2 % m)
mod-double x m h =
    let r = x % 2 + 2 * (x / 2 % m) in
    let below : x / 2 % m < m = mod-lt (x / 2) h in
    let split : x ≡ 2 * m * (x / 2 / m) + r = omega (arith, div-add-mod (x / 2) m) in
    ap (λ (y : ℕ). y % (2 * m)) split
    ∙ mul-add-mod_self_left (2 * m) (x / 2 / m) r
    ∙ mod-eq_of_lt (omega arith)

Agree-mul_prime : (k x y : ℕ) → Agree k x y → Agree (suc k) (x * k_hash_prime) (y * k_hash_prime)
Agree-mul_prime k x y e =
    let left : x * k_hash_prime ≡ 2 * (1336382355 * x) = omega arith in
    let right : y * k_hash_prime ≡ 2 * (1336382355 * y) = omega arith in
    rw (left, right)
      (Agree-double k (1336382355 * x) (1336382355 * y) (Agree-mul k 1336382355 x y e))

power_suc : (w : ℕ) → 2 ^ suc w ≡ 2 * 2 ^ w
power_suc w = pow-succ' 2 w

power-pos : (w : ℕ) → 0 < 2 ^ w
power-pos w = one-le-pow w 2 (omega arith)

mod-power : (x w : ℕ) → x % 2 ^ suc w ≡ x % 2 + 2 * (x / 2 % 2 ^ w)
mod-power x w = rw (power_suc w) (mod-double x (2 ^ w) (power-pos w))

Agree-wrap : (k w a b : ℕ) → k ≤ w → Agree k a b → Agree k (a % 2 ^ w) (b % 2 ^ w)
unfolding Agree
Agree-wrap zero w a b le h = tt
Agree-wrap (suc k) zero a b le h = ground arith
Agree-wrap (suc k) (suc w) a b le h =
    let left : a % 2 ^ suc w / 2 ≡ a / 2 % 2 ^ w = omega (arith, mod-power a w) in
    let right : b % 2 ^ suc w / 2 ≡ b / 2 % 2 ^ w = omega (arith, mod-power b w) in
    (
      omega (arith, mod-power a w, mod-power b w, h.0),
      rw (left, right) (Agree-wrap k w (a / 2) (b / 2) (omega arith) h.1),
    )

Agree-equal : (w a b : ℕ) → a < 2 ^ w → b < 2 ^ w → Agree w a b → a ≡ b
unfolding Agree
Agree-equal zero a b h g e = omega arith
Agree-equal (suc w) a b h g e =
    let halves : a / 2 ≡ b / 2 =
      Agree-equal w (a / 2) (b / 2) (omega (arith, power_suc w)) (omega (arith, power_suc w)) e.1 in
    omega (arith, e.0, halves)

Agree-hash_step :
    (k x y c : ℕ) → suc k ≤ 32 → Agree k x y → Agree (suc k) (hash_step x c) (hash_step y c)
unfolding hash_step
Agree-hash_step k x y c le e = Agree-wrap (suc k) 32 _ _ le (
    Agree-xor (suc k) 64 _ _ (to_hash c)
      (Agree-wrap (suc k) 32 (x * k_hash_prime) (y * k_hash_prime) le (Agree-mul_prime k x y e)))

hash_step-bound : (x c : ℕ) → hash_step x c < 2 ^ 32
unfolding hash_step
hash_step-bound x c = omega arith

Agree-hash_from :
    (k : ℕ) (x y : ℕ) (t : Bytes)
    → 32 ≤ k + length t
    → k ≤ 32
    → x < 2 ^ 32
    → y < 2 ^ 32
    → Agree k x y
    → hash_from x t ≡ hash_from y t
unfolding hash_from
Agree-hash_from k x y [] h le lx ly e =
    let full : k ≡ 32 = omega arith in
    Agree-equal 32 x y lx ly (subst (λ (j : ℕ). Agree j x y) full e)
Agree-hash_from k x y (c ∷ t) h le lx ly e = elim (Bool-cases (ltb k 32)) [
  | inl less ↦
      Agree-hash_from (suc k) (hash_step x c) (hash_step y c) t (omega arith) (ground arith)
        (hash_step-bound x c) (hash_step-bound y c) (Agree-hash_step k x y c (ground arith) e)
  | inr not_less ↦
      let full : k ≡ 32 = ground arith in
      ap (λ (z : ℕ). hash_from z (c ∷ t))
        (Agree-equal 32 x y lx ly (subst (λ (j : ℕ). Agree j x y) full e))
]

hash_from-append : (x : ℕ) (a t : Bytes) → hash_from x (a ++ t) ≡ hash_from (hash_from x a) t
unfolding hash_from
hash_from-append x [] t = refl
hash_from-append x (c ∷ a) t = hash_from-append (hash_step x c) a t

hash_from-bound : (x : ℕ) (a : Bytes) → x < 2 ^ 32 → hash_from x a < 2 ^ 32
unfolding hash_from
hash_from-bound x [] h = h
hash_from-bound x (c ∷ a) h = hash_from-bound (hash_step x c) a (hash_step-bound x c)

-- Keys that end with the same 32 bytes, or more, have the same hash, whatever stands before.
pub rt_hash_suffix : (a b t : Bytes) → 32 ≤ length t → rt_hash (a ++ t) ≡ rt_hash (b ++ t)
unfolding rt_hash Agree
rt_hash_suffix a b t h =
    hash_from-append k_hash_basis a t
    ∙ Agree-hash_from 0 (hash_from k_hash_basis a) (hash_from k_hash_basis b) t (omega arith)
        (omega arith) (hash_from-bound k_hash_basis a (omega arith))
        (hash_from-bound k_hash_basis b (omega arith)) tt
    ∙ sym (hash_from-append k_hash_basis b t)
