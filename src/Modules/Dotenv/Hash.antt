-- ===== src/Modules/Dotenv/Hash.antt =====
-- clueapi/modules/dotenv/detail/hash: the hash of a key, in 32 bits.
pub mod Suffix
use clueapi.Base.{
  ℕ, zero, suc, ◌+◌, ◌*◌, ◌/◌, ◌%◌, ◌^◌, ◌-◌, ◌≤◌, ◌<◌, ◌≡◌, refl, ◌∙◌, sym, ap, Bool, true, false,
  List, [], ◌∷◌, ◌++◌, length, arith, ltb, if◌then◌else◌,
}
use clueapi.Base.Bytes.{Bytes}

-- `0x9e3779b9` and `0x9f4f2726`; the second is even.
abbrev k_hash_basis : ℕ
k_hash_basis = 2654435769

abbrev k_hash_prime : ℕ
k_hash_prime = 2672764710

-- `^` on the lowest `w` bits.
unfoldable pub xor : ℕ → ℕ → ℕ → ℕ
xor zero a b = 0
xor (suc w) a b = (a % 2 + b % 2) % 2 + 2 * xor w (a / 2) (b / 2)

-- `static_cast<hash_t>(ch)` of a signed `char`, in 64 bits.
unfoldable pub to_hash : ℕ → ℕ
to_hash c = if ltb c 128 then c else c + (2 ^ 64 - 256)

-- One round of the loop; `ret` has 32 bits, and is widened to 64 for the `^`.
unfoldable pub hash_step : ℕ → ℕ → ℕ
hash_step ret c = xor 64 (ret * k_hash_prime % 2 ^ 32) (to_hash c) % 2 ^ 32

unfoldable pub hash_from : ℕ → Bytes → ℕ
hash_from ret [] = ret
hash_from ret (c ∷ s) = hash_from (hash_step ret c) s

unfoldable pub rt_hash : Bytes → ℕ
unfolding hash_from
rt_hash s = hash_from k_hash_basis s
