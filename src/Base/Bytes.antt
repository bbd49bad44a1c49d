-- ===== src/Base/Bytes.antt =====
-- `std::string` and `std::string_view` as lists of byte values, with the searches the code makes.
-- `npos` is `none`; a view that is cut is a `take` or a `drop`.
use Prim.Native.Char.{code}
use Prim.Native.Nat.{ℕ, zero, suc, ◌+◌, ◌≤◌, ◌<◌}
use Prim.Native.String.{String}
use mathlib.Core.Bool.{Bool, true, false, ◌&&◌}
use mathlib.Core.List.{List, [], ◌∷◌, ◌++◌}
use mathlib.Core.Logic.{◌↔◌}
use mathlib.Core.Option
use mathlib.Core.Option.{Option, none, some}
use mathlib.Core.Path.{◌≡◌, refl}
use native.Mathlib.Omega.{arith}
use clueapi.Base.Lists.{length, take, drop, All}
use clueapi.Base.Tests.{◌==◌, if◌then◌else◌}

abbrev pub Bytes : Type 0
Bytes = List ℕ

-- The code points of a text: its bytes, if it is ASCII.
abbrev pub codes : String → Bytes
codes String.[] = []
codes (String.◌∷◌ c s) = code c ∷ codes s

-- `a == b`
unfoldable pub equal : Bytes → Bytes → Bool
equal [] [] = true
equal [] (d ∷ b) = false
equal (c ∷ a) [] = false
equal (c ∷ a) (d ∷ b) = c == d && equal a b

unfoldable pub is_empty : Bytes → Bool
is_empty [] = true
is_empty (x ∷ xs) = false

unfoldable pub front_is : ℕ → Bytes → Bool
front_is c [] = false
front_is c (x ∷ xs) = x == c

unfoldable pub back_is : ℕ → Bytes → Bool
back_is c [] = false
back_is c (x ∷ []) = x == c
back_is c (x ∷ y ∷ xs) = back_is c (y ∷ xs)

-- `remove_suffix(1)`
unfoldable pub drop_last : Bytes → Bytes
drop_last [] = []
drop_last (x ∷ []) = []
drop_last (x ∷ y ∷ xs) = x ∷ drop_last (y ∷ xs)

-- `s.starts_with(p)`
unfoldable pub starts_with : Bytes → Bytes → Bool
starts_with s [] = true
starts_with [] (p ∷ ps) = false
starts_with (x ∷ xs) (p ∷ ps) = x == p && starts_with xs ps

-- `s.find(c)`
unfoldable pub find_char : ℕ → Bytes → Option ℕ
find_char c [] = none
find_char c (x ∷ xs) = if x == c then some 0 else Option.map suc (find_char c xs)

-- `s.find(p)`
unfoldable pub find : Bytes → Bytes → Option ℕ
unfolding starts_with
find [] p = if starts_with [] p then some 0 else none
find (x ∷ xs) p = if starts_with (x ∷ xs) p then some 0 else Option.map suc (find xs p)

-- No byte of the text is `c`.
abbrev pub Lacks : ℕ → Bytes → Type 0
Lacks c s = All (λ x. (x == c) ≡ false) s

pub equal_iff : (s r : Bytes) → (equal s r ≡ true) ↔ (s ≡ r)
unfolding equal
equal_iff [] [] = ground arith
equal_iff [] (d ∷ r) = ground arith
equal_iff (c ∷ s) [] = ground arith
equal_iff (c ∷ s) (d ∷ r) = ground (equal_iff s r, arith)

pub equal_refl : (a : Bytes) → equal a a ≡ true
equal_refl a = (equal_iff a a).1 refl

pub starts_with-append : (p s : Bytes) → starts_with (p ++ s) p ≡ true
unfolding starts_with
starts_with-append [] s = refl
starts_with-append (x ∷ p) s = ground (arith, starts_with-append p s)

pub starts_with-drop : (s p : Bytes) → starts_with s p ≡ true → s ≡ p ++ drop (length p) s
unfolding starts_with
starts_with-drop s [] h = refl
starts_with-drop (x ∷ s) (c ∷ p) h = ground (arith, starts_with-drop s p)
starts_with-drop [] (c ∷ p) h = ground arith

pub find_char-Lacks : (c : ℕ) (s : Bytes) → Lacks c s → find_char c s ≡ none
unfolding find_char
find_char-Lacks c [] h = refl
find_char-Lacks c (x ∷ s) h = ground (arith, find_char-Lacks c s h.1)

pub find_char-append :
    (c : ℕ) (s r : Bytes) → Lacks c s → find_char c (s ++ c ∷ r) ≡ some (length s)
unfolding find_char
find_char-append c [] r h = ground arith
find_char-append c (x ∷ s) r h = ground (arith, find_char-append c s r h.1)

-- What `find_char` says of the text: where it is cut, and that no earlier byte is `c`.
pub find_char-some :
    (c : ℕ) (s : Bytes) {i : ℕ}
    → find_char c s ≡ some i
    → (i < length s) × (s ≡ take i s ++ c ∷ drop (suc i) s) × Lacks c (take i s)
unfolding find_char
find_char-some c [] h = ground arith
find_char-some c (x ∷ s) {i = zero} h = ground arith
find_char-some c (x ∷ s) {i = suc i} h = ground (arith, find_char-some c s {i = i})

pub find-drop : (s p : Bytes) {i : ℕ} → find s p ≡ some i → find (drop i s) p ≡ some 0
unfolding find
find-drop [] p e = ground arith
find-drop (x ∷ s) p {i = zero} e = ground arith
find-drop (x ∷ s) p {i = suc i} e = ground (arith, find-drop s p {i = i})

pub starts_with-length : (s p : Bytes) → starts_with s p ≡ true → length p ≤ length s
unfolding starts_with
starts_with-length s [] h = omega arith
starts_with-length [] (c ∷ p) h = ground arith
starts_with-length (x ∷ s) (c ∷ p) h = ground (arith, starts_with-length s p)

pub find-length : (s p : Bytes) {i : ℕ} → find s p ≡ some i → i + length p ≤ length s
unfolding find
find-length [] p e = ground (arith, starts_with-length [] p)
find-length (x ∷ s) p {i = zero} e = ground (arith, starts_with-length (x ∷ s) p)
find-length (x ∷ s) p {i = suc i} e = ground (arith, find-length s p {i = i})
