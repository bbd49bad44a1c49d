-- ===== src/Base/Search.antt =====
-- What a search for a text finds in a text that goes on, and where the text it finds stands.
use Prim.Native.Nat.{ℕ, zero, suc, ◌+◌, ◌-◌, ◌≤◌, ◌<◌}
use mathlib.Core.List.{[], ◌∷◌, ◌++◌, append_assoc, append-nil}
use mathlib.Core.Logic.{inl, inr}
use mathlib.Core.Option.{none, some}
use mathlib.Core.Path.{◌≡◌, refl, sym, ap, ◌∙◌}
use native.Mathlib.Omega.{arith}
use clueapi.Base.Bytes.{
  Bytes, starts_with, starts_with-append, starts_with-drop, starts_with-length, find, find-length,
  Lacks,
}
use clueapi.Base.Lists.{length, take, drop, drop-append, length-append, length-take_le}
use clueapi.Base.Tests.{Bool-cases, Option-cases}

starts_with-longer :
    (s r p : Bytes) → length p ≤ length s → starts_with (s ++ r) p ≡ starts_with s p
unfolding starts_with
starts_with-longer s r [] h = refl
starts_with-longer [] r (c ∷ p) h = ground arith
starts_with-longer (x ∷ s) r (c ∷ p) h = ground (arith, starts_with-longer s r p)

find_nothing : (s : Bytes) → find s [] ≡ some 0
unfolding find starts_with
find_nothing [] = refl
find_nothing (x ∷ s) = refl

find_self : (p : Bytes) → find p p ≡ some 0
unfolding find starts_with
find_self [] = refl
find_self (c ∷ p) = ground (arith, starts_with-append p [], append-nil p)

-- A text found first at a place is found there whatever follows.
pub find-longer : (s r p : Bytes) {i : ℕ} → find s p ≡ some i → find (s ++ r) p ≡ some i
unfolding find starts_with
find-longer [] r [] h = ground (arith, find_nothing r)
find-longer [] r (c ∷ p) h = ground arith
find-longer (x ∷ s) r p {i = zero} h = ground (
  arith,
  starts_with-longer (x ∷ s) r p,
  starts_with-length (x ∷ s) p,
  Bool-cases (starts_with (x ∷ s) p),
)
find-longer (x ∷ s) r p {i = suc i} h =
    ground
      (arith, starts_with-longer (x ∷ s) r p, find-longer s r p {i = i}, find-length s p {i = i})

-- The first place where a text can begin whose first byte does not occur before.
pub find-Lacks :
    (s r : Bytes) (c : ℕ) (p : Bytes)
    → Lacks c s
    → find (s ++ c ∷ (p ++ r)) (c ∷ p) ≡ some (length s)
unfolding find starts_with
find-Lacks [] r c p h = ground (arith, starts_with-append p r)
find-Lacks (x ∷ s) r c p h = ground (arith, find-Lacks s r c p h.1)

-- Where a text is found, the view is cut into what stands before it, the text, and the rest.
pub find-cuts :
    (s p : Bytes) {i : ℕ} → find s p ≡ some i → s ≡ take i s ++ (p ++ drop (i + length p) s)
unfolding find
find-cuts [] p {i = zero} h = ground (arith, starts_with-drop [] p)
find-cuts [] p {i = suc i} h = ground arith
find-cuts (x ∷ s) p {i = zero} h = ground (arith, starts_with-drop (x ∷ s) p)
find-cuts (x ∷ s) p {i = suc i} h =
    let found : find s p ≡ some i = ground arith in
    let same : suc (i + length p) ≡ suc i + length p = omega arith in
    ap (◌∷◌ x) (find-cuts s p found) ∙ ap (λ n. x ∷ (take i s ++ (p ++ drop n (x ∷ s)))) same

-- What a text ends with is found at its end also where the text goes on.
pub find-ending :
    (s p r : Bytes) → find (s ++ p) p ≡ some (length s) → find (s ++ (p ++ r)) p ≡ some (length s)
find-ending s p r h = ap (λ t. find t p) (sym (append_assoc s p r)) ∙ find-longer (s ++ p) r p h

pub drop-both : (s p r : Bytes) → drop (length s + length p) (s ++ (p ++ r)) ≡ r
drop-both s p r =
    ap (λ n. drop n (s ++ (p ++ r))) (sym (length-append s p))
    ∙ ap (drop (length (s ++ p))) (sym (append_assoc s p r))
    ∙ drop-append (s ++ p) r

starts_with_cut :
    (s p : Bytes) (x : ℕ) {i : ℕ}
    → find s p ≡ some i
    → starts_with (x ∷ s) p ≡ starts_with (x ∷ (take i s ++ p)) p
starts_with_cut s p x {i = i} h =
    ap (λ t. starts_with (x ∷ t) p)
      (find-cuts s p h ∙ sym (append_assoc (take i s) p (drop (i + length p) s)))
    ∙ starts_with-longer (x ∷ (take i s ++ p)) (drop (i + length p) s) p
        (omega (arith, length-append (take i s) p))

-- What stands before the place where a text is found ends with that text first.
pub find-take : (s p : Bytes) {i : ℕ} → find s p ≡ some i → find (take i s ++ p) p ≡ some i
unfolding find
find-take s p {i = zero} h = find_self p
find-take [] p {i = suc i} h = ground arith
find-take (x ∷ s) p {i = suc i} h =
    ground (arith, find-take s p {i = i}, starts_with_cut s p x {i = i})

pub length-take-find : (s p : Bytes) {i : ℕ} → find s p ≡ some i → length (take i s) ≡ i
length-take-find s p {i = i} h = length-take_le i s (omega (arith, find-length s p h))

pub find-nowhere : (c : ℕ) (s p : Bytes) → Lacks c s → find s (c ∷ p) ≡ none
unfolding find starts_with
find-nowhere c [] p h = refl
find-nowhere c (x ∷ s) p h = ground (arith, find-nowhere c s p h.1)

find-shorter :
    (s r p : Bytes) {i : ℕ} → find (s ++ r) p ≡ some i → i + length p ≤ length s → find s p ≡ some i
unfolding find starts_with
find-shorter [] r [] {i = zero} h b = refl
find-shorter [] r [] {i = suc i} h b = absurd (omega arith)
find-shorter [] r (c ∷ p) h b = absurd (omega arith)
find-shorter (x ∷ s) r p {i = zero} h b = ground (arith, starts_with-longer (x ∷ s) r p)
find-shorter (x ∷ s) r p {i = suc i} h b =
    ground (arith, starts_with-longer (x ∷ s) r p, find-shorter s r p {i = i})

-- What is found only once the text goes on reaches beyond the text.
pub find-beyond :
    (s r p : Bytes) {i : ℕ} → find s p ≡ none → find (s ++ r) p ≡ some i → length s < i + length p
find-beyond s r p {i = i} h k = ground (arith, find-shorter s r p {i = i})

pub find-later :
    (n : ℕ) (s p : Bytes) {i : ℕ} → find s p ≡ some i → n ≤ i → find (drop n s) p ≡ some (i - n)
unfolding find
find-later zero s p {i = i} h b = h ∙ ap some (omega arith)
find-later (suc n) s p {i = zero} h b = absurd (omega arith)
find-later (suc n) [] p {i = suc i} h b = ground arith
find-later (suc n) (x ∷ s) p {i = suc i} h b =
    let found : find s p ≡ some i = ground arith in
    find-later n s p found (omega arith) ∙ ap some (omega arith)

pub find-drop-none : (n : ℕ) (s p : Bytes) → find s p ≡ none → find (drop n s) p ≡ none
unfolding find
find-drop-none zero s p h = h
find-drop-none (suc n) [] p h = h
find-drop-none (suc n) (x ∷ s) p h =
    let gone : find s p ≡ none = ground arith in find-drop-none n s p gone

pub find-append-none : (s r p : Bytes) → find (s ++ r) p ≡ none → find s p ≡ none
find-append-none s r p h = elim (Option-cases (find s p)) [
  | inl e ↦ e
  | inr (i, e) ↦ ground (arith, find-longer s r p e)
]
