-- ===== src/Base/Lists.antt =====
-- Lists measured and indexed by native numbers, under the library's names.
use Prim.Native.Nat.{ℕ, zero, suc, ◌+◌, ◌-◌, ◌≤◌, ◌<◌}
use mathlib.Core.Path.{◌≡◌, refl, sym, ap, ◌∙◌}
use mathlib.Core.List.{List, [], ◌∷◌, ◌++◌}
use mathlib.Core.Logic.{◌⊎◌, inl, inr}
use native.Mathlib.Omega.{arith}

module _ {ℓ} {A : Type ℓ} where
  abbrev pub length : List A → ℕ
  length [] = 0
  length (x ∷ l) = suc (length l)

  abbrev pub take : ℕ → List A → List A
  take zero l = []
  take (suc n) [] = []
  take (suc n) (x ∷ l) = x ∷ take n l

  abbrev pub drop : ℕ → List A → List A
  drop zero l = l
  drop (suc n) [] = []
  drop (suc n) (x ∷ l) = drop n l

  abbrev pub All {κ} : (A → Type κ) → List A → Type κ
  All P [] = Unit
  All P (x ∷ l) = P x × All P l

  pub All-append {κ} : (P : A → Type κ) (l ys : List A) → All P l → All P ys → All P (l ++ ys)
  All-append P [] ys h k = k
  All-append P (x ∷ l) ys h k = (h.0, All-append P l ys h.1 k)

  pub length-append : (l ys : List A) → length (l ++ ys) ≡ length l + length ys
  length-append [] ys = omega arith
  length-append (x ∷ l) ys = omega (arith, length-append l ys)

  pub take-append-drop : (n : ℕ) (l : List A) → take n l ++ drop n l ≡ l
  take-append-drop zero l = refl
  take-append-drop (suc n) [] = refl
  take-append-drop (suc n) (x ∷ l) = ap (◌∷◌ x) (take-append-drop n l)

  pub length-drop : (n : ℕ) (l : List A) → length (drop n l) ≡ length l - n
  length-drop zero l = omega arith
  length-drop (suc n) [] = omega arith
  length-drop (suc n) (x ∷ l) = omega (arith, length-drop n l)

  pub drop-append : (l ys : List A) → drop (length l) (l ++ ys) ≡ ys
  drop-append [] ys = refl
  drop-append (x ∷ l) ys = drop-append l ys

  pub take-append : (l ys : List A) → take (length l) (l ++ ys) ≡ l
  take-append [] ys = refl
  take-append (x ∷ l) ys = ap (◌∷◌ x) (take-append l ys)

  pub drop-length : (l : List A) → drop (length l) l ≡ []
  drop-length [] = refl
  drop-length (x ∷ l) = drop-length l

  pub take_all : (n : ℕ) (l : List A) → length l ≤ n → take n l ≡ l
  take_all zero [] h = refl
  take_all zero (x ∷ l) h = absurd (omega arith)
  take_all (suc n) [] h = refl
  take_all (suc n) (x ∷ l) h = ap (◌∷◌ x) (take_all n l (omega arith))

  pub length-take_le : (n : ℕ) (l : List A) → n ≤ length l → length (take n l) ≡ n
  length-take_le zero l h = refl
  length-take_le (suc n) [] h = absurd (omega arith)
  length-take_le (suc n) (x ∷ l) h = ap suc (length-take_le n l (omega arith))

  pub drop-suc-append :
      (l : List A) (y : A) (ys : List A) → drop (suc (length l)) (l ++ y ∷ ys) ≡ ys
  drop-suc-append [] y ys = refl
  drop-suc-append (x ∷ l) y ys = drop-suc-append l y ys

  pub take-longer : (n : ℕ) (l ys : List A) → n ≤ length l → take n (l ++ ys) ≡ take n l
  take-longer zero l ys h = refl
  take-longer (suc n) [] ys h = absurd (omega arith)
  take-longer (suc n) (x ∷ l) ys h = ap (◌∷◌ x) (take-longer n l ys (omega arith))

  pub drop-longer : (n : ℕ) (l ys : List A) → n ≤ length l → drop n (l ++ ys) ≡ drop n l ++ ys
  drop-longer zero l ys h = refl
  drop-longer (suc n) [] ys h = absurd (omega arith)
  drop-longer (suc n) (x ∷ l) ys h = drop-longer n l ys (omega arith)

  drop_nil : (n : ℕ) → drop n [] ≡ []
  drop_nil zero = refl
  drop_nil (suc n) = refl

  take_nil : (n : ℕ) → take n [] ≡ []
  take_nil zero = refl
  take_nil (suc n) = refl

  pub drop-drop : (n k : ℕ) (l : List A) → drop k (drop n l) ≡ drop (n + k) l
  drop-drop zero k l = ap (λ i. drop i l) (omega arith)
  drop-drop (suc n) k [] = drop_nil k ∙ sym (drop_nil (suc n + k))
  drop-drop (suc n) k (x ∷ l) =
      let same : suc (n + k) ≡ suc n + k = omega arith in
      drop-drop n k l ∙ ap (λ i. drop i (x ∷ l)) same

  pub take-take-drop :
      (n i : ℕ) (l : List A) → n ≤ i → take n l ++ take (i - n) (drop n l) ≡ take i l
  take-take-drop zero i l h = ap (λ k. take k l) (omega arith)
  take-take-drop (suc n) zero l h = absurd (omega arith)
  take-take-drop (suc n) (suc i) [] h = take_nil (suc i - suc n)
  take-take-drop (suc n) (suc i) (x ∷ l) h =
      let same : suc i - suc n ≡ i - n = omega arith in
      ap (λ k. x ∷ (take n l ++ take k (drop n l))) same
      ∙ ap (◌∷◌ x) (take-take-drop n i l (omega arith))

  pub empty-cases : (l : List A) → (l ≡ []) ⊎ (0 < length l)
  empty-cases [] = inl refl
  empty-cases (x ∷ l) = inr (omega arith)

  -- What a cut at a place that may lie behind the end takes.
  pub length-take : (n : ℕ) (l : List A) → (length (take n l) ≤ n) × (length (take n l) ≤ length l)
  length-take zero l = (omega arith, omega arith)
  length-take (suc n) [] = (omega arith, omega arith)
  length-take (suc n) (x ∷ l) = let (h, k) = length-take n l in (omega (arith, h), omega (arith, k))

  pub take-length-take : (n : ℕ) (l : List A) → take (length (take n l)) l ≡ take n l
  take-length-take zero l = refl
  take-length-take (suc n) [] = refl
  take-length-take (suc n) (x ∷ l) = ap (◌∷◌ x) (take-length-take n l)

  pub drop-length-take : (n : ℕ) (l : List A) → drop (length (take n l)) l ≡ drop n l
  drop-length-take zero l = refl
  drop-length-take (suc n) [] = refl
  drop-length-take (suc n) (x ∷ l) = drop-length-take n l

  pub length-take_some : (n : ℕ) (l : List A) → 0 < n → 0 < length l → 0 < length (take n l)
  length-take_some zero l h k = absurd (omega arith)
  length-take_some (suc n) [] h k = absurd (omega arith)
  length-take_some (suc n) (x ∷ l) h k = omega arith

  pub drop_beyond : (n : ℕ) (l : List A) → length (take n l) < n → drop n l ≡ []
  drop_beyond zero l h = absurd (omega arith)
  drop_beyond (suc n) [] h = refl
  drop_beyond (suc n) (x ∷ l) h = drop_beyond n l (omega arith)
