-- ===== src/Shared/Text/Laws.antt =====
-- clueapi/shared/non_copy/shared: trimming, comparing without case, and unquoting.
use clueapi.Base.{
  ℕ, ◌≡◌, ◌↔◌, refl, ap, ◌∙◌, true, false, ◌⊎◌, inl, inr, [], ◌∷◌, ◌++◌, map, arith, length-append,
  All, ◌==◌, Bool-cases,
}
use clueapi.Base.Bytes.{Bytes, front_is, back_is, drop_last}
use clueapi.Shared.Text.{
  ascii_space, ltrim, keep, rtrim, trim, lower, same_byte, iequals_ascii, behind, unquote,
}

abbrev pub IsBlank : Bytes → Type 0
IsBlank s = All (λ c. ascii_space c ≡ true) s

-- The text is empty, or begins with no space.
abbrev pub FrontIsFull : Bytes → Type 0
FrontIsFull [] = Unit {0}
FrontIsFull (c ∷ s) = ascii_space c ≡ false

-- The text is empty, or ends with no space.
abbrev pub BackIsFull : Bytes → Type 0
BackIsFull [] = Unit {0}
BackIsFull (c ∷ []) = ascii_space c ≡ false
BackIsFull (c ∷ d ∷ s) = BackIsFull (d ∷ s)

ltrim-splits : (s : Bytes) → (l : Bytes) × (s ≡ l ++ ltrim s) × IsBlank l × FrontIsFull (ltrim s)
unfolding ltrim
ltrim-splits [] = ([], refl, tt, tt)
ltrim-splits (c ∷ s) = elim (Bool-cases (ascii_space c)) [
  | inl space ↦ let (l, e, b, f) = ltrim-splits s in rw space (c ∷ l, ap (◌∷◌ c) e, (space, b), f)
  | inr full ↦ rw full ([], refl, tt, full)
]

keep-BackIsFull : (c : ℕ) (r : Bytes) → BackIsFull r → BackIsFull (keep c r)
unfolding keep
keep-BackIsFull c [] h = elim (Bool-cases (ascii_space c)) [
  | inl space ↦ rw space tt
  | inr full ↦ rw full full
]
keep-BackIsFull c (d ∷ r) h = h

keep-splits :
    (c : ℕ) (x r : Bytes) → IsBlank r → (q : Bytes) × (c ∷ (x ++ r) ≡ keep c x ++ q) × IsBlank q
unfolding keep
keep-splits c [] r b = elim (Bool-cases (ascii_space c)) [
  | inl space ↦ rw space (c ∷ r, refl, (space, b))
  | inr full ↦ rw full (r, refl, b)
]
keep-splits c (d ∷ x) r b = (r, refl, b)

rtrim-splits : (s : Bytes) → (r : Bytes) × (s ≡ rtrim s ++ r) × IsBlank r × BackIsFull (rtrim s)
unfolding rtrim
rtrim-splits [] = ([], refl, tt, tt)
rtrim-splits (c ∷ s) =
    let (r, e, b, f) = rtrim-splits s in
    let (q, e', b') = keep-splits c (rtrim s) r b in
    (q, ap (◌∷◌ c) e ∙ e', b', keep-BackIsFull c (rtrim s) f)

rtrim-FrontIsFull : (s : Bytes) → FrontIsFull s → FrontIsFull (rtrim s)
unfolding rtrim keep
rtrim-FrontIsFull [] h = tt
rtrim-FrontIsFull (c ∷ s) h = full_front c (rtrim s) h
  where
    full_front : (c : ℕ) (x : Bytes) → ascii_space c ≡ false → FrontIsFull (keep c x)
    full_front c [] full = rw full full
    full_front c (d ∷ x) full = full

-- `trim` cuts nothing but spaces off both ends, and leaves a text that has none at either end.
pub trim-splits :
    (s : Bytes)
    → (l r : Bytes) × (s ≡ l ++ (trim s ++ r))
      × IsBlank l
      × IsBlank r
      × FrontIsFull (trim s)
      × BackIsFull (trim s)
unfolding trim
trim-splits s =
    let (l, e, b, f) = ltrim-splits s in
    let (r, e', b', f') = rtrim-splits (ltrim s) in
    (l, r, e ∙ ap (◌++◌ l) e', b, b', rtrim-FrontIsFull (ltrim s) f, f')

pub ltrim_full : (s : Bytes) → FrontIsFull s → ltrim s ≡ s
unfolding ltrim
ltrim_full [] h = refl
ltrim_full (c ∷ s) h = rw h

pub rtrim_full : (s : Bytes) → BackIsFull s → rtrim s ≡ s
unfolding rtrim keep
rtrim_full [] h = refl
rtrim_full (c ∷ []) h = rw h
rtrim_full (c ∷ d ∷ s) h = rw (rtrim_full (d ∷ s) h)

pub trim_full : (s : Bytes) → FrontIsFull s → BackIsFull s → trim s ≡ s
unfolding trim
trim_full s f b = rw (ltrim_full s f) (rtrim_full s b)

same_byte_iff : (x y : ℕ) → (same_byte x y ≡ true) ↔ (lower x ≡ lower y)
unfolding same_byte lower
same_byte_iff x y = ground arith

-- Two texts are equal without case exactly when they are equal in lower case.
pub iequals_ascii_iff : (a b : Bytes) → (iequals_ascii a b ≡ true) ↔ (map lower a ≡ map lower b)
unfolding iequals_ascii
iequals_ascii_iff (x ∷ a) (y ∷ b) = ground (arith, same_byte_iff x y, iequals_ascii_iff a b)
iequals_ascii_iff _ _ = ground arith

drop_last-append : (s : Bytes) (c : ℕ) → drop_last (s ++ c ∷ []) ≡ s
unfolding drop_last
drop_last-append [] c = refl
drop_last-append (x ∷ []) c = refl
drop_last-append (x ∷ y ∷ s) c = ap (◌∷◌ x) (drop_last-append (y ∷ s) c)

back_is-append : (s : Bytes) (c q : ℕ) → back_is q (s ++ c ∷ []) ≡ (c == q)
unfolding back_is
back_is-append [] c q = refl
back_is-append (x ∷ []) c q = refl
back_is-append (x ∷ y ∷ s) c q = back_is-append (y ∷ s) c q

abbrev pub IsQuote : ℕ → Type 0
IsQuote q = (q ≡ b'"') ⊎ (q ≡ b'\'')

-- Quotes of one kind round a text are taken off, once.
pub unquote-quoted : (q : ℕ) (s : Bytes) → IsQuote q → unquote (q ∷ (s ++ q ∷ [])) ≡ s
unfolding unquote front_is behind
unquote-quoted q s h = ground (
  arith,
  back_is-append (q ∷ s) q b'"',
  back_is-append (q ∷ s) q b'\'',
  drop_last-append s q,
  length-append s (q ∷ []),
)
