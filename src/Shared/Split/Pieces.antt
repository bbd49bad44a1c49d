-- ===== src/Shared/Split/Pieces.antt =====
-- clueapi/shared/non_copy/split_view: the pieces that the splitter gives. `operator++` looks for the
-- delimiter from the end of the current piece, where the one stands that it has to pass.
use clueapi.Base.{
  ℕ, suc, ◌+◌, ◌-◌, ◌%◌, ◌<◌, ◌≡◌, ◌∙◌, refl, sym, ap, inl, inr, List, [], ◌∷◌, Option, none, some,
  arith, length, take, drop, length-drop, drop-length, take_all, length-take_le, Option-cases,
}
use clueapi.Base.Bytes.{Bytes, find, starts_with, find-drop, find-length}
use clueapi.Shared.Split.{
  size_mod, resume, find_from, substr_between, Iterator, begin, advance, collect, split,
}
use mathlib.Core.Option

-- The delimiter stands where it is found, and nowhere else from there to that place.
find_nothing : (p : Bytes) → 0 < length p → find [] p ≡ none
unfolding find starts_with
find_nothing [] h = absurd (omega arith)
find_nothing (c ∷ p) h = refl

abbrev at : ℕ → Bytes → Iterator
at pos current = record { pos = some pos; current = current }

find_from_end : (s p : Bytes) → 0 < length p → find_from s p (length s) ≡ none
unfolding find_from
find_from_end s p h = ground (arith, drop-length s, find_nothing p h)

-- From the end of the first piece the search finds the delimiter behind that piece.
find_from_first : (s p : Bytes) (i : ℕ) → find s p ≡ some i → find_from s p i ≡ some i
unfolding find_from
find_from_first s p i e = ground (arith, find-drop s p {i = i} e, find-length s p {i = i} e)

-- The loop stops where the current piece reaches the end of the view.
collect_last :
    (fuel : ℕ) (s p : Bytes) (pos : ℕ) (current : Bytes)
    → 0 < length p
    → pos + length current ≡ length s
    → collect (suc (suc fuel)) s p (at pos current) ≡ some (current ∷ [])
unfolding collect advance resume
collect_last fuel s p pos current h e = rw (e, find_from_end s p h)

-- The second piece: all behind the first delimiter.
resume_first :
    (s p : Bytes) (i : ℕ)
    → find s p ≡ some i
    → 0 < length p
    → length s < size_mod
    → resume s p i (some i) ≡ at (i + length p) (drop (i + length p) s)
unfolding resume substr_between
resume_first s p i e h bound =
    let fits = find-length s p {i = i} e in
    let all =
      take_all ((i + size_mod - (i + length p)) % size_mod) (drop (i + length p) s)
        (omega (arith, length-drop (i + length p) s)) in
    ap (at (i + length p)) all

advance_first :
    (s p : Bytes) (i : ℕ)
    → find s p ≡ some i
    → 0 < length p
    → length s < size_mod
    → advance s p (at 0 (take i s)) ≡ at (i + length p) (drop (i + length p) s)
unfolding advance
advance_first s p i e h bound =
    let fits = find-length s p {i = i} e in
    let end : 0 + length (take i s) ≡ i = omega (arith, length-take_le i s) in
    rw (end, find_from_first s p i e) (resume_first s p i e h bound)

collect_first :
    (s p : Bytes) (i : ℕ)
    → find s p ≡ some i
    → 0 < length p
    → length s < size_mod
    → collect 3 s p (at 0 (take i s)) ≡ some (take i s ∷ drop (i + length p) s ∷ [])
unfolding collect
collect_first s p i e h bound =
    let fits = find-length s p {i = i} e in
    let last =
      collect_last 0 s p (i + length p) (drop (i + length p) s) h
        (omega (arith, length-drop (i + length p) s)) in
    ap (λ (it : Iterator). Option.map (◌∷◌ (take i s)) (collect 2 s p it))
      (advance_first s p i e h bound)
    ∙ ap (Option.map (◌∷◌ (take i s))) last

begin-none : (s p : Bytes) → find s p ≡ none → begin s p ≡ at 0 s
unfolding begin
begin-none s p e = rw e

begin-some : (s p : Bytes) (i : ℕ) → find s p ≡ some i → begin s p ≡ at 0 (take i s)
unfolding begin
begin-some s p i e = rw e

-- What the splitter gives: the whole view where the delimiter does not occur, and else what stands
-- before the first delimiter and all that stands behind it, with the further delimiters in it.
abbrev pub pieces : Bytes → Bytes → Option ℕ → List Bytes
pieces s p none = s ∷ []
pieces s p (some i) = take i s ∷ drop (i + length p) s ∷ []

-- For a delimiter that is not empty, and a text shorter than `2 ^ 64`, the loop ends, and gives one
-- piece or two: it never splits at a second delimiter.
pub split-pieces :
    (s p : Bytes) → 0 < length p → length s < size_mod → split s p ≡ some (pieces s p (find s p))
unfolding split
split-pieces s p h bound = elim (Option-cases (find s p)) [
  | inl e ↦
      ap (collect 3 s p) (begin-none s p e)
      ∙ collect_last 1 s p 0 s h (omega arith)
      ∙ ap (λ (o : Option ℕ). some (pieces s p o)) (sym e)
  | inr (i, e) ↦
      ap (collect 3 s p) (begin-some s p i e)
      ∙ collect_first s p i e h bound
      ∙ ap (λ (o : Option ℕ). some (pieces s p o)) (sym e)
]
