-- ===== src/Shared/Extract/Laws.antt =====
-- clueapi/shared/non_copy/extract_from: the parts of a header, and the value of a key among them.
use clueapi.Base.{
  ◌⊎◌, ℕ, zero, suc, ◌≤◌, ◌≡◌, ◌∙◌, refl, sym, ap, inl, inr, false, List, [], ◌∷◌, ◌++◌, Option,
  none, some, arith, length, length-drop, drop, take-append, drop-suc-append, All-append, ◌==◌,
  if◌then◌else◌, Option-cases,
}
use clueapi.Base.Bytes.{Bytes, find_char, find_char-Lacks, find_char-append, is_empty, Lacks}
use clueapi.Shared.Text.{ascii_space, ltrim, rtrim, trim, unquote}
use clueapi.Shared.Text.Laws.{
  FrontIsFull, BackIsFull, ltrim_full, rtrim_full, trim_full, iequals_ascii_iff,
}
use clueapi.Shared.Extract.{part_of, rest_of, match_part, or_else, extract_at, extract_sv}

-- The parts between the semicolons, found byte by byte.
unfoldable pub join_front : ℕ → List Bytes → List Bytes
join_front c [] = (c ∷ []) ∷ []
join_front c (s ∷ ss) = (c ∷ s) ∷ ss

unfoldable pub parts : Bytes → List Bytes
unfolding join_front
parts [] = [] ∷ []
parts (c ∷ cs) = let rest = parts cs in if c == b';' then [] ∷ rest else join_front c rest

-- The value of the first part that matches.
pub first_match : Bytes → List Bytes → Option Bytes
unfolding or_else
first_match key [] = none
first_match key (p ∷ ps) = or_else (match_part p key) (first_match key ps)

pub length-rest_of : (c : ℕ) (cs : Bytes) → length (rest_of (c ∷ cs)) ≤ length cs
unfolding rest_of
length-rest_of c cs = elim (Option-cases (find_char b';' (c ∷ cs))) [
  | inl e ↦ rw (e, rest_of) (omega arith)
  | inr (i, e) ↦ rw (e, rest_of) (omega (arith, length-drop (suc i) (c ∷ cs)))
]

-- The parts behind the first.
later : Bytes → Option ℕ → List Bytes
later s none = []
later s (some i) = parts (drop (suc i) s)

parts-part_of : (s : Bytes) → parts s ≡ part_of s ∷ later s (find_char b';' s)
unfolding parts part_of later find_char
parts-part_of [] = refl
parts-part_of (c ∷ cs) = elim (Option-cases (find_char b';' cs)) [
  | inl e ↦ ground (arith, parts-part_of cs)
  | inr (i, e) ↦ ground (arith, parts-part_of cs)
]

-- The text has one part, or its parts are the first one and those of the rest.
pub parts_cases :
    (s : Bytes)
    → ((parts s ≡ part_of s ∷ []) × (rest_of s ≡ [])) ⊎ (parts s ≡ part_of s ∷ parts (rest_of s))
unfolding rest_of later
parts_cases s = elim (Option-cases (find_char b';' s)) [
  | inl e ↦
      inl (parts-part_of s ∙ ap (λ (o : Option ℕ). part_of s ∷ later s o) e, rw (e, rest_of) refl)
  | inr (i, e) ↦
      inr (rw (e, rest_of) (parts-part_of s ∙ ap (λ (o : Option ℕ). part_of s ∷ later s o) e))
]

first_match-nothing : (key : Bytes) → first_match key (parts []) ≡ none
unfolding first_match parts match_part trim ltrim rtrim is_empty
first_match-nothing key = refl

first_match-later :
    (key s : Bytes)
    → first_match key (later s (find_char b';' s)) ≡ first_match key (parts (rest_of s))
unfolding rest_of later first_match
first_match-later key s = elim (Option-cases (find_char b';' s)) [
  | inl e ↦ rw (e, rest_of) (sym (first_match-nothing key))
  | inr (i, e) ↦ rw (e, rest_of)
]

first_match-parts :
    (key s : Bytes)
    → first_match key (parts s)
      ≡ or_else (match_part (part_of s) key) (first_match key (parts (rest_of s)))
unfolding first_match
first_match-parts key s =
    ap (first_match key) (parts-part_of s)
    ∙ ap (or_else (match_part (part_of s) key)) (first_match-later key s)

extract_at-first_match :
    (fuel : ℕ) (s key : Bytes) → length s ≤ fuel → extract_at fuel s key ≡ first_match key (parts s)
unfolding extract_at
extract_at-first_match zero [] key h = sym (first_match-nothing key)
extract_at-first_match zero (c ∷ cs) key h = absurd (omega arith)
extract_at-first_match (suc fuel) [] key h = sym (first_match-nothing key)
extract_at-first_match (suc fuel) (c ∷ cs) key h =
    ap (or_else (match_part (part_of (c ∷ cs)) key))
      (extract_at-first_match fuel (rest_of (c ∷ cs)) key (omega (arith, length-rest_of c cs)))
    ∙ sym (first_match-parts key (c ∷ cs))

-- `extract_sv` comes to an end, and its result is the value of the first part between semicolons
-- that has the key.
pub extract_sv-first_match : (s key : Bytes) → extract_sv s key ≡ first_match key (parts s)
unfolding extract_sv
extract_sv-first_match s key = extract_at-first_match (length s) s key (omega arith)

trim_blank : (s : Bytes) → trim (b' ' ∷ s) ≡ trim s
unfolding trim ltrim ascii_space
trim_blank s = refl

-- A key or a value: no semicolon in it, and no space at an end.
abbrev pub IsToken : Bytes → Type 0
IsToken [] = ⊥
IsToken (c ∷ s) = Lacks b';' (c ∷ s) × FrontIsFull (c ∷ s) × BackIsFull (c ∷ s)

BackIsFull-append : (s : Bytes) (c : ℕ) (r : Bytes) → BackIsFull (c ∷ r) → BackIsFull (s ++ c ∷ r)
BackIsFull-append [] c r h = h
BackIsFull-append (x ∷ []) c r h = h
BackIsFull-append (x ∷ y ∷ s) c r h = BackIsFull-append (y ∷ s) c r h

tail-Lacks :
    (key value : Bytes) → IsToken key → IsToken value → Lacks b';' (b' ' ∷ (key ++ b'=' ∷ value))
tail-Lacks [] value k v = elim k [ ]
tail-Lacks (c ∷ key) [] k v = elim v [ ]
tail-Lacks (c ∷ key) (d ∷ value) k v =
    (refl, All-append (λ x. (x == b';') ≡ false) (c ∷ key) (b'=' ∷ d ∷ value) k.0 (refl, v.0))

part_of-last : (s : Bytes) → Lacks b';' s → part_of s ≡ s
unfolding part_of
part_of-last s h = rw (find_char-Lacks b';' s h, part_of)

part_of-append : (s r : Bytes) → Lacks b';' s → part_of (s ++ b';' ∷ r) ≡ s
unfolding part_of
part_of-append s r h = rw (find_char-append b';' s r h, part_of) (take-append s (b';' ∷ r))

rest_of-append : (s r : Bytes) → Lacks b';' s → rest_of (s ++ b';' ∷ r) ≡ r
unfolding rest_of
rest_of-append s r h = rw (find_char-append b';' s r h, rest_of) (drop-suc-append s b';' r)

rest_of-last : (s : Bytes) → Lacks b';' s → rest_of s ≡ []
unfolding rest_of
rest_of-last s h = rw (find_char-Lacks b';' s h, rest_of)

match_part-parameter :
    (key value : Bytes)
    → IsToken key
    → Lacks b'=' key
    → IsToken value
    → match_part (b' ' ∷ (key ++ b'=' ∷ value)) key ≡ some (unquote value)
unfolding match_part is_empty
match_part-parameter [] value k plain v = elim k [ ]
match_part-parameter (c ∷ key) [] k plain v = elim v [ ]
match_part-parameter (c ∷ key) (d ∷ value) k plain v =
    let text = (c ∷ key) ++ b'=' ∷ d ∷ value in
    let trimmed : trim (b' ' ∷ text) ≡ text =
      trim_blank text ∙ trim_full text k.1 (BackIsFull-append (c ∷ key) b'=' (d ∷ value) v.2) in
    let same = (iequals_ascii_iff (c ∷ key) (c ∷ key)).1 refl in
    ground (
      arith,
      trimmed,
      same,
      find_char-append b'=' (c ∷ key) (d ∷ value) plain,
      take-append (c ∷ key) (b'=' ∷ d ∷ value),
      drop-suc-append (c ∷ key) b'=' (d ∷ value),
      rtrim_full (c ∷ key) k.2,
      ltrim_full (d ∷ value) v.1,
      trim_full (d ∷ value) v.1 v.2,
    )

-- A parameter behind a first part that has no such key is read back, without its quotes, if its key
-- and value have no semicolon and no space at an end, and the key no equals sign.
pub extract_sv-parameter :
    (head key value : Bytes)
    → Lacks b';' head
    → match_part head key ≡ none
    → IsToken key
    → Lacks b'=' key
    → IsToken value
    → extract_sv (head ++ b';' ∷ b' ' ∷ (key ++ b'=' ∷ value)) key ≡ some (unquote value)
unfolding or_else
extract_sv-parameter head key value h miss k plain v =
    let tail = b' ' ∷ (key ++ b'=' ∷ value) in
    let lacks = tail-Lacks key value k v in
    extract_sv-first_match (head ++ b';' ∷ tail) key
    ∙ first_match-parts key (head ++ b';' ∷ tail)
    ∙ rw (part_of-append head tail h, rest_of-append head tail h, miss, or_else)
        (first_match-parts key tail
          ∙ rw (part_of-last tail lacks, match_part-parameter key value k plain v, or_else))
