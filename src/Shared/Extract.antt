-- ===== src/Shared/Extract.antt =====
-- clueapi/shared/non_copy/extract_from: a parameter's value out of a header such as Content-Type.
pub mod Laws
use clueapi.Base.{
  ℕ, zero, suc, Bool, true, false, List, [], ◌∷◌, Option, none, some, length, take, drop,
  if◌then◌else◌,
}
use clueapi.Base.Bytes.{Bytes, find_char, is_empty}
use clueapi.Shared.Text.{trim, rtrim, ltrim, iequals_ascii, unquote}

-- `part`, from the start of the view to the next semicolon.
unfoldable pub part_of : Bytes → Bytes
part_of s = elim (find_char b';' s) [ none ↦ s | some sep ↦ take sep s ]

-- The view behind that semicolon.
unfoldable pub rest_of : Bytes → Bytes
rest_of s = elim (find_char b';' s) [ none ↦ [] | some sep ↦ drop (suc sep) s ]

-- What the body of the loop returns for one part; `none` is `continue`.
unfoldable pub match_part : Bytes → Bytes → Option Bytes
match_part raw key =
    let part = trim raw in
    if is_empty part then none else elim (find_char b'=' part) [
      | none ↦ none
      | some eq ↦
          (if iequals_ascii (rtrim (take eq part)) key
            then some (unquote (trim (ltrim (drop (suc eq) part))))
            else none)
    ]

-- The value that a round returns, or what the rounds behind it return.
unfoldable pub or_else : Option Bytes → Option Bytes → Option Bytes
or_else none b = b
or_else (some a) b = some a

-- `while (!content_type.empty())`; each round takes a byte off at least.
pub extract_at : ℕ → Bytes → Bytes → Option Bytes
extract_at zero s key = none
extract_at (suc fuel) [] key = none
extract_at (suc fuel) (c ∷ cs) key =
    or_else (match_part (part_of (c ∷ cs)) key) (extract_at fuel (rest_of (c ∷ cs)) key)

pub extract_sv : Bytes → Bytes → Option Bytes
unfolding extract_at or_else match_part part_of rest_of
extract_sv s key = extract_at (length s) s key

unfoldable pub extract_str : Bytes → Bytes → Bytes
unfolding extract_sv
extract_str s key = elim (extract_sv s key) [ some value ↦ value | none ↦ [] ]
