-- ===== src/Shared/Text.antt =====
-- clueapi/shared/non_copy/shared: trimming, comparing and unquoting text views.
pub mod Laws
use clueapi.Base.{
  ℕ, ◌+◌, ◌-◌, Bool, true, false, ◌&&◌, ◌||◌, List, [], ◌∷◌, ◌==◌, leb, ltb, length, if◌then◌else◌,
}
use clueapi.Base.Bytes.{Bytes, front_is, back_is, drop_last}

unfoldable pub ascii_space : ℕ → Bool
ascii_space c = c == b' ' || c == b'\t' || c == b'\r' || c == b'\n'

unfoldable pub ltrim : Bytes → Bytes
ltrim [] = []
ltrim (c ∷ cs) = if ascii_space c then ltrim cs else c ∷ cs

-- A byte before what is left of the view behind it.
unfoldable pub keep : ℕ → Bytes → Bytes
keep c [] = if ascii_space c then [] else c ∷ []
keep c (d ∷ ds) = c ∷ d ∷ ds

-- The loop takes the spaces off the back.
unfoldable pub rtrim : Bytes → Bytes
unfolding keep
rtrim [] = []
rtrim (c ∷ cs) = keep c (rtrim cs)

unfoldable pub trim : Bytes → Bytes
unfolding ltrim rtrim
trim s = rtrim (ltrim s)

unfoldable pub lower : ℕ → ℕ
lower c = if leb b'A' c && leb c b'Z' then c + (b'a' - b'A') else c

-- One round of the loop on the two bytes at the same place.
unfoldable pub same_byte : ℕ → ℕ → Bool
same_byte x y = x == y || lower x == lower y

unfoldable pub iequals_ascii : Bytes → Bytes → Bool
unfolding same_byte lower
iequals_ascii [] [] = true
iequals_ascii (x ∷ xs) (y ∷ ys) = same_byte x y && iequals_ascii xs ys
iequals_ascii _ _ = false

-- `remove_prefix(1)`
behind : Bytes → Bytes
behind [] = []
behind (c ∷ cs) = cs

unfoldable pub unquote : Bytes → Bytes
unfolding behind front_is back_is drop_last
unquote s =
    if leb 2 (length s)
      && ((front_is b'"' s && back_is b'"' s) || (front_is b'\'' s && back_is b'\'' s))
    then drop_last (behind s)
    else s
