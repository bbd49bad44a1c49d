-- ===== src/Http/Url.antt =====
-- clueapi/http/detail: decoding of URLs.
use clueapi.Base.{
  ℕ, ◌+◌, ◌*◌, ◌-◌, ◌/◌, ◌%◌, ◌<◌, ◌≡◌, refl, ap, ◌∙◌, inl, inr, Bool-cases, Bool, true, false,
  ◌||◌, ◌&&◌, [], ◌∷◌, Option, none, some, arith, All, ◌==◌, leb, if◌then◌else◌,
}
use clueapi.Base.Bytes.{Bytes}

-- The value of a hexadecimal digit.
unfoldable pub hex_digit : ℕ → Option ℕ
hex_digit c =
    if leb b'0' c && leb c b'9'
    then some (c - b'0')
    else if leb b'A' c && leb c b'F'
    then some (c - 55)
    else if leb b'a' c && leb c b'f'
    then some (c - 87)
    else none

-- `std::from_chars(start, start + 2, value, 16)`: one digit is enough.
unfoldable pub from_chars : ℕ → ℕ → Option ℕ
unfolding hex_digit
from_chars a b = elim (hex_digit a) [
  | none ↦ none
  | some x ↦ elim (hex_digit b) [ none ↦ some x | some y ↦ some (16 * x + y) ]
]

-- The last two branches of the loop.
unfoldable plain : ℕ → ℕ
plain c = if c == b'+' then b' ' else c

unfoldable pub url_decode : Bytes → Bytes
unfolding from_chars plain
url_decode [] = []
url_decode (c ∷ []) = plain c ∷ []
url_decode (c ∷ a ∷ []) = plain c ∷ url_decode (a ∷ [])
url_decode (c ∷ a ∷ b ∷ s) = elim (c == b'%') [
  | true ↦ elim (from_chars a b) [
    | some value ↦ value ∷ url_decode s
    | none ↦ b'%' ∷ url_decode (a ∷ b ∷ s)
  ]
  | false ↦ plain c ∷ url_decode (a ∷ b ∷ s)
]

-- Bytes that stand for themselves in a URL.
unfoldable is_unreserved : ℕ → Bool
is_unreserved c =
    (leb b'0' c && leb c b'9')
    || (leb b'A' c && leb c b'Z')
    || (leb b'a' c && leb c b'z')
    || c == b'-'
    || c == b'.'
    || c == b'_'
    || c == b'~'

-- The hexadecimal digit of a number below 16.
unfoldable to_digit : ℕ → ℕ
to_digit n = if leb n 9 then n + b'0' else n + 55

-- Percent-encoding as RFC 3986 has it.
unfoldable pub encode : Bytes → Bytes
unfolding is_unreserved to_digit
encode [] = []
encode (c ∷ s) =
    if is_unreserved c
    then c ∷ encode s
    else b'%' ∷ to_digit (c / 16) ∷ to_digit (c % 16) ∷ encode s

hex_digit-to_digit : (n : ℕ) → n < 16 → hex_digit (to_digit n) ≡ some n
unfolding hex_digit to_digit
hex_digit-to_digit n h = ground arith

-- A byte that is neither `%` nor `+` is taken as it is, whatever follows.
url_decode_plain :
    (c : ℕ) (s : Bytes)
    → (c == b'%') ≡ false
    → (c == b'+') ≡ false
    → url_decode (c ∷ s) ≡ c ∷ url_decode s
unfolding url_decode plain
url_decode_plain c [] h k = ground arith
url_decode_plain c (a ∷ []) h k = ground arith
url_decode_plain c (a ∷ b ∷ s) h k = ground (arith, h, k)

from_chars-to_digit :
    (c : ℕ) → c < 256 → from_chars (to_digit (c / 16)) (to_digit (c % 16)) ≡ some c
unfolding from_chars
from_chars-to_digit c h =
    ground
      (arith, hex_digit-to_digit (c / 16) (omega arith), hex_digit-to_digit (c % 16) (omega arith))

unreserved-plain : (c : ℕ) → is_unreserved c ≡ true → ((c == b'%') ≡ false) × ((c == b'+') ≡ false)
unfolding is_unreserved
unreserved-plain c h = ground arith

-- Decoding gives back every text of bytes from its percent-encoding.
pub url_decode-encode : (s : Bytes) → All (λ c. c < 256) s → url_decode (encode s) ≡ s
unfolding encode url_decode
url_decode-encode [] h = refl
url_decode-encode (c ∷ s) h = elim (Bool-cases (is_unreserved c)) [
  | inl e ↦
      let (p, q) = unreserved-plain c e in
      rw e (url_decode_plain c (encode s) p q ∙ ap (◌∷◌ c) (url_decode-encode s h.1))
  | inr e ↦ ground (arith, e, from_chars-to_digit c h.0, url_decode-encode s h.1)
]

-- A defect: `%` and one hexadecimal digit is decoded too, and the byte behind the digit is lost.
pub url_decode_one_digit :
    (a b x : ℕ) (s : Bytes)
    → hex_digit a ≡ some x
    → hex_digit b ≡ none
    → url_decode (b'%' ∷ a ∷ b ∷ s) ≡ x ∷ url_decode s
unfolding url_decode from_chars
url_decode_one_digit a b x s h k = ground (arith, h, k)
