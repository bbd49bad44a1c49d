-- ===== src/Http/Tests.antt =====
-- Methods, cookies and the codecs at concrete inputs: tests, and the instances of the theorems.
use clueapi.Base.{
  ℕ, ◌≡◌, ◌↔◌, refl, Bool, true, false, map, some, arith, [], ◌∷◌, ◌++◌, inr, ℤ, is_positive, ◌+◌,
}
use clueapi.Base.Bytes.{Bytes, codes, is_empty}
use clueapi.Shared.Extract.Laws.{parts}
use clueapi.Http.Url.{hex_digit, url_decode, encode, url_decode-encode}
use clueapi.Http.Chunks.{Writer, write_chunk, write_final_chunk, write_all}
use clueapi.Http.Chunks.Laws.{decode, concat, write_all-decode, read_size}
use clueapi.Http.Cookie.{Cookie, make_cookie, header_text, serialize}
use clueapi.Http.Cookie.Laws.{IsAllowed, attributes, attribute, serialize_iff, parts-header_text}

url_decode-encode_example : url_decode (encode (codes "a b+%")) ≡ codes "a b+%"
url_decode-encode_example = url_decode-encode (codes "a b+%") (ground arith)

-- Hexadecimal numbers of one digit, and a socket that takes every byte.
abbrev format : ℕ → Bytes
format n = (b'0' + n) ∷ []

abbrev append_to : Bytes → Bytes → Bytes × Bool
append_to b s = (s ++ b, true)

abbrev fresh : Writer Bytes
fresh = record { final_chunk_written = false; socket = [] }

write_all-decode_example :
    decode 3 (write_all format append_to (codes "abc" ∷ codes "de" ∷ []) fresh).0.socket
    ≡ some (concat (codes "abc" ∷ codes "de" ∷ []), [])
unfolding write_all write_chunk write_final_chunk read_size hex_digit
write_all-decode_example =
    write_all-decode format append_to (λ s. s) (λ b s ok. refl) (codes "abc" ∷ codes "de" ∷ [])
      fresh ((ground arith, λ rest. refl), ((ground arith, λ rest. refl), tt)) refl refl refl

abbrev date : ℤ → Bytes
date n = codes "Thu, 01 Jan 1970 00:00:00"

abbrev seconds : ℤ → Bytes
seconds n = codes "86400"

abbrev session : Cookie
session = make_cookie (codes "__Host-id") (codes "42")

serialize_iff_example :
    (serialize seconds date session ≡ inr (header_text seconds date session)) ↔ IsAllowed session
serialize_iff_example = serialize_iff seconds date session

parts-header_text_example :
    parts (header_text seconds date session)
    ≡ codes "__Host-id=42" ∷ map (◌∷◌ b' ') (attributes seconds date session)
unfolding attributes is_empty attribute is_positive
parts-header_text_example = parts-header_text seconds date session (ground arith) (ground arith)
