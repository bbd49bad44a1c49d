-- ===== src/Http/Request/Tests.antt =====
-- The cookies of requests at concrete headers: tests, and the instances of the theorems.
use clueapi.Base.{◌≡◌, refl, [], ◌∷◌, arith, true}
use clueapi.Base.Bytes.{Bytes, codes, equal, find_char}
use clueapi.Shared.Extract.{part_of, rest_of}
use clueapi.Http.Request.{
  Request, new_request, find_field, add_cookie, drop_blanks, drop_back, before, isspace, parse_pair,
  parse_pairs, parse_cookies, cookie, keep_alive, header,
}
use clueapi.Http.Cookie.Laws.{joined}
use clueapi.Http.Request.Cookies.{cookie-header}

abbrev with_cookies : Bytes → Request
with_cookies text = record new_request { headers = (codes "cookie", text) ∷ [] }

-- Blanks, a pair without a name, a part without a sign, and a name that comes twice.
read_cookies :
    (parse_cookies equal (with_cookies (codes " a = 1 ;x;=3; b=2;a=4"))).cookies
    ≡ (codes "a", codes "1") ∷ (codes "", codes "3") ∷ (codes "b", codes "2") ∷ []
unfolding parse_cookies parse_pairs parse_pair find_field find_char part_of rest_of drop_blanks
    drop_back before isspace add_cookie equal
read_cookies = refl

kept_alive : keep_alive equal equal (with_cookies []) ≡ true
unfolding keep_alive header find_field equal
kept_alive = refl

abbrev two_pairs : Request
two_pairs = with_cookies (codes "a=1; b=2")

cookie-header_example :
    (cookie equal (codes "b") two_pairs).1
    ≡ find_field equal (codes "b") ((codes "a", codes "1") ∷ (codes "b", codes "2") ∷ [])
unfolding find_field equal drop_back before isspace joined
cookie-header_example =
    cookie-header equal (codes "b") (codes "a") (codes "1") ((codes "b", codes "2") ∷ []) two_pairs
      (ground arith) refl refl refl
