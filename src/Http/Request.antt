-- ===== src/Http/Request.antt =====
-- clueapi/http/types/request: a request, and the cookies that are read off it when they are asked
-- for. A view into `m_cookies_buffer` is its text.
pub mod Cookies
pub mod Tests
use clueapi.Base.{
  ℕ, zero, suc, Bool, true, false, ◌||◌, ◌&&◌, leb, List, [], ◌∷◌, Option, none, some, length, take,
  drop, ◌==◌, if◌then◌else◌,
}
use clueapi.Base.Bytes.{Bytes, codes, equal, find_char}
use clueapi.Http.Method.{Method}
use clueapi.Shared.Extract.{part_of, rest_of}

abbrev pub Fields : Type 0
Fields = List (Bytes × Bytes)

-- The fields of `request_t`.
pub record Request : Type 0 where
  pub method : Method
  pub uri : Bytes
  pub body : Bytes
  pub headers : Fields
  pub parse_path : Bytes
  pub cookies : Fields
  pub cookies_parsed : Bool
  pub cookies_buffer : Bytes

abbrev pub new_request : Request
new_request = record {
  method = Method.unknown;
  uri = [];
  body = [];
  headers = [];
  parse_path = [];
  cookies = [];
  cookies_parsed = false;
  cookies_buffer = [];
}

-- `find`, where `same` says which keys the map does not tell apart.
unfoldable pub find_field : (Bytes → Bytes → Bool) → Bytes → Fields → Option Bytes
find_field same key [] = none
find_field same key ((k, v) ∷ fs) = if same k key then some v else find_field same key fs

-- `m_cookies.emplace(key, val)`: what is there stays.
unfoldable pub add_cookie : Bytes → Bytes → Fields → Fields
add_cookie key val [] = (key, val) ∷ []
add_cookie key val ((k, v) ∷ fs) =
    if equal k key then (k, v) ∷ fs else (k, v) ∷ add_cookie key val fs

-- `remove_prefix(min(find_first_not_of(" \t"), size()))`
unfoldable pub drop_blanks : Bytes → Bytes
drop_blanks [] = []
drop_blanks (c ∷ s) = if c == b' ' || c == b'\t' then drop_blanks s else c ∷ s

-- `std::isspace` in the C locale.
unfoldable pub isspace : ℕ → Bool
isspace c = c == b' ' || leb 9 c && leb c 13

-- The loop takes the spaces off the back.
unfoldable pub before : ℕ → Bytes → Bytes
unfolding isspace
before c [] = if isspace c then [] else c ∷ []
before c (d ∷ s) = c ∷ d ∷ s

unfoldable pub drop_back : Bytes → Bytes
unfolding before
drop_back [] = []
drop_back (c ∷ s) = before c (drop_back s)

-- The body of the loop for one pair.
unfoldable pub parse_pair : Bytes → Fields → Fields
unfolding drop_blanks drop_back add_cookie
parse_pair raw cs =
    let pair = drop_blanks raw in
    elim (find_char b'=' pair) [
      | none ↦ cs
      | some eq_pos ↦
          add_cookie (drop_back (take eq_pos pair))
            (drop_back (drop_blanks (drop (suc eq_pos) pair))) cs
    ]

-- `while (pos < length)`, on the text behind `pos`; each round takes a byte off at least.
unfoldable pub parse_pairs : ℕ → Bytes → Fields → Fields
unfolding parse_pair
parse_pairs zero s cs = cs
parse_pairs (suc fuel) [] cs = cs
parse_pairs (suc fuel) (c ∷ s) cs =
    parse_pairs fuel (rest_of (c ∷ s)) (parse_pair (part_of (c ∷ s)) cs)

-- `same` compares the names of headers.
module _ (same : Bytes → Bytes → Bool) where
  unfoldable pub parse_cookies : Request → Request
  unfolding parse_pairs find_field
  parse_cookies r =
      if r.cookies_parsed then r else elim (find_field same (codes "cookie") r.headers) [
        | none ↦ record r { cookies_parsed = true }
        | some value ↦ elim r.cookies [
          | [] ↦ record r {
            cookies_parsed = true;
            cookies_buffer = value;
            cookies = parse_pairs (length value) value [];
          }
          | _ ∷ _ ↦ record r { cookies_parsed = true }
        ]
      ]

  -- The request behind the call, since it may parse, and the value.
  unfoldable pub cookie : Bytes → Request → Request × Option Bytes
  unfolding parse_cookies
  cookie name r = let q = parse_cookies r in (q, find_field equal name q.cookies)

  unfoldable pub header : Bytes → Request → Option Bytes
  unfolding find_field
  header name r = find_field same name r.headers

  -- `iequals` is Boost's.
  unfoldable pub keep_alive : (Bytes → Bytes → Bool) → Request → Bool
  unfolding header
  keep_alive iequals r = elim (header (codes "connection") r) [
    | none ↦ true
    | some value ↦ iequals value (codes "keep-alive")
  ]

unfoldable pub reset : Request → Request
reset r = record r {
  method = Method.unknown;
  uri = [];
  body = [];
  headers = [];
  parse_path = [];
  cookies_parsed = false;
  cookies = [];
  cookies_buffer = [];
}
