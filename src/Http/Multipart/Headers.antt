-- ===== src/Http/Multipart/Headers.antt =====
-- clueapi/http/multipart/detail/headers_parser: the headers of one part of a multipart body.
pub mod Parameters
use clueapi.Base.{
  ℕ, zero, suc, ◌+◌, ◌||◌, Bool, true, false, not, List, [], ◌∷◌, Option, none, some, length, take,
  drop, ◌==◌, ◌&&◌, if◌then◌else◌,
}
use clueapi.Base.Bytes.{Bytes, codes, find_char, is_empty}
use clueapi.Http.Request.{Fields}
use clueapi.Http.Url.{url_decode}
use clueapi.Shared.Split.{split}
use clueapi.Shared.Text.{trim, unquote}

-- The fields of `headers_t`.
pub record Headers : Type 0 where
  pub content_type : Bytes
  pub file_name : Bytes
  pub name : Bytes

abbrev pub no_headers : Headers
no_headers = record { content_type = []; file_name = []; name = [] }

-- The loop that skips `;` and spaces.
unfoldable pub skip_marks : Bytes → Bytes
skip_marks [] = []
skip_marks (c ∷ s) = if c == b';' || c == b' ' then skip_marks s else c ∷ s

-- How far the loop runs to the quote that closes the value; a backslash takes a byte with it.
unfoldable pub quoted_length : Bytes → ℕ
quoted_length [] = 0
quoted_length (c ∷ []) = if c == b'"' then 0 else 1
quoted_length (c ∷ d ∷ s) = elim (c == b'"') [
  | true ↦ 0
  | false ↦ elim (c == b'\\') [ true ↦ 2 + quoted_length s | false ↦ suc (quoted_length (d ∷ s)) ]
]

-- `std::find(head, end, c)`, as a distance.
unfoldable pub distance_to : ℕ → Bytes → ℕ
distance_to c s = elim (find_char c s) [ none ↦ length s | some i ↦ i ]

-- The value that begins at `head`, and the text behind it.
unfoldable pub read_value : Bytes → Bytes × Bytes
unfolding quoted_length distance_to
read_value [] = (trim [], [])
read_value (c ∷ s) =
    if c == b'"'
    then (take (quoted_length s) s, drop (suc (quoted_length s)) s)
    else (trim (take (distance_to b';' (c ∷ s)) (c ∷ s)), drop (distance_to b';' (c ∷ s)) (c ∷ s))

-- `if (!key.empty()) params.emplace_back(key, value)`, before what the later rounds add.
unfoldable pub keep_named : Bytes → Bytes → Fields → Fields
keep_named key value params = if is_empty key then params else (key, value) ∷ params

-- `while (head != end)`, on the text from `head`; each round takes a `=` off at least.
unfoldable pub parse_rounds : ℕ → Bytes → Fields
unfolding skip_marks read_value keep_named
parse_rounds zero s = []
parse_rounds (suc fuel) s =
    let head = skip_marks s in
    elim (find_char b'=' head) [
      | none ↦ []
      | some eq ↦
          let (value, rest) = read_value (drop (suc eq) head) in
          keep_named (trim (take eq head)) value (parse_rounds fuel rest)
    ]

unfoldable pub parse_parameters : Bytes → Fields
unfolding parse_rounds
parse_parameters params = parse_rounds (length params) params

-- What stands behind the second `'` of a value such as `UTF-8''name`.
unfoldable pub behind_charset : Bytes → Option Bytes
behind_charset value = elim (find_char b'\'' value) [
  | none ↦ none
  | some first ↦
      let rest = drop (suc first) value in
      elim (find_char b'\'' rest) [ none ↦ none | some second ↦ some (drop (suc second) rest) ]
]

-- The lines that the loop runs over; the splitter ends on every text, see `split-pieces`.
unfoldable pub lines_of : Bytes → List Bytes
lines_of blob = elim (split blob (codes "\r\n")) [ none ↦ [] | some lines ↦ lines ]

-- `iequals` and `replace_all` are Boost's.
module _ (iequals : Bytes → Bytes → Bool) (replace_all : Bytes → Bytes → Bytes → Bytes) where
  unfoldable pub unfold_headers : Bytes → Bytes
  unfold_headers blob =
      replace_all (replace_all blob (codes "\r\n ") (codes " ")) (codes "\r\n\t") (codes " ")

  -- The body of the loop over the parameters; the flag is `filename_star_found`.
  unfoldable pub set_parameter : Bytes → Bytes → Headers × Bool → Headers × Bool
  unfolding behind_charset
  set_parameter key value (h, star) =
      if iequals key (codes "name")
      then (record h { name = unquote value }, star)
      else if iequals key (codes "filename*")
      then elim (behind_charset value) [
        | none ↦ (h, star)
        | some encoded ↦ (record h { file_name = url_decode encoded }, true)
      ]
      else if iequals key (codes "filename") && not star
      then (record h { file_name = unquote value }, star)
      else (h, star)

  unfoldable pub set_parameters : Fields → Headers × Bool → Headers × Bool
  unfolding set_parameter
  set_parameters [] s = s
  set_parameters ((key, value) ∷ ps) s = set_parameters ps (set_parameter key value s)

  -- The body of the loop over the lines, for a line with a colon.
  unfoldable pub set_header : Bytes → Bytes → Headers × Bool → Headers × Bool
  unfolding set_parameters
  set_header name value (h, star) =
      if iequals name (codes "Content-Type")
      then (record h { content_type = value }, star)
      else if iequals name (codes "Content-Disposition")
      then elim (find_char b';' value) [
        | none ↦ (h, star)
        | some start ↦ set_parameters (parse_parameters (drop (suc start) value)) (h, star)
      ]
      else (h, star)

  unfoldable pub read_line : Bytes → Headers × Bool → Headers × Bool
  unfolding set_header
  read_line line s = elim (find_char b':' line) [
    | none ↦ s
    | some colon ↦ set_header (take colon line) (trim (drop (suc colon) line)) s
  ]

  unfoldable pub read_lines : List Bytes → Headers × Bool → Headers × Bool
  unfolding read_line
  read_lines [] s = s
  read_lines (line ∷ lines) s = read_lines lines (read_line line s)

  unfoldable pub parse_headers : Bytes → Headers
  unfolding unfold_headers lines_of read_lines
  parse_headers blob = (read_lines (lines_of (unfold_headers blob)) (no_headers, false)).0
