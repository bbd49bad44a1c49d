-- ===== src/Http/Request/Cookies.antt =====
-- clueapi/http/types/request: the cookies of a request against its header.
use clueapi.Base.{
  ℕ, zero, suc, ◌≤◌, ◌≡◌, refl, sym, ap, ◌∙◌, inl, inr, Bool, true, false, ◌||◌, List, [], ◌∷◌,
  ◌++◌, map, Option, none, some, length, take-append, drop-suc-append, All, arith, ◌==◌, Bool-cases,
}
use clueapi.Base.Bytes.{Bytes, codes, equal, equal_iff, find_char, find_char-append, Lacks}
use clueapi.Shared.Extract.{part_of, rest_of, or_else}
use clueapi.Shared.Extract.Laws.{parts, parts_cases, length-rest_of}
use clueapi.Http.Cookie.Laws.{joined, parts-joined}
use clueapi.Http.Request.{
  Request, Fields, find_field, add_cookie, drop_blanks, drop_back, parse_pair, parse_pairs,
  parse_cookies, cookie,
}

-- Each part in turn.
parse_parts : List Bytes → Fields → Fields
parse_parts [] cs = cs
parse_parts (p ∷ ps) cs = parse_parts ps (parse_pair p cs)

parse_pair-nothing : (cs : Fields) → parse_pair [] cs ≡ cs
unfolding parse_pair drop_blanks find_char
parse_pair-nothing cs = refl

parse_parts-nothing : (cs : Fields) → parse_parts (parts []) cs ≡ cs
unfolding parse_parts parts
parse_parts-nothing cs = parse_pair-nothing cs

parse_parts-rest :
    (s : Bytes) (cs : Fields)
    → parse_parts (parts s) cs ≡ parse_parts (parts (rest_of s)) (parse_pair (part_of s) cs)
unfolding parse_parts
parse_parts-rest s cs = elim (parts_cases s) [
  | inl (e, nothing) ↦ rw (e, nothing) (sym (parse_parts-nothing (parse_pair (part_of s) cs)))
  | inr e ↦ rw e refl
]

parse_pairs-parts :
    (fuel : ℕ) (s : Bytes) (cs : Fields)
    → length s ≤ fuel
    → parse_pairs fuel s cs ≡ parse_parts (parts s) cs
unfolding parse_pairs
parse_pairs-parts zero [] cs h = sym (parse_parts-nothing cs)
parse_pairs-parts zero (c ∷ s) cs h = absurd (omega arith)
parse_pairs-parts (suc fuel) [] cs h = sym (parse_parts-nothing cs)
parse_pairs-parts (suc fuel) (c ∷ s) cs h =
    parse_pairs-parts fuel (rest_of (c ∷ s)) (parse_pair (part_of (c ∷ s)) cs)
      (omega (arith, length-rest_of c s))
    ∙ sym (parse_parts-rest (c ∷ s) cs)

-- No blank or tab in front.
abbrev pub HasFront : Bytes → Type 0
HasFront [] = Unit {0}
HasFront (c ∷ s) = (c == b' ' || c == b'\t') ≡ false

-- A name and a value that the header can hold.
abbrev pub IsPair : Bytes × Bytes → Type 0
IsPair p =
    HasFront p.0
    × (drop_back p.0 ≡ p.0)
    × Lacks b'=' p.0
    × HasFront p.1
    × (drop_back p.1 ≡ p.1)
    × Lacks b';' (p.0 ++ b'=' ∷ p.1)

drop_blanks-HasFront : (s : Bytes) → HasFront s → drop_blanks s ≡ s
unfolding drop_blanks
drop_blanks-HasFront [] h = refl
drop_blanks-HasFront (c ∷ s) h = rw h refl

HasFront-append : (s r : Bytes) (c : ℕ) → HasFront s → HasFront (c ∷ r) → HasFront (s ++ c ∷ r)
HasFront-append [] r c h k = k
HasFront-append (d ∷ s) r c h k = h

parse_pair-pair :
    (k v : Bytes) (cs : Fields) → IsPair (k, v) → parse_pair (k ++ b'=' ∷ v) cs ≡ add_cookie k v cs
unfolding parse_pair
parse_pair-pair k v cs h = ground (
  arith,
  drop_blanks-HasFront (k ++ b'=' ∷ v) (HasFront-append k v b'=' h.0 refl),
  find_char-append b'=' k v h.2,
  take-append k (b'=' ∷ v),
  drop-suc-append k b'=' v,
  drop_blanks-HasFront v h.3,
  h.1,
  h.4,
)

parse_pair-blank : (s : Bytes) (cs : Fields) → parse_pair (b' ' ∷ s) cs ≡ parse_pair s cs
unfolding parse_pair drop_blanks
parse_pair-blank s cs = refl

abbrev pub pair_text : Bytes × Bytes → Bytes
pair_text p = p.0 ++ b'=' ∷ p.1

-- `name=value; name=value`, as RFC 6265 has it.
abbrev pub cookie_text : Bytes × Bytes → Fields → Bytes
cookie_text p ps = pair_text p ++ joined (map pair_text ps)

or_else-none : (a : Option Bytes) → or_else a none ≡ a
unfolding or_else
or_else-none none = refl
or_else-none (some x) = refl

find_field-add_cookie :
    (name k v : Bytes) (cs : Fields)
    → find_field equal name (add_cookie k v cs)
      ≡ or_else (find_field equal name cs) (find_field equal name ((k, v) ∷ []))
unfolding find_field add_cookie or_else
find_field-add_cookie name k v [] = refl
find_field-add_cookie name k v ((j, w) ∷ cs) = elim (Bool-cases (equal j k)) [
  | inl e ↦
      let same : equal k name ≡ equal j name =
        ap (λ (x : Bytes). equal x name) (sym ((equal_iff j k).0 e)) in
      elim (Bool-cases (equal j name)) [
        | inl f ↦ rw (e, f) refl
        | inr f ↦ rw (e, f, same, f) (sym (or_else-none (find_field equal name cs)))
      ]
  | inr e ↦ elim (Bool-cases (equal j name)) [
    | inl f ↦ rw (e, f) refl
    | inr f ↦ rw (e, f) (find_field-add_cookie name k v cs)
  ]
]

or_else_assoc : (a b c : Option Bytes) → or_else (or_else a b) c ≡ or_else a (or_else b c)
unfolding or_else
or_else_assoc none b c = refl
or_else_assoc (some x) b c = refl

find_field-cons :
    (name k v : Bytes) (ps : Fields)
    → find_field equal name ((k, v) ∷ ps)
      ≡ or_else (find_field equal name ((k, v) ∷ [])) (find_field equal name ps)
unfolding find_field or_else
find_field-cons name k v ps = elim (Bool-cases (equal k name)) [
  | inl e ↦ rw e refl
  | inr e ↦ rw e refl
]

-- What a look-up finds behind the parts: a cookie that was there, or the first one of the name.
find_field-parse_parts :
    (name : Bytes) (ps cs : Fields)
    → All IsPair ps
    → find_field equal name (parse_parts (map (◌∷◌ b' ') (map pair_text ps)) cs)
      ≡ or_else (find_field equal name cs) (find_field equal name ps)
unfolding parse_parts find_field
find_field-parse_parts name [] cs h = sym (or_else-none (find_field equal name cs))
find_field-parse_parts name ((k, v) ∷ ps) cs h =
    ap (λ (x : Fields). find_field equal name (parse_parts (map (◌∷◌ b' ') (map pair_text ps)) x))
      (parse_pair-blank (k ++ b'=' ∷ v) cs ∙ parse_pair-pair k v cs h.0)
    ∙ find_field-parse_parts name ps (add_cookie k v cs) h.1
    ∙ ap (λ (o : Option Bytes). or_else o (find_field equal name ps))
        (find_field-add_cookie name k v cs)
    ∙ or_else_assoc _ _ _
    ∙ ap (or_else (find_field equal name cs)) (sym (find_field-cons name k v ps))

All-Lacks : (ps : Fields) → All IsPair ps → All (Lacks b';') (map pair_text ps)
All-Lacks [] h = tt
All-Lacks (p ∷ ps) h = (h.0.5, All-Lacks ps h.1)

-- The call that parses the header.
parse_cookies-value :
    (same : Bytes → Bytes → Bool) (r : Request) (value : Bytes)
    → r.cookies_parsed ≡ false
    → r.cookies ≡ []
    → find_field same (codes "cookie") r.headers ≡ some value
    → (parse_cookies same r).cookies ≡ parse_pairs (length value) value []
unfolding parse_cookies
parse_cookies-value same r value fresh empty e = rw (fresh, e, empty) refl

parse_parts-text :
    (name k v : Bytes) (ps : Fields)
    → All IsPair ((k, v) ∷ ps)
    → find_field equal name (parse_parts (parts (cookie_text (k, v) ps)) [])
      ≡ find_field equal name ((k, v) ∷ ps)
unfolding parse_parts add_cookie
parse_parts-text name k v ps h =
    let behind = map (◌∷◌ b' ') (map pair_text ps) in
    ap (λ (x : List Bytes). find_field equal name (parse_parts x []))
      (parts-joined (pair_text (k, v)) (map pair_text ps) h.0.5 (All-Lacks ps h.1))
    ∙ ap (λ (x : Fields). find_field equal name (parse_parts behind x)) (parse_pair-pair k v [] h.0)
    ∙ find_field-parse_parts name ps ((k, v) ∷ []) h.1
    ∙ sym (find_field-cons name k v ps)

-- In a request whose cookies were not read yet, and whose cookie header lists pairs without blanks at
-- their ends and without signs of their own: a name that is looked up has the value of the first pair
-- with that name, or none if no pair has it.
pub cookie-header :
    (same : Bytes → Bytes → Bool) (name k v : Bytes) (ps : Fields) (r : Request)
    → All IsPair ((k, v) ∷ ps)
    → r.cookies_parsed ≡ false
    → r.cookies ≡ []
    → find_field same (codes "cookie") r.headers ≡ some (cookie_text (k, v) ps)
    → (cookie same name r).1 ≡ find_field equal name ((k, v) ∷ ps)
unfolding cookie
cookie-header same name k v ps r h fresh empty e =
    let text = cookie_text (k, v) ps in
    ap (find_field equal name) (
      parse_cookies-value same r text fresh empty e
      ∙ parse_pairs-parts (length text) text [] (omega arith))
    ∙ parse_parts-text name k v ps h

parse_cookies_done :
    (same : Bytes → Bytes → Bool) (r : Request) → r.cookies_parsed ≡ true → parse_cookies same r ≡ r
unfolding parse_cookies
parse_cookies_done same r h = rw h refl

parse_cookies_parsed :
    (same : Bytes → Bytes → Bool) (r : Request) → (parse_cookies same r).cookies_parsed ≡ true
unfolding parse_cookies
parse_cookies_parsed same r = ground arith

-- The cookies are read off once: a second call changes nothing.
pub parse_cookies-twice :
    (same : Bytes → Bytes → Bool) (r : Request)
    → parse_cookies same (parse_cookies same r) ≡ parse_cookies same r
parse_cookies-twice same r =
    parse_cookies_done same (parse_cookies same r) (parse_cookies_parsed same r)
