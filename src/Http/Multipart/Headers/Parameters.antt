-- ===== src/Http/Multipart/Headers/Parameters.antt =====
-- clueapi/http/multipart/detail/headers_parser: parameters that are written out and read again.
use clueapi.Base.{
  ℕ, zero, suc, ◌+◌, ◌≤◌, ◌≡◌, ◌∙◌, refl, ap, false, [], ◌∷◌, ◌++◌, arith, length, drop,
  length-append, take-append, drop-suc-append, All, ◌==◌,
}
use clueapi.Base.Bytes.{Bytes, find_char, find_char-append, is_empty, Lacks}
use clueapi.Http.Request.{Fields}
use clueapi.Shared.Text.{ascii_space, trim}
use clueapi.Shared.Text.Laws.{FrontIsFull, BackIsFull, trim_full}
use clueapi.Http.Multipart.Headers.{
  skip_marks, quoted_length, read_value, keep_named, parse_rounds, parse_parameters,
}

-- Parameters with quoted values, each behind `; `.
unfoldable pub render_parameters : Fields → Bytes
render_parameters [] = []
render_parameters ((key, value) ∷ ps) =
    b';' ∷ b' ' ∷ (key ++ b'=' ∷ b'"' ∷ (value ++ b'"' ∷ render_parameters ps))

-- The key does not begin with `;`.
abbrev pub NoMark : Bytes → Type 0
NoMark [] = Unit {0}
NoMark (c ∷ s) = (c == b';') ≡ false

-- A key that is not empty, has no sign and no spaces at its ends, and a value without quotes and
-- backslashes.
pub record IsPlain (p : Bytes × Bytes) : Type 0 where
  pub named : is_empty p.0 ≡ false
  pub front : FrontIsFull p.0
  pub back : BackIsFull p.0
  pub mark : NoMark p.0
  pub sign : Lacks b'=' p.0
  pub quotes : Lacks b'"' p.1
  pub backslashes : Lacks b'\\' p.1

quoted_length-append :
    (v r : Bytes) → Lacks b'"' v → Lacks b'\\' v → quoted_length (v ++ b'"' ∷ r) ≡ length v
unfolding quoted_length
quoted_length-append [] [] h k = refl
quoted_length-append [] (c ∷ r) h k = refl
quoted_length-append (c ∷ []) r h k = ground (arith, quoted_length-append [] r tt tt)
quoted_length-append (c ∷ d ∷ v) r h k = ground (arith, quoted_length-append (d ∷ v) r h.1 k.1)

read_value-quoted :
    (v r : Bytes) → Lacks b'"' v → Lacks b'\\' v → read_value (b'"' ∷ (v ++ b'"' ∷ r)) ≡ (v, r)
unfolding read_value
read_value-quoted v r h k =
    rw (quoted_length-append v r h k, take-append v (b'"' ∷ r), drop-suc-append v b'"' r) refl

skip_marks-key :
    (key r : Bytes)
    → is_empty key ≡ false
    → FrontIsFull key
    → NoMark key
    → skip_marks (b';' ∷ b' ' ∷ (key ++ r)) ≡ key ++ r
unfolding skip_marks is_empty ascii_space
skip_marks-key [] r h f m = ground arith
skip_marks-key (c ∷ key) r h f m = ground (arith, f, m)

length-render :
    (key value r : Bytes)
    → length (b';' ∷ b' ' ∷ (key ++ b'=' ∷ b'"' ∷ (value ++ b'"' ∷ r)))
      ≡ length key + length value + length r + 5
length-render key value r =
    omega
      (arith, length-append key (b'=' ∷ b'"' ∷ (value ++ b'"' ∷ r)), length-append value (b'"' ∷ r))

parse_rounds-first :
    (fuel : ℕ) (s key value r : Bytes)
    → IsPlain (key, value)
    → skip_marks s ≡ key ++ b'=' ∷ b'"' ∷ (value ++ b'"' ∷ r)
    → parse_rounds (suc fuel) s ≡ (key, value) ∷ parse_rounds fuel r
unfolding parse_rounds keep_named
parse_rounds-first fuel s key value r p k =
    let text = b'"' ∷ (value ++ b'"' ∷ r) in
    let named : keep_named (trim key) value (parse_rounds fuel r)
        ≡ (key, value) ∷ parse_rounds fuel r =
      rw (trim_full key p.front p.back, p.named) refl in
    rw
      (
        parse_rounds,
        k,
        find_char-append b'=' key text p.sign,
        k,
        take-append key (b'=' ∷ text),
        drop-suc-append key b'=' text,
      )
      (ap (λ (q : Bytes × Bytes). keep_named (trim key) q.0 (parse_rounds fuel q.1))
          (read_value-quoted value r p.quotes p.backslashes)
        ∙ named)

parse_rounds-render :
    (fuel : ℕ) (ps : Fields)
    → All IsPlain ps
    → length (render_parameters ps) ≤ fuel
    → parse_rounds fuel (render_parameters ps) ≡ ps
unfolding parse_rounds render_parameters skip_marks find_char
parse_rounds-render zero [] h le = refl
parse_rounds-render (suc fuel) [] h le = refl
parse_rounds-render zero ((key, value) ∷ ps) h le = absurd (omega arith)
parse_rounds-render (suc fuel) ((key, value) ∷ ps) (p, h) le =
    parse_rounds-first fuel (render_parameters ((key, value) ∷ ps)) key value (render_parameters ps)
      p (skip_marks-key key _ p.named p.front p.mark)
    ∙ ap (◌∷◌ (key, value)) (
        parse_rounds-render fuel ps h
          (omega (arith, le, length-render key value (render_parameters ps))))

-- Parameters with plain keys and quoted values are read as they were written, in their order, all
-- of them: no key is empty, begins with `;`, holds `=` or has spaces at its ends, and no value holds
-- a quote or a backslash.
pub parse_parameters-render :
    (ps : Fields) → All IsPlain ps → parse_parameters (render_parameters ps) ≡ ps
unfolding parse_parameters
parse_parameters-render ps h =
    parse_rounds-render (length (render_parameters ps)) ps h (omega arith)

-- A header's value is cut at its first semicolon, so its parameters begin behind one.
pub parse_parameters-behind :
    (p : Bytes × Bytes) (ps : Fields)
    → IsPlain p
    → All IsPlain ps
    → parse_parameters (drop 1 (render_parameters (p ∷ ps))) ≡ p ∷ ps
unfolding parse_parameters render_parameters skip_marks
parse_parameters-behind (key, value) ps p h =
    parse_rounds-first _ (drop 1 (render_parameters ((key, value) ∷ ps))) key value
      (render_parameters ps) p (skip_marks-key key _ p.named p.front p.mark)
    ∙ ap (◌∷◌ (key, value))
        (parse_rounds-render _ ps h (omega (arith, length-render key value (render_parameters ps))))
