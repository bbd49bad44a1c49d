-- ===== src/Http/Multipart/Strings/Heads.antt =====
-- clueapi/http/multipart: the header block of a text field, written out and parsed.
use clueapi.Base.{
  ℕ, ◌<◌, ◌≡◌, ◌∙◌, refl, ap, false, [], ◌∷◌, ◌++◌, some, none, arith, length, drop, All-append,
  ◌==◌, Bool,
}
use clueapi.Base.Bytes.{Bytes, codes, find, find_char, is_empty, Lacks}
use clueapi.Http.Multipart.{Config, crlf_dash_boundary}
use clueapi.Http.Multipart.Headers.{
  Headers, parse_headers, no_headers, unfold_headers, lines_of, read_line, read_lines, set_header,
  set_parameters, set_parameter, parse_parameters,
}
use clueapi.Http.Multipart.Headers.Parameters.{render_parameters, parse_parameters-behind, IsPlain}
use clueapi.Http.Multipart.Strings.Rendering.{IsClean}
use clueapi.Shared.Text.{iequals_ascii, unquote, ascii_space, trim, ltrim, same_byte, lower}
use clueapi.Shared.Text.Laws.{BackIsFull, trim_full}
use clueapi.Shared.Split.{size_mod}
use clueapi.Shared.Split.Pieces.{split-pieces}
use clueapi.Base.Search.{find-nowhere, find-Lacks}

-- The header block of a field.
unfoldable pub head_of : Bytes → Bytes
head_of name =
    codes "Content-Disposition: form-data" ++ render_parameters ((codes "name", name) ∷ [])

-- Boost's helpers: comparing is without case in the C locale, and nothing is replaced where the
-- search finds nothing.
pub record IsBoost (iequals : Bytes → Bytes → Bool) (replace_all : Bytes → Bytes → Bytes → Bytes)
    : Type 0 where
  pub same : (a b : Bytes) → iequals a b ≡ iequals_ascii a b
  pub kept : (t a b : Bytes) → find t a ≡ none → replace_all t a b ≡ t

-- A name that can be written between quotes, and a value that does not hold the boundary.
pub record IsField (cfg : Config) (f : Bytes × Bytes) : Type 0 where
  pub named : is_empty f.0 ≡ false
  pub quotes : Lacks b'"' f.0
  pub backslashes : Lacks b'\\' f.0
  pub returns : Lacks b'\r' f.0
  pub bare : unquote f.0 ≡ f.0
  pub short : length (head_of f.0) < size_mod
  pub content_ends :
      find (f.1 ++ crlf_dash_boundary cfg) (crlf_dash_boundary cfg) ≡ some (length f.1)

BackIsFull-append : (s : Bytes) (c : ℕ) → ascii_space c ≡ false → BackIsFull (s ++ c ∷ [])
BackIsFull-append [] c h = h
BackIsFull-append (x ∷ []) c h = h
BackIsFull-append (x ∷ y ∷ s) c h = BackIsFull-append (y ∷ s) c h

head-Lacks : (name : Bytes) → Lacks b'\r' name → Lacks b'\r' (head_of name)
unfolding head_of render_parameters
head-Lacks name h = ground (arith, All-append (λ x. (x == b'\r') ≡ false) name (b'"' ∷ []) h)

name-IsPlain : (cfg : Config) (f : Bytes × Bytes) → IsField cfg f → IsPlain (codes "name", f.0)
unfolding is_empty ascii_space
name-IsPlain cfg f h = record {
  named = refl;
  front = refl;
  back = refl;
  mark = refl;
  sign = ground arith;
  quotes = h.quotes;
  backslashes = h.backslashes;
}

module _ (iequals : Bytes → Bytes → Bool) (replace_all : Bytes → Bytes → Bytes → Bytes)
    (boost : IsBoost iequals replace_all) where
  unfold_headers-head :
      (name : Bytes)
      → Lacks b'\r' name
      → unfold_headers iequals replace_all (head_of name) ≡ head_of name
  unfolding unfold_headers
  unfold_headers-head name h =
      ap (λ t. replace_all t (codes "\r\n\t") (codes " "))
        (boost.kept (head_of name) (codes "\r\n ") (codes " ")
          (find-nowhere b'\r' (head_of name) (codes "\n ") (head-Lacks name h)))
      ∙ boost.kept (head_of name) (codes "\r\n\t") (codes " ")
          (find-nowhere b'\r' (head_of name) (codes "\n\t") (head-Lacks name h))

  lines_of-head :
      (name : Bytes)
      → Lacks b'\r' name
      → length (head_of name) < size_mod
      → lines_of (head_of name) ≡ head_of name ∷ []
  unfolding lines_of
  lines_of-head name h b =
      rw
        (
          lines_of,
          split-pieces (head_of name) (codes "\r\n") (omega arith) b,
          find-nowhere b'\r' (head_of name) (codes "\n") (head-Lacks name h),
        )
        refl

  -- The header's value is all that stands behind the colon and the space.
  trim-value : (name : Bytes) → trim (drop 20 (head_of name)) ≡ drop 21 (head_of name)
  unfolding head_of render_parameters trim ltrim ascii_space
  trim-value name =
      trim_full (codes "form-data; name=\"" ++ (name ++ b'"' ∷ [])) refl
        (BackIsFull-append (codes "form-data; name=\"" ++ name) b'"' refl)

  set_parameter-name :
      (name : Bytes)
      → unquote name ≡ name
      → set_parameter iequals replace_all (codes "name") name (no_headers, false)
        ≡ (record { content_type = []; file_name = []; name = name }, false)
  unfolding set_parameter iequals_ascii same_byte lower
  set_parameter-name name h = rw (set_parameter, boost.same (codes "name") (codes "name"), h) refl

  set_header-value :
      (name : Bytes)
      → IsPlain (codes "name", name)
      → unquote name ≡ name
      → set_header iequals replace_all
          (codes "Content-Disposition")
          (drop 21 (head_of name))
          (no_headers, false)
        ≡ (record { content_type = []; file_name = []; name = name }, false)
  unfolding set_header set_parameters head_of find_char iequals_ascii same_byte lower
      render_parameters parse_parameters
  set_header-value name p h =
      rw
        (
          set_header,
          boost.same (codes "Content-Disposition") (codes "Content-Type"),
          boost.same (codes "Content-Disposition") (codes "Content-Disposition"),
        )
        (ap (λ ps. set_parameters iequals replace_all ps (no_headers, false))
            (parse_parameters-behind (codes "name", name) [] p tt)
          ∙ set_parameter-name name h)

  read_line-head :
      (name : Bytes)
      → IsPlain (codes "name", name)
      → unquote name ≡ name
      → read_line iequals replace_all (head_of name) (no_headers, false)
        ≡ (record { content_type = []; file_name = []; name = name }, false)
  unfolding read_line head_of find_char
  read_line-head name p h =
      ap (λ v. set_header iequals replace_all (codes "Content-Disposition") v (no_headers, false))
        (trim-value name)
      ∙ set_header-value name p h

  pub parse_headers-head :
      (cfg : Config) (f : Bytes × Bytes)
      → IsField cfg f
      → parse_headers iequals replace_all (head_of f.0)
        ≡ record { content_type = []; file_name = []; name = f.0 }
  unfolding parse_headers read_lines is_empty
  parse_headers-head cfg f h =
      ap (λ t. (read_lines iequals replace_all (lines_of t) (no_headers, false)).0)
        (unfold_headers-head f.0 h.returns)
      ∙ ap (λ l. (read_lines iequals replace_all l (no_headers, false)).0)
          (lines_of-head f.0 h.returns h.short)
      ∙ ap (λ (s : Headers × Bool). s.0) (read_line-head f.0 (name-IsPlain cfg f h) h.bare)

pub head-IsClean :
    (cfg : Config) (f : Bytes × Bytes) → IsField cfg f → IsClean cfg (head_of f.0, f.1)
head-IsClean cfg f h = record {
  head_ends = find-Lacks (head_of f.0) [] b'\r' (codes "\n\r\n") (head-Lacks f.0 h.returns);
  content_ends = h.content_ends;
}
