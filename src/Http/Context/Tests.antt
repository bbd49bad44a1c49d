-- ===== src/Http/Context/Tests.antt =====
-- The context of a request at a concrete input: the instance of the theorem.
use clueapi.Base.{◌≡◌, refl, sym, ap, subst, [], ◌∷◌, some, none, arith, All}
use clueapi.Base.Bytes.{Bytes, codes, is_empty, starts_with, find_char}
use clueapi.Http.Request.{Request, new_request, find_field}
use clueapi.Http.Context.{parsed, make_awaitable, make_awaitable-form}
use clueapi.Http.Multipart.Strings.Form.{written, first_values}
use clueapi.Http.Multipart.Strings.Heads.{IsField}
use clueapi.Http.Multipart.Strings.Rendering.{body_of}
use clueapi.Http.Multipart.Tests.{disk, cfg, fields, replace, plain, boost, fields-IsField}
use clueapi.Shared.Extract.{extract_str, match_part}
use clueapi.Shared.Extract.Laws.{extract_sv-parameter}
use clueapi.Shared.Text.{iequals_ascii, unquote, trim, rtrim, ltrim, keep, ascii_space}

no_key : match_part (codes "multipart/form-data") (codes "boundary") ≡ none
unfolding match_part trim rtrim ltrim ascii_space keep is_empty find_char
no_key = refl

-- A request with a form, by its type with a boundary.
abbrev form_type : Bytes
form_type = codes "multipart/form-data; boundary=XyZ"

form_boundary : extract_str form_type (codes "boundary") ≡ codes "XyZ"
unfolding extract_str unquote ascii_space
form_boundary =
    ap (λ o. elim o [ some value ↦ value | none ↦ [] ])
      (extract_sv-parameter (codes "multipart/form-data") (codes "boundary") (codes "XyZ")
        (ground arith) no_key (ground arith) (ground arith) (ground arith))

abbrev form : Request
form = record new_request {
  headers = (codes "content-type", form_type) ∷ [];
  body =
      body_of (record cfg { boundary = extract_str form_type (codes "boundary") }) (written fields)
        [];
}

make_awaitable-form_example :
    make_awaitable plain disk iequals_ascii starts_with iequals_ascii replace 0 cfg [] form []
    ≡ parsed
        (record { params = []; files = []; fields = first_values fields []; request = form })
        []
unfolding find_field starts_with is_empty iequals_ascii
make_awaitable-form_example =
    make_awaitable-form plain disk iequals_ascii starts_with iequals_ascii replace 0 cfg form_type
      [] form [] fields [] refl (ap is_empty form_boundary) refl refl boost (omega arith)
      (omega arith)
      (subst (λ b. All (IsField (record cfg { boundary = b })) fields) (sym form_boundary)
        fields-IsField)
      refl
