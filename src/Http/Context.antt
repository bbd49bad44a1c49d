-- ===== src/Http/Context.antt =====
-- clueapi/http/ctx: the context of a request, with the parts of its multipart body.
pub mod Tests
use clueapi.Base.{
  ℕ, Bool, true, false, List, [], ◌∷◌, ◌≡◌, ◌∙◌, sym, ap, refl, ◌<◌, Option, none, some, length,
  All, if◌then◌else◌,
}
use clueapi.Base.Bytes.{Bytes, codes, is_empty}
use clueapi.Http.Request.{Request, Fields, find_field}
use clueapi.Http.Multipart.{Config, Disk, File, Outcome, accepted, refused, thrown}
use clueapi.Http.Multipart.Files.{Source}
use clueapi.Http.Multipart.Files.Body
use clueapi.Http.Multipart.Strings
use clueapi.Http.Multipart.Strings.{max_iterations}
use clueapi.Http.Multipart.Strings.Form.{written, first_values, parse-form}
use clueapi.Http.Multipart.Strings.Heads.{IsBoost, IsField}
use clueapi.Http.Multipart.Strings.Rendering.{body_of}
use clueapi.Shared.Extract.{extract_str}

-- The fields of `ctx_t`.
pub record Ctx : Type 0 where
  pub params : Fields
  pub files : List (Bytes × File)
  pub fields : Fields
  pub request : Request

-- What parsing leaves, or that an exception leaves it; `no_fuel` is no end of it.
pub data Parsed (W : Type 0) : Type 0 where
  parsed : Ctx → W → Parsed W
  threw : W → Parsed W
  no_fuel : Parsed W

-- `same` compares names of headers, and `ifind_first` is Boost's, as are the other two.
module _ {W : Type 0} (src : Source W) (disk : Disk W)
    (same ifind_first iequals : Bytes → Bytes → Bool)
    (replace_all : Bytes → Bytes → Bytes → Bytes) where
  -- A result that is refused is logged, and the context stays.
  unfoldable pub take_parts : Ctx → Outcome × W → Parsed W
  take_parts ctx (accepted parts, w) =
      parsed (record ctx { files = parts.files; fields = parts.fields }) w
  take_parts ctx (refused e, w) = parsed ctx w
  take_parts ctx (thrown, w) = threw w

  -- The file is removed behind the parser, unless the parser throws.
  unfoldable pub remove_parsed : Bytes → Outcome × W → Outcome × W
  remove_parsed path (accepted parts, w) = (accepted parts, disk.remove path w)
  remove_parsed path (refused e, w) = (refused e, disk.remove path w)
  remove_parsed path (thrown, w) = (thrown, w)

  unfoldable pub parse_file_multipart : ℕ → Config → Bytes → Ctx → W → Parsed W
  unfolding take_parts remove_parsed
  parse_file_multipart fuel cfg path ctx w =
      elim (Body.parse src disk cfg iequals replace_all fuel path w) [
        | none ↦ no_fuel
        | some o ↦ take_parts ctx (remove_parsed path o)
      ]

  unfoldable pub parse_body_multipart : Config → Bytes → Bytes → Ctx → W → Parsed W
  unfolding take_parts
  parse_body_multipart cfg body content_type ctx w =
      if ifind_first content_type (codes "multipart/form-data")
      then take_parts ctx (Strings.parse disk cfg iequals replace_all body w)
      else parsed ctx w

  unfoldable pub parse : ℕ → Config → Ctx → W → Parsed W
  unfolding parse_file_multipart parse_body_multipart extract_str find_field
  parse fuel cfg ctx w = elim (find_field same (codes "content-type") ctx.request.headers) [
    | none ↦ parsed ctx w
    | some content_type ↦
        let boundary = extract_str content_type (codes "boundary") in
        let bounded = record cfg { boundary = boundary } in
        if is_empty boundary
        then parsed ctx w
        else if is_empty ctx.request.parse_path
        then parse_body_multipart bounded ctx.request.body content_type ctx w
        else parse_file_multipart fuel bounded ctx.request.parse_path ctx w
  ]

  -- `make_awaitable`
  unfoldable pub make_awaitable : ℕ → Config → Fields → Request → W → Parsed W
  unfolding parse
  make_awaitable fuel cfg params request w =
      parse fuel cfg (record { params = params; files = []; fields = []; request = request }) w

  parse-body :
      (fuel : ℕ) (cfg : Config) (content_type : Bytes) (ctx : Ctx) (w : W)
      → find_field same (codes "content-type") ctx.request.headers ≡ some content_type
      → is_empty (extract_str content_type (codes "boundary")) ≡ false
      → is_empty ctx.request.parse_path ≡ true
      → ifind_first content_type (codes "multipart/form-data") ≡ true
      → parse fuel cfg ctx w
        ≡ take_parts ctx (
            Strings.parse disk
              (record cfg { boundary = extract_str content_type (codes "boundary") })
              iequals
              replace_all
              ctx.request.body
              w)
  unfolding parse parse_body_multipart
  parse-body fuel cfg content_type ctx w typed bounded in_body kind =
      rw (parse, typed, bounded, in_body, kind) refl

  -- The context of a request whose body is in memory and is a form of text fields, by its type with a
  -- boundary, has these fields, the first where two have one name, and no files, if there are fewer
  -- fields than m_max_parts_count and than the parser takes rounds, 100000, each name is not empty, has
  -- no quote, backslash or carriage return and is short enough for a machine word, and no value runs
  -- into the boundary. Boost's helpers are as documented.
  pub make_awaitable-form :
      (fuel : ℕ) (cfg : Config) (content_type : Bytes) (params : Fields) (request : Request) (w : W)
      (fs : List (Bytes × Bytes)) (rest : Bytes)
      → find_field same (codes "content-type") request.headers ≡ some content_type
      → is_empty (extract_str content_type (codes "boundary")) ≡ false
      → is_empty request.parse_path ≡ true
      → ifind_first content_type (codes "multipart/form-data") ≡ true
      → IsBoost iequals replace_all
      → length fs < cfg.max_parts_count
      → length fs < max_iterations
      → All (IsField (record cfg { boundary = extract_str content_type (codes "boundary") })) fs
      → request.body
        ≡ body_of
            (record cfg { boundary = extract_str content_type (codes "boundary") })
            (written fs)
            rest
      → make_awaitable fuel cfg params request w
        ≡ parsed
            (record { params = params; files = []; fields = first_values fs []; request = request })
            w
  unfolding make_awaitable take_parts
  make_awaitable-form fuel cfg content_type params request w fs rest typed bounded in_body kind
        boost few rounds h e =
      let c : Config = record cfg { boundary = extract_str content_type (codes "boundary") } in
      let ctx : Ctx = record { params = params; files = []; fields = []; request = request } in
      parse-body fuel cfg content_type ctx w typed bounded in_body kind
      ∙ ap (λ b. take_parts ctx (Strings.parse disk c iequals replace_all b w)) e
      ∙ ap (take_parts ctx) (parse-form disk c iequals replace_all boost fs rest w few rounds h)
