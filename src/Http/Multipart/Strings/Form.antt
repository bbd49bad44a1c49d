-- ===== src/Http/Multipart/Strings/Form.antt =====
-- clueapi/http/multipart: a form of text fields, written out and parsed.
use clueapi.Base.{
  suc, ◌+◌, ◌<◌, ◌≡◌, ◌∙◌, refl, ap, false, List, [], ◌∷◌, arith, length, map, All, Bool,
  if◌then◌else◌,
}
use clueapi.Base.Bytes.{Bytes, is_empty}
use clueapi.Http.Multipart.{Config, Disk, accepted, refused, too_many_parts, destroy_all, emplace}
use clueapi.Http.Multipart.Strings.{State, next, start, parse, store_part, finish, max_iterations}
use clueapi.Http.Multipart.Strings.Limits.{length-emplace}
use clueapi.Http.Multipart.Strings.Rendering.{body_of, IsClean, collect, parse-body_of, is_full}
use clueapi.Http.Multipart.Strings.Heads.{
  head_of, IsBoost, IsField, parse_headers-head, head-IsClean,
}

-- The fields that a form leaves: of two with one name, the first.
unfoldable pub first_values : List (Bytes × Bytes) → List (Bytes × Bytes) → List (Bytes × Bytes)
unfolding emplace
first_values [] m = m
first_values ((name, value) ∷ fs) m = first_values fs (emplace name value m)

abbrev pub written : List (Bytes × Bytes) → List (Bytes × Bytes)
written fs = map (λ f. (head_of f.0, f.1)) fs

few :
    {W : Type 0} (cfg : Config) (s : State W)
    → length s.parts.fields + length s.parts.files < cfg.max_parts_count
    → is_full cfg s ≡ false
unfolding is_full
few cfg s h = ground arith

length-written : (fs : List (Bytes × Bytes)) → length (written fs) ≡ length fs
length-written [] = refl
length-written (f ∷ fs) = ap suc (length-written fs)

written-IsClean :
    (cfg : Config) (fs : List (Bytes × Bytes))
    → All (IsField cfg) fs
    → All (IsClean cfg) (written fs)
written-IsClean cfg [] h = tt
written-IsClean cfg (f ∷ fs) (p, h) = (head-IsClean cfg f p, written-IsClean cfg fs h)

module _ {W : Type 0} (disk : Disk W) (cfg : Config) (iequals : Bytes → Bytes → Bool)
    (replace_all : Bytes → Bytes → Bytes → Bytes) (boost : IsBoost iequals replace_all) where
  store_part-field :
      (name value : Bytes) (s : State W)
      → is_empty name ≡ false
      → store_part disk cfg (record { content_type = []; file_name = []; name = name }) value s
        ≡ next (record s { parts = record s.parts { fields = emplace name value s.parts.fields } })
  unfolding store_part is_empty
  store_part-field name value s h = rw (store_part, h) refl

  collect-fields :
      (fs : List (Bytes × Bytes)) (s : State W)
      → length s.parts.fields + length s.parts.files + length fs < cfg.max_parts_count
      → All (IsField cfg) fs
      → collect disk cfg iequals replace_all (written fs) s
        ≡ (accepted (record s.parts { fields = first_values fs s.parts.fields }), s.world)
  unfolding collect first_values finish
  collect-fields [] s b h = rw (collect, few cfg s (omega (arith, b))) refl
  collect-fields ((name, value) ∷ fs) s b (f, h) =
      let r : State W = record s {
        parts = record s.parts { fields = emplace name value s.parts.fields };
      } in
      ap
        (λ x.
          if is_full cfg s
          then (refused too_many_parts, destroy_all disk s.parts.files s.world)
          else finish x (λ q. collect disk cfg iequals replace_all (written fs) q))
        (ap (λ p. store_part disk cfg p value s)
            (parse_headers-head iequals replace_all boost cfg (name, value) f)
          ∙ store_part-field name value s f.named)
      ∙ few-splits r
          (collect-fields fs r (omega (arith, b, length-emplace name value s.parts.fields)) h)
    where
      few-splits :
          (r : State W)
          → collect disk cfg iequals replace_all (written fs) r ≡ (
            accepted (record s.parts { fields = first_values ((name, value) ∷ fs) s.parts.fields }),
            s.world,
          )
          → (if is_full cfg s
              then (refused too_many_parts, destroy_all disk s.parts.files s.world)
              else collect disk cfg iequals replace_all (written fs) r)
            ≡ (
              accepted
                  (record s.parts { fields = first_values ((name, value) ∷ fs) s.parts.fields }),
              s.world,
            )
      few-splits r e = rw (few cfg s (omega (arith, b))) e

  -- A form of text fields is parsed into these fields, where of two with one name the first stays, if
  -- there are fewer fields than m_max_parts_count and than the parser takes rounds, 100000, each name is
  -- not empty, has no quote, backslash or carriage return and is short enough for a machine word, and no
  -- value runs into the boundary. Boost's helpers are as documented.
  pub parse-form :
      (fs : List (Bytes × Bytes)) (rest : Bytes) (w : W)
      → length fs < cfg.max_parts_count
      → length fs < max_iterations
      → All (IsField cfg) fs
      → parse disk cfg iequals replace_all (body_of cfg (written fs) rest) w
        ≡ (accepted (record { files = []; fields = first_values fs [] }), w)
  unfolding start
  parse-form fs rest w few rounds h =
      parse-body_of disk cfg iequals replace_all (written fs) rest w
        (omega (arith, length-written fs, rounds)) (written-IsClean cfg fs h)
      ∙ collect-fields fs (start disk cfg [] w) (omega (arith, few)) h
