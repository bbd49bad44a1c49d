-- ===== src/Http/Multipart/Strings/Accepted.antt =====
-- clueapi/http/multipart/detail/string_parser: what a body looks like that the parser accepts.
use clueapi.Base.{
  ℕ, zero, suc, ◌+◌, ◌<◌, ◌≡◌, subst, ◌∙◌, refl, sym, ap, inl, inr, false, List, [], ◌∷◌, ◌++◌,
  some, arith, length, take, drop, All, Bool, Option-cases, not, if-split,
}
use clueapi.Base.Bytes.{Bytes, codes, find, starts_with, starts_with-drop}
use clueapi.Base.Search.{find-take, find-cuts, length-take-find}
use clueapi.Http.Multipart.{
  Config, Disk, Error, Outcome, accepted, refused, thrown, Parts, dash_boundary, crlf_dash_boundary,
  too_many_parts, boundary_line, headers_end, content_end,
}
use clueapi.Http.Multipart.Headers.{Headers, parse_headers}
use clueapi.Http.Multipart.Strings.{
  State, Step, stop, next, finish, give_up, save_to_disk, store_file, store_part, continue_at,
  read_content, read_part, after_boundary, round, rounds, start, parse, max_iterations,
}
use clueapi.Http.Multipart.Strings.Rendering.{
  render, body_of, IsClean, is_full, collect, collect_view, read_part-cut, read_content-cut,
}

module _ {W : Type 0} (disk : Disk W) (cfg : Config) where
  -- The step is no end with parts.
  abbrev GoesOn : Step W → Type 0
  GoesOn (stop (accepted p) w) = ⊥
  GoesOn (stop (refused e) w) = Unit {0}
  GoesOn (stop thrown w) = Unit {0}
  GoesOn (next s) = Unit {0}

  store_part-GoesOn :
      (h : Headers) (content : Bytes) (s : State W) → GoesOn (store_part disk cfg h content s)
  unfolding store_part store_file save_to_disk give_up
  store_part-GoesOn h content s = ground arith

-- A header block and a content that the searches end are clean.
cut-IsClean :
    (cfg : Config) (text body : Bytes) {i j : ℕ}
    → find text (codes "\r\n\r\n") ≡ some i
    → find body (crlf_dash_boundary cfg) ≡ some j
    → IsClean cfg (take i text, take j body)
cut-IsClean cfg text body e f = record {
  head_ends =
      find-take text (codes "\r\n\r\n") e
      ∙ ap some (sym (length-take-find text (codes "\r\n\r\n") e));
  content_ends =
      find-take body (crlf_dash_boundary cfg) f
      ∙ ap some (sym (length-take-find body (crlf_dash_boundary cfg) f));
}

-- The state's view is written out of parts, and `o` is what these parts leave.
module _ {W : Type 0} (disk : Disk W) (cfg : Config) (iequals : Bytes → Bytes → Bool)
    (replace_all : Bytes → Bytes → Bytes → Bytes) where
  abbrev IsWritten : ℕ → State W → Outcome × W → Type 0
  IsWritten left s o =
      (ps : List (Bytes × Bytes)) × (rest : Bytes) × (s.view ≡ render cfg ps rest)
      × (length ps < left)
      × All (IsClean cfg) ps
      × (collect disk cfg iequals replace_all ps s ≡ o)

  -- Rounds that accept a view run on a view that is written out of parts.
  abbrev Reads : ℕ → Parts → W → Type 0
  Reads left p w =
      (q : State W)
      → rounds disk cfg iequals replace_all left q ≡ (accepted p, w)
      → IsWritten left q (accepted p, w)

  refused-absurd :
      (left : ℕ) (x : Error) (s : State W) (p : Parts) (w : W)
      → finish (give_up disk cfg (refused x) s) (λ q. rounds disk cfg iequals replace_all left q)
        ≡ (accepted p, w)
      → ⊥
  unfolding finish give_up
  refused-absurd left x s p w e = ground arith

  stored-IsWritten :
      (left : ℕ) (v : Bytes) (p : Parts) (w : W) (r : Step W)
      → Reads left p w
      → GoesOn disk cfg r
      → finish (continue_at disk cfg v r) (λ q. rounds disk cfg iequals replace_all left q)
        ≡ (accepted p, w)
      → (ps : List (Bytes × Bytes)) × (rest : Bytes) × (v ≡ render cfg ps rest)
        × (length ps < left)
        × All (IsClean cfg) ps
        × (finish r (λ q. collect disk cfg iequals replace_all ps q) ≡ (accepted p, w))
  unfolding finish continue_at
  stored-IsWritten left v p w (stop (accepted x) w1) ih g e = absurd g
  stored-IsWritten left v p w (stop (refused x) w1) ih g e = ground arith
  stored-IsWritten left v p w (stop thrown w1) ih g e = ground arith
  stored-IsWritten left v p w (next q) ih g e =
      let (ps, rest, a, b, c, d) = ih (record q { view = v }) e in
      (ps, rest, a, b, c, sym (collect_view disk cfg iequals replace_all ps v q) ∙ d)

  content-IsWritten :
      (left : ℕ) (text : Bytes) (s : State W) (p : Parts) (w : W) {i : ℕ}
      → Reads left p w
      → is_full cfg s ≡ false
      → s.view ≡ codes "\r\n" ++ text
      → find text (codes "\r\n\r\n") ≡ some i
      → finish
          (read_content disk cfg
            (parse_headers iequals replace_all (take i text))
            (drop (i + 4) text)
            s)
          (λ q. rounds disk cfg iequals replace_all left q)
        ≡ (accepted p, w)
      → IsWritten (suc left) s (accepted p, w)
  unfolding collect render read_content
  content-IsWritten left text s p w {i = i} ih few view found e =
      let h = parse_headers iequals replace_all (take i text) in
      let body = drop (i + 4) text in
      let m = codes "\r\n\r\n" in
      let b = crlf_dash_boundary cfg in
      elim (Option-cases (find body b)) [
        | inl gone ↦
            let gave : read_content disk cfg h body s ≡ give_up disk cfg (refused content_end) s =
              rw (read_content, gone) refl in
            absurd (
              refused-absurd left content_end s p w (
                subst
                  (λ r.
                    finish r (λ q. rounds disk cfg iequals replace_all left q) ≡ (accepted p, w))
                  gave e))
        | inr (j, end) ↦
            let v = drop (j + length b) body in
            let step =
              sym (
                ap (λ r. finish r (λ q. rounds disk cfg iequals replace_all left q))
                  (read_content-cut disk cfg iequals replace_all h body s end))
              ∙ e in
            let (ps, rest, a, bound, clean, d) =
              stored-IsWritten left v p w (store_part disk cfg h (take j body) s) ih
                (store_part-GoesOn disk cfg h (take j body) s) step in
            (
              (take i text, take j body) ∷ ps,
              rest,
              view
                  ∙ ap (λ t. codes "\r\n" ++ t)
                      (find-cuts text m found
                        ∙ ap (λ t. take i text ++ (m ++ t))
                            (find-cuts body b end ∙ ap (λ t. take j body ++ (b ++ t)) a)),
              omega (arith, bound),
              (cut-IsClean cfg text body found end, clean),
              rw few d,
            )
      ]

  part-IsWritten :
      (left : ℕ) (text : Bytes) (s : State W) (p : Parts) (w : W)
      → Reads left p w
      → is_full cfg s ≡ false
      → s.view ≡ codes "\r\n" ++ text
      → finish
          (read_part disk cfg iequals replace_all text s)
          (λ q. rounds disk cfg iequals replace_all left q)
        ≡ (accepted p, w)
      → IsWritten (suc left) s (accepted p, w)
  unfolding read_part
  part-IsWritten left text s p w ih few view e =
      let k = λ (r : Step W).
        finish r (λ q. rounds disk cfg iequals replace_all left q) ≡ (accepted p, w) in
      elim (Option-cases (find text (codes "\r\n\r\n"))) [
        | inl gone ↦
            absurd (refused-absurd left headers_end s p w (subst k (rw (read_part, gone) refl) e))
        | inr (i, found) ↦
            content-IsWritten left text s p w ih few view found
              (subst k (read_part-cut disk cfg iequals replace_all text s found) e)
      ]

  -- A round that does not give up has a part to read, or meets the end mark.
  round-IsWritten :
      (left : ℕ) (s : State W) (p : Parts) (w : W)
      → Reads left p w
      → finish
          (round disk cfg iequals replace_all s)
          (λ q. rounds disk cfg iequals replace_all left q)
        ≡ (accepted p, w)
      → IsWritten (suc left) s (accepted p, w)
  unfolding round after_boundary is_full render finish collect
  round-IsWritten left s p w ih =
      if-split P (is_full cfg s) (λ _ e. absurd (gives_up too_many_parts e))
        (λ few.
          if-split P (starts_with s.view (codes "--"))
            (λ h e. (
              [],
              drop 2 s.view,
              starts_with-drop s.view (codes "--") h,
              omega arith,
              tt,
              ended few e,
            ))
            (λ _.
              if-split P (not (starts_with s.view (codes "\r\n")))
                (λ _ e. absurd (gives_up boundary_line e))
                (λ h.
                  part-IsWritten left (drop 2 s.view) s p w ih few
                    (starts_with-drop s.view (codes "\r\n") (ground arith)))))
    where
      k : State W → Outcome × W
      k = λ q. rounds disk cfg iequals replace_all left q

      P : Step W → Type 0
      P r = finish r k ≡ (accepted p, w) → IsWritten (suc left) s (accepted p, w)

      gives_up : (x : Error) → finish (give_up disk cfg (refused x) s) k ≡ (accepted p, w) → ⊥
      gives_up x = refused-absurd left x s p w

      ended :
          is_full cfg s ≡ false
          → finish (stop (accepted s.parts) s.world) k ≡ (accepted p, w)
          → collect disk cfg iequals replace_all [] s ≡ (accepted p, w)
      ended few e = rw (collect, few) e

  rounds-IsWritten :
      (left : ℕ) (s : State W) (p : Parts) (w : W)
      → rounds disk cfg iequals replace_all left s ≡ (accepted p, w)
      → IsWritten left s (accepted p, w)
  unfolding rounds
  rounds-IsWritten zero s p w e = ground arith
  rounds-IsWritten (suc left) s p w e =
      round-IsWritten left s p w (λ q h. rounds-IsWritten left q p w h) e

  -- A body that is accepted is written out of fewer than 100000 parts, each with a header block and
  -- a content that are followed first by their own end marks, and its parts are what storing these
  -- one after the other gives.
  pub parse-accepted :
      (body : Bytes) (w : W) {p : Parts} {w1 : W}
      → parse disk cfg iequals replace_all body w ≡ (accepted p, w1)
      → (ps : List (Bytes × Bytes)) × (rest : Bytes) × (body ≡ body_of cfg ps rest)
        × (length ps < max_iterations)
        × All (IsClean cfg) ps
        × (collect disk cfg iequals replace_all ps (start disk cfg [] w) ≡ (accepted p, w1))
  unfolding parse body_of start
  parse-accepted body w {p = p} {w1 = w1} =
      let b = dash_boundary cfg in
      if-split (λ (o : Outcome × W). o ≡ (accepted p, w1) → Goal) (starts_with body b)
        (λ begins e.
          let (ps, rest, view, few, clean, done) =
            rounds-IsWritten max_iterations (start disk cfg body w) p w1 e in
          (
            ps,
            rest,
            starts_with-drop body b begins ∙ ap (λ t. b ++ t) view,
            few,
            clean,
            sym (
                  collect_view disk cfg iequals replace_all ps (drop (length b) body)
                    (start disk cfg [] w))
                ∙ done,
          ))
        (λ _ e. ground arith)
    where
      Goal : Type 0
      Goal =
          (ps : List (Bytes × Bytes)) × (rest : Bytes) × (body ≡ body_of cfg ps rest)
          × (length ps < max_iterations)
          × All (IsClean cfg) ps
          × (collect disk cfg iequals replace_all ps (start disk cfg [] w) ≡ (accepted p, w1))
