-- ===== src/Http/Multipart/Strings/Rendering.antt =====
-- clueapi/http/multipart/detail/string_parser: bodies that are written part by part, and what the
-- parts of such a body leave, read off the list of the parts.
use clueapi.Base.{
  ℕ, zero, suc, ◌+◌, ◌<◌, ◌≡◌, ◌∙◌, refl, ap, true, false, List, [], ◌∷◌, ◌++◌, some, arith, length,
  take, drop, drop-append, take-append, All, Bool, leb, if◌then◌else◌,
}
use clueapi.Base.Bytes.{Bytes, codes, find, starts_with, starts_with-append}
use clueapi.Base.Search.{find-ending, drop-both}
use clueapi.Http.Multipart.{
  Config, Disk, Outcome, accepted, refused, dash_boundary, crlf_dash_boundary, too_many_parts,
  body_start, destroy_all,
}
use clueapi.Http.Multipart.Headers.{Headers, parse_headers}
use clueapi.Http.Multipart.Strings.{
  State, Step, stop, next, finish, give_up, keep_file, save_to_disk, store_file, store_part,
  continue_at, read_content, read_part, after_boundary, round, rounds, start, parse, max_iterations,
}

-- What stands behind a boundary: the parts, each as its header block and its content, the end mark,
-- and the rest of the body.
unfoldable pub render : Config → List (Bytes × Bytes) → Bytes → Bytes
render cfg [] rest = codes "--" ++ rest
render cfg ((head, content) ∷ ps) rest =
    codes "\r\n"
    ++ (head ++ (codes "\r\n\r\n" ++ (content ++ (crlf_dash_boundary cfg ++ render cfg ps rest))))

unfoldable pub body_of : Config → List (Bytes × Bytes) → Bytes → Bytes
body_of cfg ps rest = dash_boundary cfg ++ render cfg ps rest

-- The header block ends where its end mark is, and the content where the boundary is.
pub record IsClean (cfg : Config) (p : Bytes × Bytes) : Type 0 where
  pub head_ends : find (p.0 ++ codes "\r\n\r\n") (codes "\r\n\r\n") ≡ some (length p.0)
  pub content_ends :
      find (p.1 ++ crlf_dash_boundary cfg) (crlf_dash_boundary cfg) ≡ some (length p.1)

-- As many parts as there may be.
unfoldable pub is_full : {W : Type 0} → Config → State W → Bool
is_full cfg s = leb cfg.max_parts_count (length s.parts.fields + length s.parts.files)

module _ {W : Type 0} (disk : Disk W) (cfg : Config) (iequals : Bytes → Bytes → Bool)
    (replace_all : Bytes → Bytes → Bytes → Bytes) where
  -- The parts stored one after the other, without a text to read them from.
  unfoldable pub collect : List (Bytes × Bytes) → State W → Outcome × W
  unfolding finish
  collect [] s =
      if is_full cfg s
      then (refused too_many_parts, destroy_all disk s.parts.files s.world)
      else (accepted s.parts, s.world)
  collect ((head, content) ∷ ps) s =
      if is_full cfg s
      then (refused too_many_parts, destroy_all disk s.parts.files s.world)
      else finish (store_part disk cfg (parse_headers iequals replace_all head) content s)
          (λ r. collect ps r)

  pub read_part-cut :
      (text : Bytes) (s : State W) {i : ℕ}
      → find text (codes "\r\n\r\n") ≡ some i
      → read_part disk cfg iequals replace_all text s
        ≡ read_content disk cfg
            (parse_headers iequals replace_all (take i text))
            (drop (i + 4) text)
            s
  unfolding read_part
  read_part-cut text s e = rw (read_part, e) refl

  pub read_content-cut :
      (h : Headers) (body : Bytes) (s : State W) {i : ℕ}
      → find body (crlf_dash_boundary cfg) ≡ some i
      → read_content disk cfg h body s
        ≡ continue_at disk cfg
            (drop (i + length (crlf_dash_boundary cfg)) body)
            (store_part disk cfg h (take i body) s)
  unfolding read_content
  read_content-cut h body s e = rw (read_content, e) refl

  read_content-render :
      (h : Headers) (content rest : Bytes) (s : State W)
      → find (content ++ crlf_dash_boundary cfg) (crlf_dash_boundary cfg) ≡ some (length content)
      → read_content disk cfg h (content ++ (crlf_dash_boundary cfg ++ rest)) s
        ≡ continue_at disk cfg rest (store_part disk cfg h content s)
  read_content-render h content rest s e =
      let b = crlf_dash_boundary cfg in
      read_content-cut h (content ++ (b ++ rest)) s (find-ending content b rest e)
      ∙ ap
          (λ t.
            continue_at disk cfg t
              (store_part disk cfg h (take (length content) (content ++ (b ++ rest))) s))
          (drop-both content b rest)
      ∙ ap (λ c. continue_at disk cfg rest (store_part disk cfg h c s))
          (take-append content (b ++ rest))

  read_part-render :
      (head content rest : Bytes) (s : State W)
      → IsClean cfg (head, content)
      → read_part disk cfg iequals replace_all
          (head ++ (codes "\r\n\r\n" ++ (content ++ (crlf_dash_boundary cfg ++ rest))))
          s
        ≡ continue_at disk cfg rest
            (store_part disk cfg (parse_headers iequals replace_all head) content s)
  read_part-render head content rest s h =
      let m = codes "\r\n\r\n" in
      let tail = content ++ (crlf_dash_boundary cfg ++ rest) in
      read_part-cut (head ++ (m ++ tail)) s (find-ending head m tail h.head_ends)
      ∙ ap
          (λ t.
            read_content disk cfg (parse_headers iequals replace_all t)
              (drop (length head + 4) (head ++ (m ++ tail))) s)
          (take-append head (m ++ tail))
      ∙ ap (λ t. read_content disk cfg (parse_headers iequals replace_all head) t s)
          (drop-both head m tail)
      ∙ read_content-render (parse_headers iequals replace_all head) content rest s h.content_ends

  store_part_view :
      (h : Headers) (content v : Bytes) (s : State W)
      → store_part disk cfg h content (record s { view = v })
        ≡ continue_at disk cfg v (store_part disk cfg h content s)
  unfolding store_part continue_at store_file save_to_disk give_up keep_file
  store_part_view h content v s = ground arith

  after_boundary-line :
      (text : Bytes) (s : State W)
      → after_boundary disk cfg iequals replace_all (codes "\r\n" ++ text) s
        ≡ read_part disk cfg iequals replace_all text s
  unfolding after_boundary starts_with
  after_boundary-line text s = refl

  after_boundary-end :
      (rest : Bytes) (s : State W)
      → after_boundary disk cfg iequals replace_all (codes "--" ++ rest) s
        ≡ stop (accepted s.parts) s.world
  unfolding after_boundary starts_with
  after_boundary-end rest s = refl

  -- A round on a view that is known.
  round-at :
      (s : State W) {text : Bytes} {r : Step W}
      → s.view ≡ text
      → after_boundary disk cfg iequals replace_all text s ≡ r
      → round disk cfg iequals replace_all s
        ≡ (if is_full cfg s then give_up disk cfg (refused too_many_parts) s else r)
  unfolding round is_full
  round-at s e h =
      ap
        (λ t.
          if is_full cfg s
          then give_up disk cfg (refused too_many_parts) s
          else after_boundary disk cfg iequals replace_all t s)
        e
      ∙ ap (λ r. if is_full cfg s then give_up disk cfg (refused too_many_parts) s else r) h

  pub finish-continue :
      (v : Bytes) (r : Step W) (k j : State W → Outcome × W)
      → ((q : State W) → k (record q { view = v }) ≡ j q)
      → finish (continue_at disk cfg v r) k ≡ finish r j
  unfolding finish continue_at
  finish-continue v (stop o w) k j h = refl
  finish-continue v (next q) k j h = h q

  finish-full :
      (full : Bool) (s : State W) (r : Step W) (k : State W → Outcome × W)
      → finish (if full then give_up disk cfg (refused too_many_parts) s else r) k ≡ (
          if full
          then (refused too_many_parts, destroy_all disk s.parts.files s.world)
          else finish r k)
  unfolding finish give_up
  finish-full true s r k = refl
  finish-full false s r k = refl

  -- The view is no part of what is collected.
  pub collect_view :
      (ps : List (Bytes × Bytes)) (v : Bytes) (s : State W)
      → collect ps (record s { view = v }) ≡ collect ps s
  unfolding collect is_full
  collect_view [] v s = refl
  collect_view ((head, content) ∷ ps) v s =
      let h = parse_headers iequals replace_all head in
      ap
        (λ x.
          if is_full cfg s
          then (refused too_many_parts, destroy_all disk s.parts.files s.world)
          else x)
        (ap (λ r. finish r (λ q. collect ps q)) (store_part_view h content v s)
          ∙ finish-continue v (store_part disk cfg h content s) (λ q. collect ps q)
              (λ q. collect ps q) (λ r. collect_view ps v r))

  -- What the loop makes of a body is what storing its parts one after the other makes of them.
  rounds-render :
      (left : ℕ) (ps : List (Bytes × Bytes)) (rest : Bytes) (s : State W)
      → length ps < left
      → All (IsClean cfg) ps
      → s.view ≡ render cfg ps rest
      → rounds disk cfg iequals replace_all left s ≡ collect ps s
  unfolding rounds collect render finish
  rounds-render zero ps rest s le h e = absurd (omega arith)
  rounds-render (suc left) [] rest s le h e =
      ap (λ r. finish r (λ q. rounds disk cfg iequals replace_all left q))
        (round-at s e (after_boundary-end rest s))
      ∙ finish-full (is_full cfg s) s _ _
  rounds-render (suc left) ((head, content) ∷ ps) rest s le (clean, h) e =
      let v = render cfg ps rest in
      let st = store_part disk cfg (parse_headers iequals replace_all head) content s in
      ap (λ r. finish r (λ q. rounds disk cfg iequals replace_all left q))
        (round-at s e (after_boundary-line _ s ∙ read_part-render head content v s clean))
      ∙ finish-full (is_full cfg s) s _ _
      ∙ ap
          (λ x.
            if is_full cfg s
            then (refused too_many_parts, destroy_all disk s.parts.files s.world)
            else x)
          (finish-continue v st (λ q. rounds disk cfg iequals replace_all left q)
            (λ q. collect ps q)
            (λ q.
              rounds-render left ps rest (record q { view = v }) (omega (arith, le)) h refl
              ∙ collect_view ps v q))

  -- A body that is written out of fewer than 100000 parts is parsed into what storing these parts
  -- one after the other gives, errors included, where each header block and each content is
  -- followed first by its own end mark.
  pub parse-body_of :
      (ps : List (Bytes × Bytes)) (rest : Bytes) (w : W)
      → length ps < max_iterations
      → All (IsClean cfg) ps
      → parse disk cfg iequals replace_all (body_of cfg ps rest) w
        ≡ collect ps (start disk cfg [] w)
  unfolding parse body_of start
  parse-body_of ps rest w le h =
      let b = dash_boundary cfg in
      ap
        (λ t.
          if t
          then rounds disk cfg iequals replace_all max_iterations
              (start disk cfg (b ++ render cfg ps rest) w)
          else (refused body_start, w))
        (starts_with-append b (render cfg ps rest))
      ∙ rounds-render max_iterations ps rest (start disk cfg (b ++ render cfg ps rest) w) le h
          (drop-append b (render cfg ps rest))
      ∙ collect_view ps (drop (length b) (b ++ render cfg ps rest)) (start disk cfg [] w)
