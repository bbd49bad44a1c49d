-- ===== src/Route/Tree/RoundTrip.antt =====
-- clueapi/route/detail: one route in an empty tree, and the requests that fit it.
use clueapi.Base.{
  ℕ, zero, suc, ◌≤◌, ◌<◌, ◌≡◌, refl, ◌∙◌, Bool, false, [], ◌∷◌, ◌++◌, append-nil, some, arith,
  length, length-append, All-append, take-append, drop-append, ◌==◌,
}
use clueapi.Base.Bytes.{
  Bytes, is_empty, equal, back_is, starts_with-append, find_char-Lacks, find_char-append, Lacks,
}
use clueapi.Http.Method.{Method, method_eq_refl}
use clueapi.Route.Path.{norm_path, strip_slash}
use clueapi.Route.Path.Prefix.{
  after, strip_slash-after, front-split_path_segments, braced, is_broken_segment-braced,
  extract_param_name-braced,
}
use clueapi.Route.Tree.{
  Node, node, no_children, child, no_dynamic, dynamic, Outcome, done, Params, empty_node, get_value,
  add_value, get_child, node_prefix, node_children, node_values, front_byte, static_cut,
  enter_dynamic, insert_dynamic, new_child, insert_step, insert_at, insert, emplace, first_segment,
  find_node, drop_slash, find,
}

-- A route together with a request that fits it: literal text, and parameters with the value that
-- the request has for each.
pub data Template : Type 0 where
  stop : Template
  text : Bytes → Template → Template
  param : Bytes → Bytes → Template → Template

-- The path of the route, behind its first slash.
abbrev pub pattern_of : Template → Bytes
pattern_of stop = []
pattern_of (text s t) = s ++ pattern_of t
pattern_of (param name value t) = braced name ++ after (pattern_of t)

-- The path of the request, behind its first slash.
abbrev pub request_of : Template → Bytes
request_of stop = []
request_of (text s t) = s ++ request_of t
request_of (param name value t) = value ++ after (request_of t)

-- The parameters, put into the map in turn.
abbrev pub bindings : (Bytes → Bytes → Bool) → Template → Params → Params
bindings same_key stop ps = ps
bindings same_key (text s t) ps = bindings same_key t ps
bindings same_key (param name value t) ps = bindings same_key t (emplace same_key name value ps)

abbrev pub IsText : Bytes → Type 0
IsText [] = ⊥
IsText (c ∷ s) = ((c == b'/') ≡ false) × Lacks b'{' (c ∷ s)

abbrev pub IsSegment : Bytes → Type 0
IsSegment [] = ⊥
IsSegment (c ∷ s) = Lacks b'/' (c ∷ s)

abbrev pub IsNoText : Template → Type 0
IsNoText stop = Unit {0}
IsNoText (text s t) = ⊥
IsNoText (param name value t) = Unit {0}

-- Text is not empty, has no `{` and begins with no slash, and no two texts follow each other; a
-- name and a value are not empty and have no slash.
abbrev pub IsProper : Template → Type 0
IsProper stop = Unit {0}
IsProper (text s t) = IsText s × IsNoText t × IsProper t
IsProper (param name value t) = IsSegment name × IsSegment value × IsProper t

length_text : (s : Bytes) → IsText s → 0 < length s
length_text [] h = elim h [ ]
length_text (c ∷ s) h = omega arith

length-after : (p : Bytes) → length p ≤ length (after p)
length-after [] = omega arith
length-after (c ∷ p) = omega arith

strip_slash-request : (t : Template) → IsProper t → strip_slash (request_of t) ≡ request_of t
unfolding strip_slash
strip_slash-request stop h = refl
strip_slash-request (text [] t) h = elim h.0 [ ]
strip_slash-request (text (c ∷ s) t) h = ground arith
strip_slash-request (param name [] t) h = elim h.1 [ ]
strip_slash-request (param name (c ∷ s) t) h = ground arith

static_cut-Lacks : (s : Bytes) → Lacks b'{' s → static_cut s ≡ length s
unfolding static_cut
static_cut-Lacks s h = rw (find_char-Lacks b'{' s h, static_cut)

static_cut-text :
    (s : Bytes) (t : Template)
    → Lacks b'{' s
    → IsNoText t
    → static_cut (s ++ pattern_of t) ≡ length s
unfolding static_cut
static_cut-text s stop h n = rw (append-nil s) (static_cut-Lacks s h)
static_cut-text s (text _ _) h n = elim n [ ]
static_cut-text s (param name value t) h n =
    rw (find_char-append b'{' s ((name ++ b'}' ∷ []) ++ after (pattern_of t)) h, static_cut)

first_segment-after : (s p : Bytes) → Lacks b'/' s → first_segment (s ++ after p) ≡ s
unfolding first_segment
first_segment-after [] [] h = refl
first_segment-after [] (c ∷ p) h = refl
first_segment-after (c ∷ s) p h = ground (arith, first_segment-after s p h.1)

norm_path-slash : (p : Bytes) → back_is b'/' p ≡ false → norm_path (b'/' ∷ p) ≡ b'/' ∷ p
unfolding norm_path is_empty back_is
norm_path-slash [] h = refl
norm_path-slash (c ∷ p) h = ground arith

drop_slash-slash : (p : Bytes) → back_is b'/' p ≡ false → drop_slash (b'/' ∷ p) ≡ b'/' ∷ p
unfolding drop_slash back_is
drop_slash-slash [] h = refl
drop_slash-slash (c ∷ p) h = ground arith

-- A path that begins with a slash and does not end with one loses that slash only.
pub insert-slash :
    {V : Type 0} (m : Method) (p : Bytes) (v : V) (root : Node V)
    → back_is b'/' p ≡ false
    → insert m (b'/' ∷ p) v root ≡ insert_at (suc (suc (length p))) m v p root
unfolding insert insert_at insert_step equal strip_slash
insert-slash m [] v root h = rw (norm_path-slash [] h)
insert-slash m (c ∷ p) v root h = rw (norm_path-slash (c ∷ p) h)

pub find-slash :
    (same_key : Bytes → Bytes → Bool) {V : Type 0} (m : Method) (p : Bytes) (root : Node V)
    → back_is b'/' p ≡ false
    → find same_key m (b'/' ∷ p) root ≡ find_node same_key m root p []
unfolding find find_node equal strip_slash node_values
find-slash same_key m [] (node vs ch dyn name pre) h = rw (drop_slash-slash [] h)
find-slash same_key m (c ∷ p) root h = rw (drop_slash-slash (c ∷ p) h)

module _ {V : Type 0} (m : Method) (v : V) where
  -- The chain of nodes that the one route makes, below a node with the given prefix.
  abbrev pub chain : Template → Bytes → Node V
  chain stop pre = node ((m, v) ∷ []) no_children no_dynamic [] pre
  chain (text s t) pre = node [] (child (front_byte s) (chain t s) no_children) no_dynamic [] pre
  chain (param name value t) pre = node [] no_children (dynamic (chain t [])) name pre

  node_prefix-chain : (t : Template) (pre : Bytes) → node_prefix (chain t pre) ≡ pre
  unfolding node_prefix
  node_prefix-chain stop pre = refl
  node_prefix-chain (text s t) pre = refl
  node_prefix-chain (param name value t) pre = refl

  insert_text :
      (go : Bytes → Node V → Node V × Outcome) (s : Bytes) (t : Template) (pre : Bytes)
      → IsProper (text s t)
      → go (pattern_of t) (node [] no_children no_dynamic [] s) ≡ (chain t s, done)
      → insert_step go m v (s ++ pattern_of t) (node [] no_children no_dynamic [] pre)
        ≡ (chain (text s t) pre, done)
  unfolding insert_step new_child get_child node_children front_byte
  insert_text go [] t pre h e = elim h.0 [ ]
  insert_text go (c ∷ s) t pre h e =
      let plain : (c == b'{') ≡ false = h.0.1.0 in
      rw (
        plain,
        static_cut-text (c ∷ s) t h.0.1 h.1,
        drop-append (c ∷ s) (pattern_of t),
        take-append (c ∷ s) (pattern_of t),
        e,
      )

  insert_param :
      (go : Bytes → Node V → Node V × Outcome) (name value : Bytes) (t : Template) (pre : Bytes)
      → IsProper (param name value t)
      → go (pattern_of t) empty_node ≡ (chain t [], done)
      → insert_step go m v (pattern_of (param name value t)) (node [] no_children no_dynamic [] pre)
        ≡ (chain (param name value t) pre, done)
  unfolding insert_step insert_dynamic enter_dynamic is_empty
  insert_param go [] value t pre h e = elim h.0 [ ]
  insert_param go (c ∷ name) value t pre h e =
      let rest = after (pattern_of t) in
      let lacks = All-append (λ x. (x == b'/') ≡ false) (c ∷ name) (b'}' ∷ []) h.0 (refl, tt) in
      rw (
        front-split_path_segments b'{' ((c ∷ name) ++ b'}' ∷ []) (pattern_of t) (refl, lacks),
        is_broken_segment-braced (c ∷ name),
        extract_param_name-braced (c ∷ name) refl,
        drop-append (braced (c ∷ name)) rest,
        strip_slash-after (pattern_of t),
        e,
      )

  pub insert_at-chain :
      (t : Template) (fuel : ℕ) (pre : Bytes)
      → IsProper t
      → length (pattern_of t) < fuel
      → insert_at fuel m v (pattern_of t) (node [] no_children no_dynamic [] pre)
        ≡ (chain t pre, done)
  unfolding insert_at
  insert_at-chain t zero pre h short = absurd (omega arith)
  insert_at-chain stop (suc fuel) pre h short = unfold insert_step add_value get_value in refl
  insert_at-chain (text s t) (suc fuel) pre h short = insert_text (insert_at fuel m v) s t pre h (
      insert_at-chain t fuel s h.2
        (omega (arith, length-append s (pattern_of t), length_text s h.0)))
  insert_at-chain (param name value t) (suc fuel) pre h short =
      insert_param (insert_at fuel m v) name value t pre h (
        insert_at-chain t fuel [] h.2 (
          omega (
            arith,
            length-append (braced name) (after (pattern_of t)),
            length-after (pattern_of t),
          )))

  module _ (same_key : Bytes → Bytes → Bool) where
    find_text :
        (s : Bytes) (t : Template) (pre : Bytes) (ps : Params)
        → IsProper (text s t)
        → find_node same_key m (chain (text s t) pre) (s ++ request_of t) ps
          ≡ find_node same_key m (chain t s) (request_of t) ps
    unfolding find_node front_byte
    find_text [] t pre ps h = elim h.0 [ ]
    find_text (c ∷ s) t pre ps h = ground (
      arith,
      node_prefix-chain t (c ∷ s),
      starts_with-append (c ∷ s) (request_of t),
      drop-append (c ∷ s) (request_of t),
      strip_slash-request t h.2,
    )

    find_param :
        (name value : Bytes) (t : Template) (pre : Bytes) (ps : Params)
        → IsProper (param name value t)
        → find_node same_key m (chain (param name value t) pre) (value ++ after (request_of t)) ps
          ≡ find_node same_key m (chain t []) (request_of t) (emplace same_key name value ps)
    unfolding find_node is_empty
    find_param name [] t pre ps h = elim h.1 [ ]
    find_param name (c ∷ value) t pre ps h =
        let rest = after (request_of t) in
        ground (
          arith,
          first_segment-after (c ∷ value) (request_of t) h.1,
          drop-append (c ∷ value) rest,
          strip_slash-after (request_of t),
        )

    find_node-chain :
        (t : Template) (pre : Bytes) (ps : Params)
        → IsProper t
        → find_node same_key m (chain t pre) (request_of t) ps ≡ some (v, bindings same_key t ps)
    find_node-chain stop pre ps h = unfold find_node get_value in rw (method_eq_refl m)
    find_node-chain (text s t) pre ps h = find_text s t pre ps h ∙ find_node-chain t s ps h.2
    find_node-chain (param name value t) pre ps h =
        find_param name value t pre ps h ∙ find_node-chain t [] (emplace same_key name value ps) h.2

    -- A route that is inserted into an empty tree is found by every request that fits it, and the
    -- parameters are the values that the request has for the route's dynamic segments, put into
    -- the map in turn. Neither path ends with a slash.
    pub find-insert_template :
        (t : Template)
        → IsProper t
        → back_is b'/' (pattern_of t) ≡ false
        → back_is b'/' (request_of t) ≡ false
        → (insert m (b'/' ∷ pattern_of t) v empty_node).1 ≡ done
          × find same_key m (b'/' ∷ request_of t) (insert m (b'/' ∷ pattern_of t) v empty_node).0
            ≡ some (v, bindings same_key t [])
    find-insert_template t h a b =
        let made =
          insert-slash m (pattern_of t) v empty_node a
          ∙ insert_at-chain t (suc (suc (length (pattern_of t)))) [] h (omega arith) in
        (
          rw made refl,
          rw made (find-slash same_key m (request_of t) (chain t []) b ∙ find_node-chain t [] [] h),
        )
