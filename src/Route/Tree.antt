-- ===== src/Route/Tree.antt =====
-- clueapi/route/detail: the radix tree. A node is reached by one pointer only, from its parent, so
-- the tree is a value; `insert` returns the tree it leaves behind, also where it throws.
pub mod Shape
pub mod Termination
pub mod Handlers
pub mod Found
pub mod RoundTrip
pub mod Shadow
pub mod Twice
pub mod Tests
use clueapi.Base.{
  ℕ, zero, suc, ◌+◌, ◌<◌, ◌≡◌, refl, Bool, true, false, not, ◌&&◌, ◌||◌, List, [], ◌∷◌, ◌++◌,
  Option, none, some, arith, length, take, drop, ◌==◌, ltb, if◌then◌else◌,
}
use mathlib.Core.Option
use clueapi.Base.Bytes.{Bytes, codes, equal, is_empty, back_is, drop_last, starts_with, find_char}
use clueapi.Http.Method.{Method, method_eq}
use clueapi.Route.Path.{
  longest_common_prefix, norm_path, strip_slash, split_path_segments, front, extract_param_name,
  is_broken_segment,
}

-- `m_values`, `m_children`, `m_dynamic_child`, `m_param_name`, `m_prefix`.
mutual
  pub data Node (V : Type 0) : Type 0 where
    node : List (Method × V) → Children V → Dynamic V → Bytes → Bytes → Node V

  pub data Children (V : Type 0) : Type 0 where
    no_children : Children V
    child : ℕ → Node V → Children V → Children V

  pub data Dynamic (V : Type 0) : Type 0 where
    no_dynamic : Dynamic V
    dynamic : Node V → Dynamic V

pub data RouteError : Type 0 where
  already_exists malformed_segment unnamed_segment ambiguous_route : RouteError

-- How a call of `insert` ends. `spinning` means that the fuel ran out.
pub data Outcome : Type 0 where
  done : Outcome
  thrown : RouteError → Outcome
  spinning : Outcome

-- The parameters: a map whose keys are compared without case, where `emplace` keeps what is there.
abbrev pub Params : Type 0
Params = List (Bytes × Bytes)

-- `m_prefix.front()`; the prefix is not empty there.
pub front_byte : Bytes → ℕ
front_byte [] = 0
front_byte (c ∷ cs) = c

-- `path_view.find('{')`, or the whole length for `npos`.
pub static_cut : Bytes → ℕ
static_cut path = elim (find_char b'{' path) [ none ↦ length path | some i ↦ i ]

module _ {V : Type 0} where
  abbrev pub empty_node : Node V
  empty_node = node [] no_children no_dynamic [] []

  pub get_value : Method → List (Method × V) → Option V
  get_value m [] = none
  get_value m ((k, v) ∷ vs) = if method_eq k m then some v else get_value m vs

  -- `if (count(method)) throw …; emplace(method, handler);`
  pub add_value : Method → V → Node V → Node V × Outcome
  add_value m v (node vs ch dyn name pre) = elim (get_value m vs) [
    | none ↦ (node ((m, v) ∷ vs) ch dyn name pre, done)
    | some _ ↦ (node vs ch dyn name pre, thrown already_exists)
  ]

  pub get_child : ℕ → Children V → Option (Node V)
  get_child c no_children = none
  get_child c (child k n ch) = if k == c then some n else get_child c ch

  -- Write through the pointer that `m_children.find(c)` gives.
  pub set_child : ℕ → Node V → Children V → Children V
  set_child c n no_children = no_children
  set_child c n (child k m ch) = if k == c then child k n ch else child k m (set_child c n ch)

  -- The one child of a node that was split: all but the prefix of the old node.
  below_split : Bytes → Node V → Children V
  below_split [] n = no_children
  below_split (c ∷ cs) (node vs ch dyn name pre) =
      child c (node vs ch dyn name (c ∷ cs)) no_children

  -- `lcp < child->m_prefix.length()`: the node keeps the common part of its prefix, and all else
  -- moves to a new node below it.
  pub split_child : ℕ → Node V → Node V
  unfolding below_split
  split_child lcp (node vs ch dyn name pre) =
      if ltb lcp (length pre)
      then node [] (below_split (drop lcp pre) (node vs ch dyn name pre)) no_dynamic []
          (take lcp pre)
      else node vs ch dyn name pre

  pub node_values : Node V → List (Method × V)
  node_values (node vs ch dyn name pre) = vs

  pub node_prefix : Node V → Bytes
  node_prefix (node vs ch dyn name pre) = pre

  -- The dynamic child is entered, or made, under the name of the parameter; `go` is the rest of the
  -- loop.
  pub enter_dynamic :
      (Bytes → Node V → Node V × Outcome) → Bytes → Bytes → Node V → Node V × Outcome
  enter_dynamic go param rest (node vs ch (dynamic d) name pre) =
      if not (equal name param)
      then (node vs ch (dynamic d) name pre, thrown ambiguous_route)
      else let (d', out) = go rest d in (node vs ch (dynamic d') name pre, out)
  enter_dynamic go param rest (node vs ch no_dynamic name pre) =
      let (d', out) = go rest empty_node in (node vs ch (dynamic d') param pre, out)

  -- The branch for a path that begins with `{`.
  pub insert_dynamic : (Bytes → Node V → Node V × Outcome) → Bytes → Node V → Node V × Outcome
  insert_dynamic go path n =
      let segment = front (split_path_segments path) in
      let param = extract_param_name segment in
      if is_broken_segment segment
      then (n, thrown malformed_segment)
      else if is_empty param
      then (n, thrown unnamed_segment)
      else enter_dynamic go param (strip_slash (drop (length segment) path)) n

  -- No child begins with this byte: a new node takes the path up to the next `{`.
  pub new_child : (Bytes → Node V → Node V × Outcome) → Bytes → Node V → Node V × Outcome
  new_child go path (node vs ch dyn name pre) =
      let cut = static_cut path in
      let (n', out) = go (drop cut path) (node [] no_children no_dynamic [] (take cut path)) in
      (node vs (child (front_byte path) n' ch) dyn name pre, out)

  -- A child begins with this byte: it is split where the path leaves its prefix, and entered.
  pub old_child :
      (Bytes → Node V → Node V × Outcome) → Bytes → ℕ → Node V → Node V → Node V × Outcome
  old_child go path c (node vs ch dyn name pre) m =
      let lcp = longest_common_prefix path (node_prefix m) in
      let (m', out) = go (drop lcp path) (split_child lcp m) in
      (node vs (set_child c m' ch) dyn name pre, out)

  pub node_children : Node V → Children V
  node_children (node vs ch dyn name pre) = ch

  -- One round of the loop: `go` is the rest of it.
  pub insert_step :
      (Bytes → Node V → Node V × Outcome) → Method → V → Bytes → Node V → Node V × Outcome
  insert_step go m v [] n = add_value m v n
  insert_step go m v (c ∷ cs) n =
      if c == b'{' then insert_dynamic go (c ∷ cs) n else elim (get_child c (node_children n)) [
        | none ↦ new_child go (c ∷ cs) n
        | some k ↦ old_child go (c ∷ cs) c n k
      ]

  -- `while (true)` over `path_view` and `current_node`.
  pub insert_at : ℕ → Method → V → Bytes → Node V → Node V × Outcome
  insert_at zero m v path n = (n, spinning)
  insert_at (suc fuel) m v path n = insert_step (insert_at fuel m v) m v path n

  -- One round more than the path has bytes.
  pub insert : Method → Bytes → V → Node V → Node V × Outcome
  unfolding insert_at
  insert m path v root =
      let p = norm_path path in
      if equal p (codes "/")
      then add_value m v root
      else insert_at (suc (length p)) m v (strip_slash p) root

-- `params.emplace(key, value)`: what is there stays. `same_key` says which keys `ci_less_t` does
-- not tell apart.
pub emplace : (Bytes → Bytes → Bool) → Bytes → Bytes → Params → Params
emplace same_key k v [] = (k, v) ∷ []
emplace same_key k v ((j, w) ∷ ps) =
    if same_key j k then (j, w) ∷ ps else (j, w) ∷ emplace same_key k v ps

-- `path.substr(0, path.find('/'))`
pub first_segment : Bytes → Bytes
first_segment [] = []
first_segment (c ∷ cs) = if c == b'/' then [] else c ∷ first_segment cs

module _ (same_key : Bytes → Bytes → Bool) {V : Type 0} (m : Method) where
  -- `while (true)` over `path` and `current_node`, by the nodes that are passed. `find_children` is
  -- `none` where no child takes the path, so that the dynamic child is tried.
  mutual
    unfolding emplace first_segment strip_slash

    pub find_node : Node V → Bytes → Params → Option (V × Params)
    find_node (node vs ch dyn name pre) [] ps = Option.map (λ v. (v, ps)) (get_value m vs)
    find_node (node vs ch dyn name pre) (c ∷ cs) ps = elim (find_children ch c (c ∷ cs) ps) [
      | some r ↦ r
      | none ↦ find_dynamic dyn name (c ∷ cs) ps
    ]

    pub find_children : Children V → ℕ → Bytes → Params → Option (Option (V × Params))
    find_children no_children key path ps = none
    find_children (child k n ch) key path ps = elim (k == key) [
      | true ↦ elim (starts_with path (node_prefix n)) [
        | true ↦ some (find_node n (strip_slash (drop (length (node_prefix n)) path)) ps)
        | false ↦ none
      ]
      | false ↦ find_children ch key path ps
    ]

    pub find_dynamic : Dynamic V → Bytes → Bytes → Params → Option (V × Params)
    find_dynamic no_dynamic name path ps = none
    find_dynamic (dynamic d) name path ps =
        let value = first_segment path in
        elim (is_empty value) [
          | true ↦ none
          | false ↦
              find_node d (strip_slash (drop (length value) path)) (emplace same_key name value ps)
        ]

-- `path.length() > 1 && path.back() == '/'`
drop_slash : Bytes → Bytes
drop_slash path = if ltb 1 (length path) && back_is b'/' path then drop_last path else path

pub find : (Bytes → Bytes → Bool) → {V : Type 0} → Method → Bytes → Node V → Option (V × Params)
unfolding find_node
find same_key m path root =
    let p = drop_slash path in
    if equal p (codes "/")
    then Option.map (λ v. (v, [])) (get_value m (node_values root))
    else find_node same_key m root (strip_slash p) []
