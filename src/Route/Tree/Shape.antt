-- ===== src/Route/Tree/Shape.antt =====
-- clueapi/route/detail: the shape of the radix tree under `insert`.
use clueapi.Base.{
  ℕ, zero, suc, ◌<◌, ◌≡◌, inl, inr, refl, true, false, [], ◌∷◌, none, some, arith, length, take,
  drop, ◌==◌, ltb, Bool-cases, Option-cases, ==_iff,
}
use clueapi.Base.Bytes.{Bytes, codes, is_empty, equal, find_char}
use clueapi.Http.Method.{Method}
use clueapi.Route.Path.{
  longest_common_prefix, norm_path, strip_slash, split_path_segments, front, extract_param_name,
  is_broken_segment,
}
use clueapi.Route.Path.Prefix.{Begins, longest_common_prefix_pos, Begins-take}
use clueapi.Route.Tree.{
  Node, node, Children, no_children, child, Dynamic, no_dynamic, dynamic, Outcome, empty_node,
  get_value, add_value, get_child, set_child, below_split, split_child, node_prefix, node_children,
  front_byte, static_cut, enter_dynamic, insert_dynamic, new_child, old_child, insert_step,
  insert_at, insert,
}

pub static_cut_pos : (c : ℕ) (cs : Bytes) → (c == b'{') ≡ false → 0 < static_cut (c ∷ cs)
unfolding static_cut find_char
static_cut_pos c cs h = ground arith

module _ {V : Type 0} where
  -- A node has a parameter's name exactly if it has a dynamic child.
  abbrev pub Named : Dynamic V → Bytes → Type 0
  Named no_dynamic name = name ≡ []
  Named (dynamic d) name = is_empty name ≡ false

  -- Each child stands under the first byte of its prefix, and under no byte stand two.
  abbrev mutual
    pub IsRadix : Node V → Type 0
    IsRadix (node vs ch dyn name pre) = Named dyn name × AreRadix ch × DynamicIsRadix dyn

    pub AreRadix : Children V → Type 0
    AreRadix no_children = Unit {0}
    AreRadix (child c n ch) =
        Begins c (node_prefix n) × (get_child c ch ≡ none) × IsRadix n × AreRadix ch

    pub DynamicIsRadix : Dynamic V → Type 0
    DynamicIsRadix no_dynamic = Unit {0}
    DynamicIsRadix (dynamic d) = IsRadix d

  pub get_child-IsRadix :
      (c : ℕ) (ch : Children V) {n : Node V}
      → AreRadix ch
      → get_child c ch ≡ some n
      → IsRadix n × Begins c (node_prefix n)
  unfolding get_child
  get_child-IsRadix c no_children h e = ground arith
  get_child-IsRadix c (child k m ch) {n} h e = elim (Bool-cases (k == c)) [
    | inl same ↦
        let p : m ≡ n = ground arith in
        let q : k ≡ c = (==_iff k c).0 same in rw (← p, ← q) (h.2, h.0)
    | inr other ↦ get_child-IsRadix c ch h.3 (rw other at e)
  ]

  get_child-set_child-none :
      (c k : ℕ) (n : Node V) (ch : Children V)
      → get_child k ch ≡ none
      → get_child k (set_child c n ch) ≡ none
  unfolding get_child set_child
  get_child-set_child-none c k n no_children h = refl
  get_child-set_child-none c k n (child j m ch) h =
      ground (arith, get_child-set_child-none c k n ch)

  set_child-AreRadix :
      (c : ℕ) (n : Node V) (ch : Children V)
      → IsRadix n
      → Begins c (node_prefix n)
      → AreRadix ch
      → AreRadix (set_child c n ch)
  unfolding set_child
  set_child-AreRadix c n no_children r b h = tt
  set_child-AreRadix c n (child k m ch) r b h = elim (Bool-cases (k == c)) [
    | inl same ↦ let q : k ≡ c = (==_iff k c).0 same in rw (same, q) (b, rw q at h.1, r, h.3)
    | inr other ↦
        rw other
          (h.0, get_child-set_child-none c k n ch h.1, h.2, set_child-AreRadix c n ch r b h.3)
  ]

  below_split-AreRadix : (p : Bytes) (n : Node V) → IsRadix n → AreRadix (below_split p n)
  unfolding below_split get_child node_prefix
  below_split-AreRadix [] n r = tt
  below_split-AreRadix (c ∷ p) (node vs ch dyn name pre) r = (refl, refl, r, tt)

  pub split_child-IsRadix :
      (c k : ℕ) (n : Node V)
      → 0 < k
      → IsRadix n
      → Begins c (node_prefix n)
      → IsRadix (split_child k n) × Begins c (node_prefix (split_child k n))
  unfolding split_child node_prefix
  split_child-IsRadix c k (node vs ch dyn name pre) pos r b =
      elim (Bool-cases (ltb k (length pre))) [
        | inl cut ↦ rw cut (
          (refl, below_split-AreRadix (drop k pre) (node vs ch dyn name pre) r, tt),
          Begins-take c k pre pos b,
        )
        | inr whole ↦ rw whole (r, b)
      ]

  -- What the loop keeps, whatever it still does.
  abbrev pub Keeps : (Bytes → Node V → Node V × Outcome) → Type 0
  Keeps go =
      (p : Bytes) (n : Node V)
      → IsRadix n
      → IsRadix (go p n).0 × (node_prefix (go p n).0 ≡ node_prefix n)

  module _ (go : Bytes → Node V → Node V × Outcome) (keeps : Keeps go) where
    enter_dynamic-Keeps :
        (param rest : Bytes) (n : Node V)
        → is_empty param ≡ false
        → IsRadix n
        → IsRadix (enter_dynamic go param rest n).0
          × (node_prefix (enter_dynamic go param rest n).0 ≡ node_prefix n)
    unfolding enter_dynamic node_prefix
    enter_dynamic-Keeps param rest (node vs ch no_dynamic name pre) named r =
        ((named, r.1, (keeps rest empty_node (refl, tt, tt)).0), refl)
    enter_dynamic-Keeps param rest (node vs ch (dynamic d) name pre) named r =
        elim (Bool-cases (equal name param)) [
          | inl same ↦ rw same ((r.0, r.1, (keeps rest d r.2).0), refl)
          | inr other ↦ rw other (r, refl)
        ]

    insert_dynamic-Keeps : Keeps (insert_dynamic go)
    unfolding insert_dynamic
    insert_dynamic-Keeps p n r =
        let segment = front (split_path_segments p) in
        let param = extract_param_name segment in
        elim (Bool-cases (is_broken_segment segment)) [
          | inl broken ↦ rw broken (r, refl)
          | inr sound ↦ elim (Bool-cases (is_empty param)) [
            | inl unnamed ↦ rw (sound, unnamed) (r, refl)
            | inr named ↦ rw (sound, named) (enter_dynamic-Keeps param _ n named r)
          ]
        ]

    new_child-Keeps :
        (c : ℕ) (cs : Bytes) (n : Node V)
        → get_child c (node_children n) ≡ none
        → (c == b'{') ≡ false
        → IsRadix n
        → IsRadix (new_child go (c ∷ cs) n).0
          × (node_prefix (new_child go (c ∷ cs) n).0 ≡ node_prefix n)
    unfolding new_child front_byte node_children node_prefix
    new_child-Keeps c cs (node vs ch dyn name pre) miss plain r =
        let cut = static_cut (c ∷ cs) in
        let fresh = node [] no_children no_dynamic [] (take cut (c ∷ cs)) in
        let (i, e) = keeps (drop cut (c ∷ cs)) fresh (refl, tt, tt) in
        (
          (
            r.0,
            (rw e (Begins-take c cut (c ∷ cs) (static_cut_pos c cs plain) refl), miss, i, r.1),
            r.2,
          ),
          refl,
        )

    old_child-Keeps :
        (c : ℕ) (cs : Bytes) (n k : Node V)
        → get_child c (node_children n) ≡ some k
        → IsRadix n
        → IsRadix (old_child go (c ∷ cs) c n k).0
          × (node_prefix (old_child go (c ∷ cs) c n k).0 ≡ node_prefix n)
    unfolding old_child node_children node_prefix
    old_child-Keeps c cs (node vs ch dyn name pre) k hit r =
        let (r', b) = get_child-IsRadix c ch r.1 hit in
        let lcp = longest_common_prefix (c ∷ cs) (node_prefix k) in
        let (s, b') =
          split_child-IsRadix c lcp k (longest_common_prefix_pos c cs (node_prefix k) b) r' b in
        let (i, e) = keeps (drop lcp (c ∷ cs)) (split_child lcp k) s in
        ((r.0, set_child-AreRadix c _ ch i (rw e b') r.1, r.2), refl)

  -- The three branches of a round, for a path that is not empty.
  pub insert_step_cases {ℓ} :
      (P : Node V × Outcome → Type ℓ)
      → (go : Bytes → Node V → Node V × Outcome) (m : Method) (v : V) (c : ℕ) (cs : Bytes)
        (n : Node V)
      → ((c == b'{') ≡ true → P (insert_dynamic go (c ∷ cs) n))
      → ((c == b'{') ≡ false → get_child c (node_children n) ≡ none → P (new_child go (c ∷ cs) n))
      → ((c == b'{') ≡ false
          → (k : Node V) → get_child c (node_children n) ≡ some k
          → P (old_child go (c ∷ cs) c n k))
      → P (insert_step go m v (c ∷ cs) n)
  unfolding insert_step
  insert_step_cases P go m v c cs n brace miss hit = elim (Bool-cases (c == b'{')) [
    | inl b ↦ rw b (brace b)
    | inr b ↦ elim (Option-cases (get_child c (node_children n))) [
      | inl e ↦ rw (b, e) (miss b e)
      | inr (k, e) ↦ rw (b, e) (hit b k e)
    ]
  ]

  add_value-Keeps :
      (m : Method) (v : V) (n : Node V)
      → IsRadix n
      → IsRadix (add_value m v n).0 × (node_prefix (add_value m v n).0 ≡ node_prefix n)
  unfolding add_value node_prefix
  add_value-Keeps m v (node vs ch dyn name pre) r = elim (Option-cases (get_value m vs)) [
    | inl fresh ↦ rw (fresh, add_value) (r, refl)
    | inr (w, taken) ↦ rw (taken, add_value) (r, refl)
  ]

  pub insert_at-Keeps : (fuel : ℕ) (m : Method) (v : V) → Keeps (insert_at fuel m v)
  unfolding insert_at insert_step
  insert_at-Keeps zero m v p n r = (r, refl)
  insert_at-Keeps (suc fuel) m v [] n r = add_value-Keeps m v n r
  insert_at-Keeps (suc fuel) m v (c ∷ cs) n r =
      let go = insert_at fuel m v in
      let keeps : Keeps go = insert_at-Keeps fuel m v in
      insert_step_cases (λ o. IsRadix o.0 × (node_prefix o.0 ≡ node_prefix n)) go m v c cs n
        (λ _. insert_dynamic-Keeps go keeps (c ∷ cs) n r)
        (λ plain miss. new_child-Keeps go keeps c cs n miss plain r)
        (λ _ k hit. old_child-Keeps go keeps c cs n k hit r)

  -- Whatever is inserted, and also where the call throws, the tree stays well formed: a child
  -- stands under the first byte of its prefix, no two under one byte, and a node has a parameter's
  -- name exactly if it has a dynamic child.
  pub insert-IsRadix :
      (m : Method) (path : Bytes) (v : V) (root : Node V)
      → IsRadix root
      → IsRadix (insert m path v root).0
  unfolding insert
  insert-IsRadix m path v root r = elim (Bool-cases (equal (norm_path path) (codes "/"))) [
    | inl slash ↦ rw slash (add_value-Keeps m v root r).0
    | inr other ↦
        rw other
          (insert_at-Keeps (suc (length (norm_path path))) m v (strip_slash (norm_path path)) root
            r).0
  ]
