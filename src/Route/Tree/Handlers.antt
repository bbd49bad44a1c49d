-- ===== src/Route/Tree/Handlers.antt =====
-- clueapi/route/detail: the handlers that a tree holds, before and after `insert`.
use mathlib.Core.List.{Perm, perm_append_comm}
use mathlib.Core.List.Perm
use clueapi.Base.{
  ℕ, zero, suc, ◌<◌, ◌≡◌, ◌∙◌, inl, inr, List, [], ◌∷◌, ◌++◌, append-nil, append_assoc, some, arith,
  length, drop, take, length-drop, ◌==◌, ltb, Bool-cases, Option-cases,
}
use clueapi.Base.Bytes.{Bytes, codes, is_empty, equal}
use clueapi.Http.Method.{Method}
use clueapi.Route.Path.{
  longest_common_prefix, norm_path, strip_slash, split_path_segments, front, extract_param_name,
  is_broken_segment,
}
use clueapi.Route.Tree.Shape.{insert_step_cases}
use clueapi.Route.Tree.{
  Node, node, Children, no_children, child, Dynamic, no_dynamic, dynamic, Outcome, done, thrown,
  spinning, empty_node, get_value, add_value, get_child, set_child, below_split, split_child,
  node_prefix, node_children, static_cut, enter_dynamic, insert_dynamic, new_child, old_child,
  insert_step, insert_at, insert,
}

module _ {V : Type 0} where
  abbrev mutual
    pub handlers : Node V → List (Method × V)
    handlers (node vs ch dyn name pre) = vs ++ (handlers_below ch ++ handlers_dynamic dyn)

    pub handlers_below : Children V → List (Method × V)
    handlers_below no_children = []
    handlers_below (child c n ch) = handlers n ++ handlers_below ch

    pub handlers_dynamic : Dynamic V → List (Method × V)
    handlers_dynamic no_dynamic = []
    handlers_dynamic (dynamic d) = handlers d

  -- What a call that ends so has added.
  abbrev pub added : Method → V → Outcome → List (Method × V)
  added m v done = (m, v) ∷ []
  added m v (thrown e) = []
  added m v spinning = []

  hoist : (xs new ys : List (Method × V)) → Perm (xs ++ (new ++ ys)) (new ++ (xs ++ ys))
  hoist xs new ys =
      rw (← append_assoc xs new ys, ← append_assoc new xs ys)
        (Perm.append_right ys (perm_append_comm xs new))

  -- A change deep in a row of handlers is a change of the row.
  carry :
      (xs new zs : List (Method × V)) {ys : List (Method × V)}
      → Perm ys (new ++ zs)
      → Perm (xs ++ ys) (new ++ (xs ++ zs))
  carry xs new zs h = Perm.trans (Perm.append_left xs h) (hoist xs new zs)

  carry_left :
      (new ys zs : List (Method × V)) {xs : List (Method × V)}
      → Perm xs (new ++ zs)
      → Perm (xs ++ ys) (new ++ (zs ++ ys))
  carry_left new ys zs h = rw (← append_assoc new zs ys) (Perm.append_right ys h)

  set_child-perm :
      (c : ℕ) (m k : Node V) (new : List (Method × V)) (ch : Children V)
      → get_child c ch ≡ some k
      → Perm (handlers m) (new ++ handlers k)
      → Perm (handlers_below (set_child c m ch)) (new ++ handlers_below ch)
  unfolding get_child set_child
  set_child-perm c m k new no_children e h = ground arith
  set_child-perm c m k new (child j n ch) e h = elim (Bool-cases (j == c)) [
    | inl same ↦
        let p : n ≡ k = ground arith in
        rw (same, p) (carry_left new (handlers_below ch) (handlers k) h)
    | inr other ↦
        rw other (
          carry (handlers n) new (handlers_below ch)
            (set_child-perm c m k new ch (rw other at e) h))
  ]

  handlers-below_split :
      (p : Bytes) (n : Node V) → 0 < length p → handlers_below (below_split p n) ≡ handlers n
  unfolding below_split
  handlers-below_split [] n h = absurd (omega arith)
  handlers-below_split (c ∷ p) (node vs ch dyn name pre) h = append-nil _

  handlers-split_child : (k : ℕ) (n : Node V) → handlers (split_child k n) ≡ handlers n
  unfolding split_child
  handlers-split_child k (node vs ch dyn name pre) = elim (Bool-cases (ltb k (length pre))) [
    | inl cut ↦ rw cut (
        append-nil _
        ∙ handlers-below_split (drop k pre) (node vs ch dyn name pre)
            (ground (arith, length-drop k pre)))
    | inr whole ↦ rw whole
  ]

  -- The rest of the loop keeps all handlers, and adds the new one if it is done.
  abbrev Conserves : Method → V → (Bytes → Node V → Node V × Outcome) → Type 0
  Conserves m v go =
      (p : Bytes) (n : Node V) → Perm (handlers (go p n).0) (added m v (go p n).1 ++ handlers n)

  add_value-perm :
      (m : Method) (v : V) (n : Node V)
      → Perm (handlers (add_value m v n).0) (added m v (add_value m v n).1 ++ handlers n)
  unfolding add_value
  add_value-perm m v (node vs ch dyn name pre) = elim (Option-cases (get_value m vs)) [
    | inl e ↦ rw (e, add_value) Perm.rfl
    | inr (w, e) ↦ rw (e, add_value) Perm.rfl
  ]

  module _ (m : Method) (v : V) (go : Bytes → Node V → Node V × Outcome)
      (keeps : Conserves m v go) where
    abbrev Conserved : Node V → Node V × Outcome → Type 0
    Conserved n o = Perm (handlers o.0) (added m v o.1 ++ handlers n)

    enter_dynamic-perm :
        (param rest : Bytes) (n : Node V) → Conserved n (enter_dynamic go param rest n)
    unfolding enter_dynamic
    enter_dynamic-perm param rest (node vs ch no_dynamic name pre) =
        let (d', out) = go rest empty_node in
        let rows = carry (handlers_below ch) (added m v out) [] (keeps rest empty_node) in
        carry vs (added m v out) (handlers_below ch ++ []) rows
    enter_dynamic-perm param rest (node vs ch (dynamic d) name pre) =
        elim (Bool-cases (equal name param)) [
          | inl same ↦ rw same (
              let (d', out) = go rest d in
              let rows = carry (handlers_below ch) (added m v out) (handlers d) (keeps rest d) in
              carry vs (added m v out) (handlers_below ch ++ handlers d) rows)
          | inr other ↦ rw other Perm.rfl
        ]

    insert_dynamic-perm : (p : Bytes) (n : Node V) → Conserved n (insert_dynamic go p n)
    unfolding insert_dynamic
    insert_dynamic-perm p n =
        let segment = front (split_path_segments p) in
        let param = extract_param_name segment in
        elim (Bool-cases (is_broken_segment segment)) [
          | inl broken ↦ rw broken Perm.rfl
          | inr sound ↦ elim (Bool-cases (is_empty param)) [
            | inl unnamed ↦ rw (sound, unnamed) Perm.rfl
            | inr named ↦ rw (sound, named) (enter_dynamic-perm param _ n)
          ]
        ]

    new_child-perm : (p : Bytes) (n : Node V) → Conserved n (new_child go p n)
    unfolding new_child
    new_child-perm p (node vs ch dyn name pre) =
        let fresh = node [] no_children no_dynamic [] (take (static_cut p) p) in
        let rest = drop (static_cut p) p in
        let new = added m v (go rest fresh).1 in
        let rows = carry_left new (handlers_below ch) [] (keeps rest fresh) in
        carry vs new (handlers_below ch ++ handlers_dynamic dyn)
          (carry_left new (handlers_dynamic dyn) (handlers_below ch) rows)

    old_child-perm :
        (p : Bytes) (c : ℕ) (n k : Node V)
        → get_child c (node_children n) ≡ some k
        → Conserved n (old_child go p c n k)
    unfolding old_child node_children
    old_child-perm p c (node vs ch dyn name pre) k hit =
        let lcp = longest_common_prefix p (node_prefix k) in
        let inner = rw (handlers-split_child lcp k) at (keeps (drop lcp p) (split_child lcp k)) in
        let new = added m v (go (drop lcp p) (split_child lcp k)).1 in
        let rows = set_child-perm c (go (drop lcp p) (split_child lcp k)).0 k new ch hit inner in
        carry vs new (handlers_below ch ++ handlers_dynamic dyn)
          (carry_left new (handlers_dynamic dyn) (handlers_below ch) rows)

  insert_at-perm : (fuel : ℕ) (m : Method) (v : V) → Conserves m v (insert_at fuel m v)
  unfolding insert_at insert_step
  insert_at-perm zero m v p n = Perm.rfl
  insert_at-perm (suc fuel) m v [] n = add_value-perm m v n
  insert_at-perm (suc fuel) m v (c ∷ cs) n =
      let go = insert_at fuel m v in
      let keeps : Conserves m v go = insert_at-perm fuel m v in
      insert_step_cases (λ o. Perm (handlers o.0) (added m v o.1 ++ handlers n)) go m v c cs n
        (λ _. insert_dynamic-perm m v go keeps (c ∷ cs) n)
        (λ _ _. new_child-perm m v go keeps (c ∷ cs) n)
        (λ _ k hit. old_child-perm m v go keeps (c ∷ cs) c n k hit)

  -- `insert` loses no handler, whatever it splits: the tree then holds what it held, and the new
  -- handler exactly if the call did not throw.
  pub insert-perm :
      (m : Method) (path : Bytes) (v : V) (root : Node V)
      → Perm
          (handlers (insert m path v root).0)
          (added m v (insert m path v root).1 ++ handlers root)
  unfolding insert
  insert-perm m path v root =
      let p = norm_path path in
      let inner = insert_at-perm (suc (length p)) m v (strip_slash p) root in
      elim (Bool-cases (equal p (codes "/"))) [
        | inl slash ↦ rw slash (add_value-perm m v root)
        | inr other ↦ rw other inner
      ]
