-- ===== src/Route/Tree/Twice.antt =====
-- clueapi/route/detail: registering a route a second time.
use clueapi.Base.{
  take_all, ℕ, zero, suc, ◌≤◌, ◌≡◌, ◌∙◌, refl, inl, inr, true, false, [], ◌∷◌, some, arith, length,
  take, drop, ◌==◌, ==_refl, Bool-cases,
}
use clueapi.Base.Bytes.{Bytes, codes, equal, equal_refl}
use clueapi.Http.Method.{Method, method_eq_refl}
use clueapi.Route.Path.{
  longest_common_prefix, norm_path, strip_slash, split_path_segments, front, extract_param_name,
}
use clueapi.Route.Path.Prefix.{
  longest_common_prefix-take, length-take_lcp, longest_common_prefix-take_lcp,
  longest_common_prefix_pos,
}
use clueapi.Route.Tree.Shape.{
  IsRadix, Keeps, insert_at-Keeps, insert_step_cases, get_child-IsRadix, split_child-IsRadix,
}
use clueapi.Route.Tree.{
  Node, node, Children, no_children, child, no_dynamic, dynamic, Outcome, done, thrown,
  already_exists, empty_node, get_value, add_value, get_child, set_child, split_child, node_prefix,
  node_children, static_cut, front_byte, enter_dynamic, insert_dynamic, new_child, old_child,
  insert_step, insert_at, insert,
}

drop-length-take : (k : ℕ) (s : Bytes) → drop (length (take k s)) s ≡ drop k s
drop-length-take zero s = refl
drop-length-take (suc k) [] = refl
drop-length-take (suc k) (x ∷ s) = drop-length-take k s

module _ {V : Type 0} where
  split_child_whole : (k : ℕ) (n : Node V) → length (node_prefix n) ≤ k → split_child k n ≡ n
  unfolding split_child node_prefix
  split_child_whole k (node vs ch dyn name pre) h = ground arith

  node_prefix-split_child :
      (k : ℕ) (n : Node V) → node_prefix (split_child k n) ≡ take k (node_prefix n)
  unfolding split_child node_prefix
  node_prefix-split_child k (node vs ch dyn name pre) = ground (arith, take_all k pre)

  get_child-set_child :
      (c : ℕ) (n k : Node V) (ch : Children V)
      → get_child c ch ≡ some k
      → get_child c (set_child c n ch) ≡ some n
  unfolding get_child set_child
  get_child-set_child c n k no_children h = ground arith
  get_child-set_child c n k (child j m ch) h = ground (arith, get_child-set_child c n k ch)

  set_child_idem :
      (c : ℕ) (n : Node V) (ch : Children V) → set_child c n (set_child c n ch) ≡ set_child c n ch
  unfolding set_child
  set_child_idem c n no_children = refl
  set_child_idem c n (child j m ch) = ground (arith, set_child_idem c n ch)

  -- The node with a child written through its pointer.
  with_child : ℕ → Node V → Node V → Node V
  with_child c k (node vs ch dyn name pre) = node vs (set_child c k ch) dyn name pre

  -- A second round, on the tree that a first has left, throws and leaves it.
  abbrev Refuses : Node V × Outcome → (Node V → Node V × Outcome) → Type 0
  Refuses o again = o.1 ≡ done → again o.0 ≡ (o.0, thrown already_exists)

  abbrev Repeats :
      (Bytes → Node V → Node V × Outcome) → (Bytes → Node V → Node V × Outcome) → Type 0
  Repeats go again = (p : Bytes) (n : Node V) → IsRadix n → Refuses (go p n) (again p)

  add_value-Refuses :
      (m : Method) (v w : V) (n : Node V) → Refuses (add_value m v n) (add_value m w)
  unfolding add_value get_value
  add_value-Refuses m v w (node vs ch dyn name pre) h = ground (arith, method_eq_refl m)

  module _ (go again : Bytes → Node V → Node V × Outcome) (keeps : Keeps go)
      (rep : Repeats go again) where
    enter_dynamic-Refuses :
        (param rest : Bytes) (n : Node V)
        → IsRadix n
        → Refuses (enter_dynamic go param rest n) (enter_dynamic again param rest)
    unfolding enter_dynamic
    enter_dynamic-Refuses param rest (node vs ch no_dynamic name pre) r h =
        rw (equal_refl param, rep rest empty_node (refl, tt, tt) h)
    enter_dynamic-Refuses param rest (node vs ch (dynamic d) name pre) r h =
        ground (arith, rep rest d r.2)

    insert_dynamic-Refuses :
        (p : Bytes) (n : Node V)
        → IsRadix n
        → Refuses (insert_dynamic go p n) (insert_dynamic again p)
    unfolding insert_dynamic
    insert_dynamic-Refuses p n r h =
        let segment = front (split_path_segments p) in
        let param = extract_param_name segment in
        ground (arith, enter_dynamic-Refuses param (strip_slash (drop (length segment) p)) n r)

    -- A child that was entered at the length of its prefix is entered again, and not split.
    enter_again :
        (m : Method) (w : V) (c : ℕ) (cs : Bytes) (i : ℕ) (n k : Node V)
        → (c == b'{') ≡ false
        → get_child c (node_children n) ≡ some k
        → longest_common_prefix (c ∷ cs) (node_prefix k) ≡ length (node_prefix k)
        → drop (length (node_prefix k)) (c ∷ cs) ≡ drop i (c ∷ cs)
        → again (drop i (c ∷ cs)) k ≡ (k, thrown already_exists)
        → insert_step again m w (c ∷ cs) n ≡ (with_child c k n, thrown already_exists)
    unfolding insert_step old_child node_children with_child
    enter_again m w c cs i (node vs ch dyn name pre) k plain hit e d h =
        rw (plain, hit, e, d, split_child_whole (length (node_prefix k)) k (omega arith), h)

    new_child-Refuses :
        (m : Method) (w : V) (c : ℕ) (cs : Bytes) (n : Node V)
        → (c == b'{') ≡ false
        → Refuses (new_child go (c ∷ cs) n) (insert_step again m w (c ∷ cs))
    unfolding new_child node_children get_child set_child front_byte with_child node_prefix
    new_child-Refuses m w c cs (node vs ch dyn name pre) plain h =
        let path = c ∷ cs in
        let cut = static_cut path in
        let fresh = node [] no_children no_dynamic [] (take cut path) in
        let k = (go (drop cut path) fresh).0 in
        let e : node_prefix k ≡ take cut path = (keeps (drop cut path) fresh (refl, tt, tt)).1 in
        enter_again m w c cs cut (node vs (child c k ch) dyn name pre) k plain (rw ==_refl refl)
          (rw e (longest_common_prefix-take cut path)) (rw e (drop-length-take cut path))
          (rep (drop cut path) fresh (refl, tt, tt) h)
        ∙ rw (==_refl c)

    old_child-Refuses :
        (m : Method) (w : V) (c : ℕ) (cs : Bytes) (n k : Node V)
        → (c == b'{') ≡ false
        → get_child c (node_children n) ≡ some k
        → IsRadix n
        → Refuses (old_child go (c ∷ cs) c n k) (insert_step again m w (c ∷ cs))
    unfolding old_child node_children with_child
    old_child-Refuses m w c cs (node vs ch dyn name pre) k plain hit r h =
        let path = c ∷ cs in
        let lcp = longest_common_prefix path (node_prefix k) in
        let (r', b) = get_child-IsRadix c ch r.1 hit in
        let pos = longest_common_prefix_pos c cs (node_prefix k) b in
        let split_ok = (split_child-IsRadix c lcp k pos r' b).0 in
        let k' = (go (drop lcp path) (split_child lcp k)).0 in
        let e : node_prefix k' ≡ take lcp (node_prefix k) =
          (keeps (drop lcp path) (split_child lcp k) split_ok).1 ∙ node_prefix-split_child lcp k in
        let len = length-take_lcp path (node_prefix k) in
        enter_again m w c cs lcp (node vs (set_child c k' ch) dyn name pre) k' plain
          (get_child-set_child c k' k ch hit)
          (rw (e, len) (longest_common_prefix-take_lcp path (node_prefix k))) (rw (e, len) refl)
          (rep (drop lcp path) (split_child lcp k) split_ok h)
        ∙ rw (set_child_idem c k' ch)

  insert_step_brace :
      (again : Bytes → Node V → Node V × Outcome) (m : Method) (w : V) (c : ℕ) (cs : Bytes)
      (n : Node V)
      → (c == b'{') ≡ true
      → insert_step again m w (c ∷ cs) n ≡ insert_dynamic again (c ∷ cs) n
  unfolding insert_step
  insert_step_brace again m w c cs n brace = rw brace

  insert_at-Repeats :
      (fuel : ℕ) (m : Method) (v w : V) → Repeats (insert_at fuel m v) (insert_at fuel m w)
  unfolding insert_at
  insert_at-Repeats zero m v w p n r = λ h. cc
  insert_at-Repeats (suc fuel) m v w [] n r = unfold insert_step in add_value-Refuses m v w n
  insert_at-Repeats (suc fuel) m v w (c ∷ cs) n r =
      let go = insert_at fuel m v in
      let again = insert_at fuel m w in
      let keeps : Keeps go = insert_at-Keeps fuel m v in
      let rep : Repeats go again = insert_at-Repeats fuel m v w in
      insert_step_cases (λ o. Refuses o (insert_step again m w (c ∷ cs))) go m v c cs n
        (λ brace h.
          insert_step_brace again m w c cs _ brace
          ∙ insert_dynamic-Refuses go again keeps rep (c ∷ cs) n r h)
        (λ plain _. new_child-Refuses go again keeps rep m w c cs n plain)
        (λ plain k hit. old_child-Refuses go again keeps rep m w c cs n k plain hit r)

  -- Once a route has been inserted into a well-formed tree, inserting it again throws "already
  -- exists" and leaves the tree as it is, whatever the handler.
  pub insert-twice :
      (m : Method) (path : Bytes) (v w : V) (root : Node V)
      → IsRadix root
      → (insert m path v root).1 ≡ done
      → insert m path w (insert m path v root).0 ≡ ((insert m path v root).0, thrown already_exists)
  unfolding insert
  insert-twice m path v w root r h =
      let p = norm_path path in
      let inner = insert_at-Repeats (suc (length p)) m v w (strip_slash p) root r in
      elim (Bool-cases (equal p (codes "/"))) [
        | inl slash ↦ rw slash (add_value-Refuses m v w root (rw slash at h))
        | inr other ↦ rw other (inner (rw other at h))
      ]
