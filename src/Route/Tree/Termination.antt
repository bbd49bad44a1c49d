-- ===== src/Route/Tree/Termination.antt =====
-- clueapi/route/detail: the rounds of the loop of `insert`, each of which takes a byte off the path.
use clueapi.Base.{
  ℕ, zero, suc, ◌<◌, ◌≡◌, ◌≢◌, inl, inr, refl, false, [], ◌∷◌, some, arith, length, drop,
  length-drop, take, ◌==◌, Bool-cases,
}
use clueapi.Base.Bytes.{Bytes, codes, equal}
use clueapi.Http.Method.{Method}
use clueapi.Route.Path.{
  longest_common_prefix, norm_path, strip_slash, split_path_segments, front, extract_param_name,
}
use clueapi.Route.Path.Prefix.{
  longest_common_prefix_pos, length-strip_slash, length-extract_param_name,
}
use clueapi.Route.Tree.Shape.{
  IsRadix, get_child-IsRadix, split_child-IsRadix, static_cut_pos, insert_step_cases,
}
use clueapi.Route.Tree.{
  Node, node, no_children, no_dynamic, dynamic, Outcome, spinning, empty_node, add_value, get_child,
  split_child, node_prefix, node_children, static_cut, enter_dynamic, insert_dynamic, new_child,
  old_child, insert_step, insert_at, insert,
}

module _ {V : Type 0} where
  -- The rest of the loop ends on every path shorter than `bound`.
  abbrev EndsBelow : ℕ → (Bytes → Node V → Node V × Outcome) → Type 0
  EndsBelow bound go =
      (p : Bytes) (n : Node V) → IsRadix n → length p < bound → (go p n).1 ≢ spinning

  add_value-ends : (m : Method) (v : V) (n : Node V) → (add_value m v n).1 ≢ spinning
  unfolding add_value
  add_value-ends m v (node vs ch dyn name pre) = ground arith

  module _ (bound : ℕ) (go : Bytes → Node V → Node V × Outcome) (ends : EndsBelow bound go) where
    enter_dynamic-ends :
        (param rest : Bytes) (n : Node V)
        → IsRadix n
        → length rest < bound
        → (enter_dynamic go param rest n).1 ≢ spinning
    unfolding enter_dynamic
    enter_dynamic-ends param rest (node vs ch no_dynamic name pre) r h =
        ends rest empty_node (refl, tt, tt) h
    enter_dynamic-ends param rest (node vs ch (dynamic d) name pre) r h =
        ground (arith, ends rest d r.2 h)

    insert_dynamic-ends :
        (c : ℕ) (cs : Bytes) (n : Node V)
        → IsRadix n
        → length cs < bound
        → (insert_dynamic go (c ∷ cs) n).1 ≢ spinning
    unfolding insert_dynamic
    insert_dynamic-ends c cs n r h =
        let segment = front (split_path_segments (c ∷ cs)) in
        let left = drop (length segment) (c ∷ cs) in
        ground (
          arith,
          enter_dynamic-ends (extract_param_name segment) (strip_slash left) n r,
          length-extract_param_name segment,
          length-drop (length segment) (c ∷ cs),
          length-strip_slash left,
        )

    new_child-ends :
        (c : ℕ) (cs : Bytes) (n : Node V)
        → (c == b'{') ≡ false
        → length cs < bound
        → (new_child go (c ∷ cs) n).1 ≢ spinning
    unfolding new_child
    new_child-ends c cs (node vs ch dyn name pre) plain h =
        let cut = static_cut (c ∷ cs) in
        ends (drop cut (c ∷ cs)) (node [] no_children no_dynamic [] (take cut (c ∷ cs)))
          (refl, tt, tt) (omega (arith, static_cut_pos c cs plain, length-drop cut (c ∷ cs)))

    old_child-ends :
        (c : ℕ) (cs : Bytes) (n k : Node V)
        → get_child c (node_children n) ≡ some k
        → IsRadix n
        → length cs < bound
        → (old_child go (c ∷ cs) c n k).1 ≢ spinning
    unfolding old_child node_children
    old_child-ends c cs (node vs ch dyn name pre) k hit r h =
        let (r', b) = get_child-IsRadix c ch r.1 hit in
        let lcp = longest_common_prefix (c ∷ cs) (node_prefix k) in
        let pos = longest_common_prefix_pos c cs (node_prefix k) b in
        ends (drop lcp (c ∷ cs)) (split_child lcp k) (split_child-IsRadix c lcp k pos r' b).0
          (omega (arith, pos, length-drop lcp (c ∷ cs)))

  insert_at-ends : (fuel : ℕ) (m : Method) (v : V) → EndsBelow fuel (insert_at fuel m v)
  unfolding insert_at insert_step
  insert_at-ends zero m v p n r h = absurd (omega arith)
  insert_at-ends (suc fuel) m v [] n r h = add_value-ends m v n
  insert_at-ends (suc fuel) m v (c ∷ cs) n r h =
      let go = insert_at fuel m v in
      let ends : EndsBelow fuel go = insert_at-ends fuel m v in
      insert_step_cases (λ o. o.1 ≢ spinning) go m v c cs n
        (λ _. insert_dynamic-ends fuel go ends c cs n r (omega arith))
        (λ plain _. new_child-ends fuel go ends c cs n plain (omega arith))
        (λ _ k hit. old_child-ends fuel go ends c cs n k hit r (omega arith))

  -- On a well-formed tree `insert` returns or throws, for every path: one round more than the path
  -- has bytes is enough.
  pub insert-ends :
      (m : Method) (path : Bytes) (v : V) (root : Node V)
      → IsRadix root
      → (insert m path v root).1 ≢ spinning
  unfolding insert
  insert-ends m path v root r =
      let p = norm_path path in
      let inner =
        insert_at-ends (suc (length p)) m v (strip_slash p) root r
          (omega (arith, length-strip_slash p)) in
      elim (Bool-cases (equal p (codes "/"))) [
        | inl slash ↦ rw slash (add_value-ends m v root)
        | inr other ↦ rw other inner
      ]
