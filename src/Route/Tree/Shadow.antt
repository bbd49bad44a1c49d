-- ===== src/Route/Tree/Shadow.antt =====
-- clueapi/route/detail: a route below another route's path. `insert` leaves the slash at the front of
-- the lower node's prefix, while `find` drops the slash before it looks for a child.
use clueapi.Base.{
  ℕ, suc, ◌≡◌, refl, ap, ◌∙◌, Bool, false, [], ◌∷◌, ◌++◌, none, arith, length, take, drop,
  drop-append, length-append, append-nil, ◌==◌,
}
use clueapi.Base.Bytes.{Bytes, back_is, starts_with-append}
use clueapi.Http.Method.{Method}
use clueapi.Route.Path.{longest_common_prefix, strip_slash}
use clueapi.Route.Tree.RoundTrip.{insert-slash, find-slash, IsText, insert_at-chain, text, stop}
use clueapi.Route.Tree.{
  Node, node, no_children, child, no_dynamic, Outcome, done, static_cut, new_child, old_child,
  get_child, set_child, split_child, node_children, front_byte, node_prefix, empty_node, insert,
  insert_at, insert_step, find, find_node,
}

-- The text is not empty and begins with no slash.
abbrev pub NoSlashFront : Bytes → Type 0
NoSlashFront [] = ⊥
NoSlashFront (c ∷ s) = (c == b'/') ≡ false

back_is-below :
    (a : Bytes) (c : ℕ) (r : Bytes)
    → back_is b'/' (c ∷ r) ≡ false
    → back_is b'/' (a ++ b'/' ∷ c ∷ r) ≡ false
unfolding back_is
back_is-below [] c r h = h
back_is-below (x ∷ []) c r h = h
back_is-below (x ∷ y ∷ a) c r h = back_is-below (y ∷ a) c r h

longest_common_prefix-append : (a r : Bytes) → longest_common_prefix (a ++ r) a ≡ length a
unfolding longest_common_prefix
longest_common_prefix-append [] [] = refl
longest_common_prefix-append [] (c ∷ r) = refl
longest_common_prefix-append (x ∷ a) r = ground (arith, longest_common_prefix-append a r)

module _ {V : Type 0} where
  -- The tree that holds one route `a`, with one child of `a`'s node under the slash.
  abbrev two_levels : Method → V → Bytes → Node V → Node V
  two_levels m v a k =
      node []
        (child (front_byte a) (node ((m, v) ∷ []) (child b'/' k no_children) no_dynamic [] a)
          no_children)
        no_dynamic [] []

  abbrev one_level : Method → V → Bytes → Node V
  one_level m v a =
      node [] (child (front_byte a) (node ((m, v) ∷ []) no_children no_dynamic [] a) no_children)
        no_dynamic [] []

  insert_upper :
      (m : Method) (v : V) (a : Bytes)
      → IsText a
      → back_is b'/' a ≡ false
      → (insert m (b'/' ∷ a) v empty_node).0 ≡ one_level m v a
  insert_upper m v a h b =
      let made : insert_at (suc (suc (length a))) m v (a ++ []) empty_node
          ≡ (one_level m v a, done) =
        insert_at-chain m v (text a stop) (suc (suc (length a))) [] (h, tt, tt)
          (omega (arith, length-append a [])) in
      rw (insert-slash m a v empty_node b) (rw (rw append-nil at made) refl)

  -- The first round enters the node of `a`, whole.
  enter_upper :
      (go : Bytes → Node V → Node V × Outcome) (n : Method) (w : V) (m : Method) (v : V)
      (a s : Bytes)
      → IsText a
      → (insert_step go n w (a ++ s) (one_level m v a)).0
        ≡ node []
            (child
              (front_byte a)
              (go s (node ((m, v) ∷ []) no_children no_dynamic [] a)).0
              no_children)
            no_dynamic
            []
            []
  unfolding insert_step old_child get_child set_child split_child node_children node_prefix
      front_byte
  enter_upper go n w m v [] s h = elim h [ ]
  enter_upper go n w m v (c ∷ a) s h =
      ground (arith, longest_common_prefix-append (c ∷ a) s, drop-append (c ∷ a) s)

  insert_lower :
      (n : Method) (w : V) (m : Method) (v : V) (a : Bytes) (c : ℕ) (r : Bytes)
      → IsText a
      → back_is b'/' (c ∷ r) ≡ false
      → (k : Node V) × ((insert n (b'/' ∷ (a ++ b'/' ∷ c ∷ r)) w (one_level m v a)).0
          ≡ two_levels m v a k)
  unfolding insert_at insert_step new_child get_child node_children front_byte
  insert_lower n w m v [] c r h b = elim h [ ]
  insert_lower n w m v (y ∷ a) c r h b =
      let path = (y ∷ a) ++ b'/' ∷ c ∷ r in
      let s = b'/' ∷ c ∷ r in
      let go = insert_at (suc (length (a ++ s))) n w in
      let fresh = node [] no_children no_dynamic [] (take (static_cut s) s) in
      (
        (go (drop (static_cut s) s) fresh).0,
        ap (λ (o : Node V × Outcome). o.0)
              (insert-slash n path w (one_level m v (y ∷ a)) (back_is-below (y ∷ a) c r b))
            ∙ enter_upper (insert_at (suc (suc (length (a ++ s)))) n w) n w m v (y ∷ a) s h,
      )

  find_lower :
      (same_key : Bytes → Bytes → Bool) (q m : Method) (v : V) (a x : Bytes) (k : Node V)
      → IsText a
      → NoSlashFront x
      → back_is b'/' x ≡ false
      → find same_key q (b'/' ∷ (a ++ b'/' ∷ x)) (two_levels m v a k) ≡ none
  unfolding find_node front_byte strip_slash node_prefix
  find_lower same_key q m v (c ∷ a) (y ∷ x) k h s b =
      find-slash same_key q ((c ∷ a) ++ b'/' ∷ y ∷ x) (two_levels m v (c ∷ a) k)
        (back_is-below (c ∷ a) y x b)
      ∙ ground
          (arith, starts_with-append (c ∷ a) (b'/' ∷ y ∷ x), drop-append (c ∷ a) (b'/' ∷ y ∷ x))
  find_lower same_key q m v [] x k h s b = elim h [ ]
  find_lower same_key q m v (c ∷ a) [] k h s b = elim s [ ]

  -- After a route `/a` and then a route `/a/r` are inserted into an empty tree, whatever `r` is,
  -- no request for a path `/a/x` is answered: `/a/r` itself is not found.
  pub find-insert_below :
      (same_key : Bytes → Bytes → Bool) (q m n : Method) (v w : V) (a r x : Bytes)
      → IsText a
      → back_is b'/' a ≡ false
      → NoSlashFront r
      → back_is b'/' r ≡ false
      → NoSlashFront x
      → back_is b'/' x ≡ false
      → find same_key q
          (b'/' ∷ (a ++ b'/' ∷ x))
          (insert n (b'/' ∷ (a ++ b'/' ∷ r)) w (insert m (b'/' ∷ a) v empty_node).0).0
        ≡ none
  find-insert_below same_key q m n v w a [] x h b s c t d = elim s [ ]
  find-insert_below same_key q m n v w a (y ∷ r) x h b s c t d =
      let (k, made) = insert_lower n w m v a y r h c in
      rw (insert_upper m v a h b, made) (find_lower same_key q m v a x k h t d)
