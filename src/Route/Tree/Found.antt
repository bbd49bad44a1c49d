-- ===== src/Route/Tree/Found.antt =====
-- clueapi/route/detail: the handlers that `find` gives.
use mathlib.Core.Option
use mathlib.Core.List.{Mem, mem-append_left, mem-append_right, mem-cons_self, mem-cons_of_mem}
use clueapi.Base.{
  ℕ, ◌≡◌, ap, ◌∙◌, inl, inr, Bool, List, [], ◌∷◌, some, arith, length, drop, ◌==◌, Bool-cases,
  Option-cases,
}
use clueapi.Base.Bytes.{Bytes, codes, is_empty, equal, starts_with}
use clueapi.Http.Method.{Method, method_eq, method_eq_iff}
use clueapi.Route.Path.{strip_slash}
use clueapi.Route.Tree.Handlers.{handlers, handlers_below, handlers_dynamic}
use clueapi.Route.Tree.{
  Node, node, Children, no_children, child, Dynamic, no_dynamic, dynamic, Params, get_value,
  node_prefix, node_values, emplace, first_segment, find_node, find_children, find_dynamic,
  drop_slash, find,
}

module _ {V : Type 0} (m : Method) where
  get_value-mem : (vs : List (Method × V)) {w : V} → get_value m vs ≡ some w → Mem (m, w) vs
  unfolding get_value
  get_value-mem [] e = ground arith
  get_value-mem ((k, v) ∷ vs) {w} e = elim (Bool-cases (method_eq k m)) [
    | inl same ↦
        let p : v ≡ w = ground arith in rw (← p, ← (method_eq_iff k m).0 same) mem-cons_self
    | inr other ↦ mem-cons_of_mem (k, v) (get_value-mem vs (rw other at e))
  ]

  values_found :
      (vs : List (Method × V)) (ps : Params) {w : V} {qs : Params}
      → Option.map {B = V × Params} (λ v. (v, ps)) (get_value m vs) ≡ some (w, qs)
      → Mem (m, w) vs
  values_found vs ps {w} e = elim (Option-cases (get_value m vs)) [
    | inl miss ↦ ground arith
    | inr (v, hit) ↦ let p : v ≡ w = ground arith in get_value-mem vs (hit ∙ ap some p)
  ]

  module _ (same_key : Bytes → Bytes → Bool) where
    mutual
      unfolding find_node find_children find_dynamic

      find_node-mem :
          (n : Node V) (path : Bytes) (ps : Params) (w : V) (qs : Params)
          → find_node same_key m n path ps ≡ some (w, qs)
          → Mem (m, w) (handlers n)
      find_node-mem (node vs ch dyn name pre) [] ps w qs e =
          mem-append_left _ (values_found vs ps e)
      find_node-mem (node vs ch dyn name pre) (c ∷ cs) ps w qs e =
          elim (Option-cases (find_children same_key m ch c (c ∷ cs) ps)) [
            | inl miss ↦ mem-append_right vs (
                mem-append_right (handlers_below ch)
                  (find_dynamic-mem dyn name (c ∷ cs) ps w qs (ground arith)))
            | inr (r, hit) ↦ mem-append_right vs (
                mem-append_left (handlers_dynamic dyn)
                  (find_children-mem ch c (c ∷ cs) ps w qs (ground arith)))
          ]

      find_children-mem :
          (ch : Children V) (key : ℕ) (path : Bytes) (ps : Params) (w : V) (qs : Params)
          → find_children same_key m ch key path ps ≡ some (some (w, qs))
          → Mem (m, w) (handlers_below ch)
      find_children-mem no_children key path ps w qs e = ground arith
      find_children-mem (child k n ch) key path ps w qs e = elim (Bool-cases (k == key)) [
        | inl same ↦ elim (Bool-cases (starts_with path (node_prefix n))) [
          | inl fits ↦ mem-append_left (handlers_below ch) (
              find_node-mem n (strip_slash (drop (length (node_prefix n)) path)) ps w qs
                (ground arith))
          | inr not_here ↦ ground arith
        ]
        | inr other ↦
            mem-append_right (handlers n) (find_children-mem ch key path ps w qs (ground arith))
      ]

      find_dynamic-mem :
          (dyn : Dynamic V) (name path : Bytes) (ps : Params) (w : V) (qs : Params)
          → find_dynamic same_key m dyn name path ps ≡ some (w, qs)
          → Mem (m, w) (handlers_dynamic dyn)
      find_dynamic-mem no_dynamic name path ps w qs e = ground arith
      find_dynamic-mem (dynamic d) name path ps w qs e =
          elim (Bool-cases (is_empty (first_segment path))) [
            | inl nothing ↦ ground arith
            | inr value ↦
                let value = first_segment path in
                find_node-mem d (strip_slash (drop (length value) path))
                  (emplace same_key name value ps) w qs (ground arith)
          ]

    -- `find` gives no handler but one that was stored under the method it is asked for.
    pub find-mem :
        (path : Bytes) (root : Node V) {w : V} {qs : Params}
        → find same_key m path root ≡ some (w, qs)
        → Mem (m, w) (handlers root)
    unfolding find node_values
    find-mem path (node vs ch dyn name pre) {w} {qs} e =
        elim (Bool-cases (equal (drop_slash path) (codes "/"))) [
          | inl slash ↦ mem-append_left _ (values_found vs [] (rw slash at e))
          | inr other ↦ find_node-mem (node vs ch dyn name pre) _ [] w qs (rw other at e)
        ]
