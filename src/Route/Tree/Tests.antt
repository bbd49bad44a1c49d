-- ===== src/Route/Tree/Tests.antt =====
-- The radix tree at concrete paths: tests, and the instances of the theorems.
use mathlib.Core.List.{Mem, Perm}
use clueapi.Base.{ℕ, ◌≡◌, ◌≢◌, refl, List, [], ◌∷◌, ◌++◌, Option, none, some, arith}
use clueapi.Base.Bytes.{
  Bytes, codes, equal, is_empty, back_is, front_is, drop_last, starts_with, find_char,
}
use clueapi.Http.Method.{Method, method_eq}
use clueapi.Route.Path.{
  longest_common_prefix, norm_path, strip_slash, split_path_segments, front, extract_param_name,
  is_broken_segment,
}
use clueapi.Route.Tree.Found.{find-mem}
use clueapi.Route.Tree.Handlers.{handlers, added, insert-perm}
use clueapi.Route.Tree.RoundTrip.{Template, stop, text, param, bindings, find-insert_template}
use clueapi.Route.Tree.Shape.{IsRadix, insert-IsRadix}
use clueapi.Route.Tree.Termination.{insert-ends}
use clueapi.Route.Tree.Twice.{insert-twice}
use clueapi.Route.Tree.{
  Node, Outcome, done, thrown, spinning, already_exists, malformed_segment, ambiguous_route,
  empty_node, insert, insert_at, insert_step, insert_dynamic, enter_dynamic, new_child, old_child,
  front_byte, static_cut, split_child, get_child, set_child, node_children, node_prefix,
  node_values, add_value, get_value, drop_slash, first_segment, emplace, find,
}

-- The call of `insert`, ready to run.
run : Bytes → ℕ → Node ℕ → Node ℕ × Outcome
unfolding insert insert_at insert_step insert_dynamic enter_dynamic new_child old_child front_byte
    static_cut split_child get_child set_child node_children node_prefix add_value get_value
    norm_path strip_slash split_path_segments front extract_param_name is_broken_segment
    longest_common_prefix equal is_empty back_is front_is drop_last starts_with find_char method_eq
run path v root = insert Method.get path v root

-- The routes of the list, the last one first, whatever each call says.
build : List (Bytes × ℕ) → Node ℕ
unfolding run
build [] = empty_node
build ((path, v) ∷ rs) = (run path v (build rs)).0

look : Bytes → Node ℕ → Option (ℕ × List (Bytes × Bytes))
unfolding find drop_slash first_segment emplace node_values
look path root = find equal Method.get path root

abbrev routes : List (Bytes × ℕ)
routes = (codes "/users/{id}/posts/{post}", 1) ∷ (codes "/users/profile", 2) ∷ (codes "/", 3) ∷ []

look_parameters :
    look (codes "/users/12/posts/x") (build routes)
    ≡ some (1, (codes "id", codes "12") ∷ (codes "post", codes "x") ∷ [])
unfolding build look
look_parameters = refl

look_static : look (codes "/users/profile/") (build routes) ≡ some (2, [])
unfolding build look
look_static = refl

look_root : look (codes "/") (build routes) ≡ some (3, [])
unfolding build look
look_root = refl

run_errors :
    ((run (codes "/users/{id") 4 (build routes)).1 ≡ thrown malformed_segment)
    × ((run (codes "/users/{name}") 4 (build routes)).1 ≡ thrown ambiguous_route)
    × ((run (codes "/users/profile/") 4 (build routes)).1 ≡ thrown already_exists)
unfolding build
run_errors = (refl, refl, refl)

-- Either order of the two routes hides the lower one.
look_below :
    (look (codes "/users/list") (build ((codes "/users/list", 1) ∷ (codes "/users", 2) ∷ []))
      ≡ none)
    × (look (codes "/users/list") (build ((codes "/users", 2) ∷ (codes "/users/list", 1) ∷ []))
        ≡ none)
unfolding build look
look_below = (refl, refl)

abbrev profile : Node ℕ
profile = (insert Method.get (codes "/users/profile") 2 empty_node).0

profile-IsRadix : IsRadix profile
profile-IsRadix = insert-IsRadix Method.get (codes "/users/profile") 2 empty_node (refl, tt, tt)

insert-IsRadix_example : IsRadix (insert Method.get (codes "/users/{id}") 1 profile).0
insert-IsRadix_example = insert-IsRadix Method.get (codes "/users/{id}") 1 profile profile-IsRadix

insert-ends_example : (insert Method.get (codes "/users/{id}") 1 profile).1 ≢ spinning
insert-ends_example = insert-ends Method.get (codes "/users/{id}") 1 profile profile-IsRadix

insert-perm_example :
    Perm
      (handlers (insert Method.get (codes "/users/{id}") 1 profile).0)
      (added Method.get 1 (insert Method.get (codes "/users/{id}") 1 profile).1 ++ handlers profile)
insert-perm_example = insert-perm Method.get (codes "/users/{id}") 1 profile

insert-twice_example :
    insert Method.get (codes "/users/profile") 7 profile ≡ (profile, thrown already_exists)
unfolding run
insert-twice_example =
    insert-twice Method.get (codes "/users/profile") 2 7 empty_node (refl, tt, tt) refl

find-mem_example : Mem (Method.get, 2) (handlers (build routes))
unfolding build look
find-mem_example = find-mem Method.get equal (codes "/users/profile") (build routes) refl

abbrev post_of_user : Template
post_of_user = text (codes "users/") (
    param (codes "id") (codes "12") (text (codes "posts/") (param (codes "post") (codes "x") stop)))

find-insert_template_example :
    ((insert {V = ℕ} Method.get (codes "/users/{id}/posts/{post}") 1 empty_node).1 ≡ done)
    × (find equal Method.get
          (codes "/users/12/posts/x")
          (insert {V = ℕ} Method.get (codes "/users/{id}/posts/{post}") 1 empty_node).0
        ≡ some (1, bindings equal post_of_user []))
unfolding back_is
find-insert_template_example =
    find-insert_template Method.get 1 equal post_of_user (ground arith) refl refl
