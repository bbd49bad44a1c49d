-- ===== src/Route/Path.antt =====
-- clueapi/route/detail: the static helpers on paths and path segments.
pub mod Prefix
use clueapi.Base.{
  ℕ, zero, suc, ◌+◌, ◌-◌, ◌≤◌, ◌<◌, ◌≡◌, refl, Bool, true, false, not, ◌&&◌, ◌||◌, List, [], ◌∷◌,
  ◌++◌, Option, none, some, arith, length, take, drop, ◌==◌, ltb, leb, if◌then◌else◌,
}
use clueapi.Base.Bytes.{
  Bytes, codes, equal, equal_iff, is_empty, front_is, back_is, drop_last, starts_with, Lacks,
}

-- The loop counts the equal bytes at the two fronts.
unfoldable pub longest_common_prefix : Bytes → Bytes → ℕ
longest_common_prefix [] b = 0
longest_common_prefix (x ∷ a) [] = 0
longest_common_prefix (x ∷ a) (y ∷ b) = if x == y then suc (longest_common_prefix a b) else 0

unfoldable pub norm_path : Bytes → Bytes
norm_path path =
    if is_empty path
    then codes "/"
    else if ltb 1 (length path) && back_is b'/' path
    then drop_last path
    else path

-- `if (path.starts_with('/')) path.remove_prefix(1);`
unfoldable pub strip_slash : Bytes → Bytes
strip_slash [] = []
strip_slash (c ∷ cs) = if c == b'/' then cs else c ∷ cs

-- One more byte of the segment that is being read.
extend : ℕ → List Bytes → List Bytes
extend c [] = (c ∷ []) ∷ []
extend c (s ∷ ss) = (c ∷ s) ∷ ss

-- The loop over the slashes: each ends a segment, and what is left makes one if it is not empty.
split_at_slashes : Bytes → List Bytes
split_at_slashes [] = []
split_at_slashes (c ∷ cs) =
    let rest = split_at_slashes cs in if c == b'/' then [] ∷ rest else extend c rest

unfoldable pub split_path_segments : Bytes → List Bytes
unfolding split_at_slashes extend strip_slash equal is_empty
split_path_segments path =
    if is_empty path || equal path (codes "/") then [] else split_at_slashes (strip_slash path)

-- `segments.front()`; the caller's path is not empty, so the list is not.
unfoldable pub front : List Bytes → Bytes
front [] = []
front (s ∷ ss) = s

unfoldable pub extract_param_name : Bytes → Bytes
unfolding front_is back_is
extract_param_name s =
    if ltb (length s) 3 || not (front_is b'{' s) || not (back_is b'}' s)
    then []
    else take (length s - 2) (drop 1 s)

unfoldable pub is_dynamic_segment : Bytes → Bool
unfolding front_is back_is
is_dynamic_segment s = ltb 2 (length s) && front_is b'{' s && back_is b'}' s

unfoldable pub is_broken_segment : Bytes → Bool
unfolding front_is back_is
is_broken_segment s =
    (front_is b'{' s && not (back_is b'}' s)) || (not (front_is b'{' s) && back_is b'}' s)
