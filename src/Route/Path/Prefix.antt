-- ===== src/Route/Path/Prefix.antt =====
-- Laws of the helpers on paths: the common prefix, and the first segment of a path.
use clueapi.Base.{
  ℕ, zero, suc, ◌-◌, ◌≤◌, ◌<◌, ◌≡◌, refl, false, true, List, [], ◌∷◌, ◌++◌, arith, length, take,
  length-append, take-append, ==_refl,
}
use clueapi.Base.Bytes.{Bytes, is_empty, back_is, Lacks}
use clueapi.Route.Path.{
  longest_common_prefix, strip_slash, extract_param_name, split_at_slashes, extend,
  split_path_segments, front, is_broken_segment,
}

-- The text is not empty and its first byte is `c`.
abbrev pub Begins : ℕ → Bytes → Type 0
Begins c [] = ⊥
Begins c (x ∷ xs) = x ≡ c

pub longest_common_prefix-le : (a b : Bytes) → longest_common_prefix a b ≤ length b
unfolding longest_common_prefix
longest_common_prefix-le [] b = omega arith
longest_common_prefix-le (x ∷ a) [] = omega arith
longest_common_prefix-le (x ∷ a) (y ∷ b) = ground (arith, longest_common_prefix-le a b)

pub longest_common_prefix_pos :
    (c : ℕ) (cs b : Bytes) → Begins c b → 0 < longest_common_prefix (c ∷ cs) b
unfolding longest_common_prefix
longest_common_prefix_pos c cs [] h = elim h [ ]
longest_common_prefix_pos c cs (y ∷ b) h = ground arith

pub longest_common_prefix-take :
    (k : ℕ) (a : Bytes) → longest_common_prefix a (take k a) ≡ length (take k a)
unfolding longest_common_prefix
longest_common_prefix-take zero [] = refl
longest_common_prefix-take zero (x ∷ a) = refl
longest_common_prefix-take (suc k) [] = refl
longest_common_prefix-take (suc k) (x ∷ a) = ground (arith, longest_common_prefix-take k a)

pub length-take_lcp :
    (a b : Bytes) → length (take (longest_common_prefix a b) b) ≡ longest_common_prefix a b
unfolding longest_common_prefix
length-take_lcp [] b = refl
length-take_lcp (x ∷ a) [] = refl
length-take_lcp (x ∷ a) (y ∷ b) = ground (arith, length-take_lcp a b)

pub longest_common_prefix-take_lcp :
    (a b : Bytes)
    → longest_common_prefix a (take (longest_common_prefix a b) b) ≡ longest_common_prefix a b
unfolding longest_common_prefix
longest_common_prefix-take_lcp [] b = refl
longest_common_prefix-take_lcp (x ∷ a) [] = refl
longest_common_prefix-take_lcp (x ∷ a) (y ∷ b) = ground (arith, longest_common_prefix-take_lcp a b)

pub Begins-take : (c k : ℕ) (b : Bytes) → 0 < k → Begins c b → Begins c (take k b)
Begins-take c zero b h s = absurd (omega arith)
Begins-take c (suc k) [] h s = s
Begins-take c (suc k) (x ∷ b) h s = s

pub length-strip_slash : (s : Bytes) → length (strip_slash s) ≤ length s
unfolding strip_slash
length-strip_slash [] = omega arith
length-strip_slash (c ∷ s) = ground arith

pub length-extract_param_name : (s : Bytes) → is_empty (extract_param_name s) ≡ false → 3 ≤ length s
unfolding extract_param_name is_empty
length-extract_param_name s h = ground arith

-- A path after a segment: a slash, unless nothing follows.
abbrev pub after : Bytes → Bytes
after [] = []
after (c ∷ cs) = b'/' ∷ c ∷ cs

pub strip_slash-after : (p : Bytes) → strip_slash (after p) ≡ p
unfolding strip_slash
strip_slash-after [] = refl
strip_slash-after (c ∷ cs) = refl

split_at_slashes-after :
    (c : ℕ) (s p : Bytes)
    → Lacks b'/' (c ∷ s)
    → (rest : List Bytes) × (split_at_slashes ((c ∷ s) ++ after p) ≡ (c ∷ s) ∷ rest)
unfolding split_at_slashes extend
split_at_slashes-after c [] [] h = ([], ground arith)
split_at_slashes-after c [] (d ∷ p) h = (split_at_slashes (d ∷ p), ground arith)
split_at_slashes-after c (d ∷ s) p h =
    let (rest, e) = split_at_slashes-after d s p h.1 in (rest, ground arith)

-- The first segment is what stands before the first slash.
pub front-split_path_segments :
    (c : ℕ) (s p : Bytes)
    → Lacks b'/' (c ∷ s)
    → front (split_path_segments ((c ∷ s) ++ after p)) ≡ c ∷ s
unfolding split_path_segments front
front-split_path_segments c s p h = let (rest, e) = split_at_slashes-after c s p h in ground arith

pub back_is-append : (c : ℕ) (s : Bytes) → back_is c (s ++ c ∷ []) ≡ true
unfolding back_is
back_is-append c [] = ==_refl c
back_is-append c (x ∷ []) = ==_refl c
back_is-append c (x ∷ y ∷ s) = back_is-append c (y ∷ s)

-- The text of a parameter's segment.
abbrev pub braced : Bytes → Bytes
braced name = b'{' ∷ (name ++ b'}' ∷ [])

pub is_broken_segment-braced : (name : Bytes) → is_broken_segment (braced name) ≡ false
unfolding is_broken_segment
is_broken_segment-braced [] = refl
is_broken_segment-braced (c ∷ name) = ground (arith, back_is-append b'}' (b'{' ∷ c ∷ name))

pub extract_param_name-braced :
    (name : Bytes) → is_empty name ≡ false → extract_param_name (braced name) ≡ name
unfolding extract_param_name is_empty
extract_param_name-braced [] h = ground arith
extract_param_name-braced (c ∷ name) h =
    let e = length-append (c ∷ name) (b'}' ∷ []) in
    let two : length (braced (c ∷ name)) - 2 ≡ length (c ∷ name) = omega arith in
    ground (arith, back_is-append b'}' (b'{' ∷ c ∷ name), take-append (c ∷ name) (b'}' ∷ []))
