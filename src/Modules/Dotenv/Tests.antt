-- ===== src/Modules/Dotenv/Tests.antt =====
-- Loading at concrete files: tests, and the instances of the theorems.
use clueapi.Base.{◌≡◌, refl, false, true, [], ◌∷◌, ◌++◌, some, arith}
use clueapi.Base.Bytes.{Bytes, codes, is_empty, find_char, equal}
use clueapi.Modules.Dotenv.Hash.{xor, to_hash, hash_step, hash_from, rt_hash}
use clueapi.Modules.Dotenv.Hash.Suffix.{rt_hash_suffix}
use clueapi.Modules.Dotenv.Storage.{set, get}
use clueapi.Modules.Dotenv.Loading.{print, set_all, load-print}
use clueapi.Modules.Dotenv.{
  no_env, first_char, is_skipped, lines, cons_front, parse_line, parse_lines, load, at_bool,
}

hash_of_a : rt_hash (codes "A") ≡ 1725841463
unfolding rt_hash hash_from hash_step xor to_hash
hash_of_a = refl

-- A file with a comment, a blank line and spaces; no text is trimmed here.
read_file :
    at_bool
      (λ s. s)
      (rt_hash (codes "B"))
      false
      (load (λ s. s) (codes ".env") false (some (codes " # x\nA=1\n\nB=true\n")) no_env)
    ≡ true
unfolding rt_hash hash_from hash_step xor to_hash at_bool load parse_lines parse_line lines
    cons_front is_skipped first_char find_char is_empty equal set get
read_file = refl

abbrev long_tail : Bytes
long_tail = codes "_SERVICE_DATABASE_CONNECTION_PASSWORD"

rt_hash_suffix_example : rt_hash (codes "A" ++ long_tail) ≡ rt_hash (codes "B" ++ long_tail)
rt_hash_suffix_example = rt_hash_suffix (codes "A") (codes "B") long_tail (ground arith)

load-print_example :
    (load
      (λ s. s)
      (codes ".env")
      false
      (some (print ((codes "A", codes "1") ∷ [])))
      no_env).container
    ≡ set_all (λ s. s) false ((codes "A", codes "1") ∷ []) []
unfolding first_char is_empty
load-print_example =
    load-print (λ s. s) (codes ".env") false ((codes "A", codes "1") ∷ []) no_env refl
      (ground arith)
