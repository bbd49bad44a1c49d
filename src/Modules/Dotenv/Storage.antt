-- ===== src/Modules/Dotenv/Storage.antt =====
-- clueapi/modules/dotenv/detail/container: a map from hashes to texts.
use clueapi.Base.{ℕ, ◌≡◌, List, [], ◌∷◌, Option, none, some, arith, ◌==◌, if◌then◌else◌}
use clueapi.Base.Bytes.{Bytes}

abbrev pub Container : Type 0
Container = List (ℕ × Bytes)

-- `insert_or_assign`
unfoldable pub set : ℕ → Bytes → Container → Container
set k v [] = (k, v) ∷ []
set k v ((j, w) ∷ c) = if j == k then (j, v) ∷ c else (j, w) ∷ set k v c

-- `contains` and `at` in one.
unfoldable pub get : ℕ → Container → Option Bytes
get k [] = none
get k ((j, w) ∷ c) = if j == k then some w else get k c

-- After a value is set, its key has it, and every other key has what it had.
pub get-set :
    (j k : ℕ) (v : Bytes) (c : Container) → get j (set k v c) ≡ (if j == k then some v else get j c)
unfolding get set
get-set j k v [] = ground arith
get-set j k v ((i, w) ∷ c) = ground (arith, get-set j k v c)
