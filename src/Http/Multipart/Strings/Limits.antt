-- ===== src/Http/Multipart/Strings/Limits.antt =====
-- clueapi/http/multipart/detail/string_parser: what the limits promise of the parts.
use clueapi.Base.{
  ℕ, suc, ◌+◌, ◌≤◌, ◌<◌, ◌≡◌, inl, inr, List, [], ◌∷◌, ◌++◌, arith, length, length-append, All,
  All-append, Bool-cases,
}
use clueapi.Base.Bytes.{Bytes}
use clueapi.Http.Multipart.{
  Config, Outcome, accepted, refused, thrown, Parts, File, in_memory, temp_path, emplace, contains,
}
use clueapi.Http.Multipart.Strings.{Step, stop, next}

-- The bytes of a file that are in memory.
unfoldable pub in_memory_size : File → ℕ
in_memory_size f = elim f.content [ in_memory bytes ↦ length bytes | temp_path path ↦ 0 ]

unfoldable pub memory_of : List (Bytes × File) → ℕ
unfolding in_memory_size
memory_of [] = 0
memory_of ((key, f) ∷ m) = in_memory_size f + memory_of m

-- No file in memory is larger than one may be.
abbrev pub AllSmall : Config → List (Bytes × File) → Type 0
AllSmall cfg m = All (λ e. in_memory_size e.1 ≤ cfg.max_file_size_in_memory) m

-- What the limits promise of the parts, where `n` of them are allowed.
pub record IsWithin (cfg : Config) (n : ℕ) (p : Parts) : Type 0 where
  pub few : length p.fields + length p.files ≤ n
  pub small : AllSmall cfg p.files
  pub used : memory_of p.files ≤ cfg.max_files_size_in_memory

-- What holds between two rounds: the counter is within its limit, and covers the files.
pub record Fits (cfg : Config) (n : ℕ) (total : ℕ) (p : Parts) : Type 0 where
  pub few : length p.fields + length p.files ≤ n
  pub small : AllSmall cfg p.files
  pub counted : memory_of p.files ≤ total
  pub capped : total ≤ cfg.max_files_size_in_memory

-- An outcome with parts keeps the limits.
abbrev pub Keeps : Config → Outcome → Type 0
Keeps cfg (accepted p) = (n : ℕ) × (n < cfg.max_parts_count) × IsWithin cfg n p
Keeps cfg (refused e) = Unit {0}
Keeps cfg thrown = Unit {0}

module _ {W : Type 0} where
  abbrev pub StepKeeps : Config → ℕ → Step W → Type 0
  StepKeeps cfg n (stop o w) = Keeps cfg o
  StepKeeps cfg n (next s) = Fits cfg n s.total s.parts

-- A limit on the number of parts may be larger.
pub widen :
    {W : Type 0} (cfg : Config) (n : ℕ) {m : ℕ}
    → suc n ≤ m
    → (r : Step W) → StepKeeps cfg (suc n) r
    → StepKeeps cfg m r
widen cfg n le (stop o w) h = h
widen cfg n le (next s) h = record {
  few = omega (arith, h.few);
  small = h.small;
  counted = h.counted;
  capped = h.capped;
}

memory_of-append :
    (m : List (Bytes × File)) (key : Bytes) (f : File)
    → memory_of (m ++ (key, f) ∷ []) ≡ memory_of m + in_memory_size f
unfolding memory_of
memory_of-append [] key f = omega arith
memory_of-append ((k, g) ∷ m) key f = omega (arith, memory_of-append m key f)

pub length-emplace :
    {A : Type 0} (key : Bytes) (v : A) (m : List (Bytes × A))
    → length (emplace key v m) ≤ suc (length m)
unfolding emplace
length-emplace key v m = elim (Bool-cases (contains key m)) [
  | inl e ↦ rw e (omega arith)
  | inr e ↦ rw e (omega (arith, length-append m ((key, v) ∷ [])))
]

pub memory_of-emplace :
    (key : Bytes) (f : File) (m : List (Bytes × File))
    → memory_of (emplace key f m) ≤ memory_of m + in_memory_size f
unfolding emplace
memory_of-emplace key f m = elim (Bool-cases (contains key m)) [
  | inl e ↦ rw e (omega arith)
  | inr e ↦ rw e (omega (arith, memory_of-append m key f))
]

pub emplace-AllSmall :
    (cfg : Config) (key : Bytes) (f : File) (m : List (Bytes × File))
    → AllSmall cfg m
    → in_memory_size f ≤ cfg.max_file_size_in_memory
    → AllSmall cfg (emplace key f m)
unfolding emplace
emplace-AllSmall cfg key f m h k = elim (Bool-cases (contains key m)) [
  | inl e ↦ rw e h
  | inr e ↦ rw e (All-append _ m ((key, f) ∷ []) h (k, tt))
]
