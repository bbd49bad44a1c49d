-- ===== src/Modules/Dotenv.antt =====
-- clueapi/modules/dotenv: the values of a `.env` file, under the hashes of their keys.
pub mod Hash
pub mod Storage
pub mod Loading
pub mod Tests
use clueapi.Base.{
  Bool, true, false, ◌||◌, List, [], ◌∷◌, Option, none, some, take, drop, ◌==◌, if◌then◌else◌, ℕ,
  suc,
}
use clueapi.Base.Bytes.{Bytes, codes, equal, is_empty, find_char}
use clueapi.Modules.Dotenv.Hash.{rt_hash}
use clueapi.Modules.Dotenv.Storage.{Container, set, get}

-- The fields of `c_dotenv`.
pub record Env : Type 0 where
  pub trim_values : Bool
  pub filename : Bytes
  pub container : Container

abbrev pub no_env : Env
no_env = record { trim_values = false; filename = []; container = [] }

-- The first byte that is neither a blank nor a tab.
unfoldable pub first_char : Bytes → Option ℕ
first_char [] = none
first_char (c ∷ s) = if c == b' ' || c == b'\t' then first_char s else some c

-- The lines that `std::getline` gives; an empty one at the end changes nothing.
unfoldable pub cons_front : ℕ → List Bytes → List Bytes
cons_front c [] = (c ∷ []) ∷ []
cons_front c (l ∷ ls) = (c ∷ l) ∷ ls

unfoldable pub lines : Bytes → List Bytes
unfolding cons_front
lines [] = [] ∷ []
lines (c ∷ s) = let rest = lines s in if c == b'\n' then [] ∷ rest else cons_front c rest

unfoldable pub is_skipped : Bytes → Bool
unfolding first_char
is_skipped line = elim (first_char line) [ none ↦ true | some c ↦ c == b'#' ]

-- `trim_copy` and `to_lower_copy` are Boost's.
module _ (trim_copy : Bytes → Bytes) where
  -- The key and the value that a line sets; `none` is `continue`.
  unfoldable pub parse_line : Bool → Bytes → Option (Bytes × Bytes)
  unfolding is_skipped
  parse_line trims line = if is_skipped line then none else elim (find_char b'=' line) [
    | none ↦ none
    | some pos ↦
        let key = trim_copy (take pos line) in
        let value = drop (suc pos) line in
        (if is_empty key then none else some (key, if trims then trim_copy value else value))
  ]

  unfoldable pub parse_lines : Bool → List Bytes → Container → Container
  unfolding parse_line
  parse_lines trims [] c = c
  parse_lines trims (l ∷ ls) c = elim (parse_line trims l) [
    | none ↦ parse_lines trims ls c
    | some (key, value) ↦ parse_lines trims ls (set (rt_hash key) value c)
  ]

  -- `file` is what the file holds, or `none` if it cannot be opened. What was loaded before stays.
  unfoldable pub load : Bytes → Bool → Option Bytes → Env → Env
  unfolding parse_lines lines
  load filename trims file e =
      if is_empty filename
      then record e { filename = filename; trim_values = trims }
      else record e {
        filename = filename;
        trim_values = trims;
        container = elim file [
          | none ↦ e.container
          | some text ↦ parse_lines trims (lines text) e.container
        ];
      }

-- `destroy`
unfoldable pub destroy : Env → Env
destroy e = record e { container = []; filename = [] }

-- `at<std::string>` and `at<bool>`
unfoldable pub at_string : ℕ → Bytes → Env → Bytes
at_string key default e = elim (get key e.container) [ none ↦ default | some value ↦ value ]

unfoldable pub at_bool : (Bytes → Bytes) → ℕ → Bool → Env → Bool
at_bool to_lower_copy key default e = elim (get key e.container) [
  | none ↦ default
  | some value ↦ equal (to_lower_copy value) (codes "true")
]
