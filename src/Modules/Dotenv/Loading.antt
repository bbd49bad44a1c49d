-- ===== src/Modules/Dotenv/Loading.antt =====
-- clueapi/modules/dotenv: loading a file that lists keys and values.
use clueapi.Base.{
  ◌≤◌, ◌≡◌, ◌≢◌, refl, Bool, false, List, [], ◌∷◌, ◌++◌, none, some, length, All, take-append,
  drop-suc-append, Option-cases, inl, inr, All-append, arith, ◌==◌, if◌then◌else◌,
}
use clueapi.Base.Bytes.{Bytes, Lacks, is_empty, find_char-append}
use clueapi.Modules.Dotenv.Hash.{rt_hash}
use clueapi.Modules.Dotenv.Hash.Suffix.{rt_hash_suffix}
use clueapi.Modules.Dotenv.Storage.{Container, set, get-set}
use clueapi.Modules.Dotenv.{
  Env, first_char, is_skipped, cons_front, lines, parse_line, parse_lines, load, at_string,
}

abbrev pub Entries : Type 0
Entries = List (Bytes × Bytes)

-- The text of the entries, one line each.
pub print : Entries → Bytes
print [] = []
print ((k, v) ∷ es) = (k ++ b'=' ∷ v) ++ b'\n' ∷ print es

lines-append : (s r : Bytes) → Lacks b'\n' s → lines (s ++ b'\n' ∷ r) ≡ s ∷ lines r
unfolding lines cons_front
lines-append [] r h = refl
lines-append (c ∷ s) r h = ground (arith, h.0, lines-append s r h.1)

first_char-append : (s r : Bytes) → first_char s ≢ none → first_char (s ++ r) ≡ first_char s
unfolding first_char
first_char-append [] r h = ground arith
first_char-append (c ∷ s) r h = ground (arith, first_char-append s r)

is_skipped-append :
    (s r : Bytes) → first_char s ≢ none → first_char s ≢ some b'#' → is_skipped (s ++ r) ≡ false
unfolding is_skipped
is_skipped-append s r h ne = elim (Option-cases (first_char s)) [
  | inl e ↦ ground (arith, h e)
  | inr (c, e) ↦ ground (arith, first_char-append s r h, e, ne)
]

module _ (trim_copy : Bytes → Bytes) where
  -- Each entry sets its value, the first one first.
  pub set_all : Bool → Entries → Container → Container
  set_all trims [] c = c
  set_all trims ((k, v) ∷ es) c =
      set_all trims es (set (rt_hash k) (if trims then trim_copy v else v) c)

  -- A key that a line can hold, and a value on one line.
  abbrev pub IsEntry : Bytes × Bytes → Type 0
  IsEntry e =
      (first_char e.0 ≢ none)
      × (first_char e.0 ≢ some b'#')
      × (is_empty e.0 ≡ false)
      × (trim_copy e.0 ≡ e.0)
      × Lacks b'=' e.0
      × Lacks b'\n' e.0
      × Lacks b'\n' e.1

  Lacks-entry : (k v : Bytes) → IsEntry (k, v) → Lacks b'\n' (k ++ b'=' ∷ v)
  Lacks-entry k v h = All-append (λ x. (x == b'\n') ≡ false) k (b'=' ∷ v) h.5 (refl, h.6)

  parse_line-entry :
      (trims : Bool) (k v : Bytes)
      → IsEntry (k, v)
      → parse_line trim_copy trims (k ++ b'=' ∷ v) ≡ some (k, if trims then trim_copy v else v)
  unfolding parse_line
  parse_line-entry trims k v h = ground (
    arith,
    is_skipped-append k (b'=' ∷ v) h.0 h.1,
    find_char-append b'=' k v h.4,
    take-append k (b'=' ∷ v),
    drop-suc-append k b'=' v,
    h.2,
    h.3,
  )

  parse_lines-nothing :
      (trims : Bool) (c : Container) → parse_lines trim_copy trims (lines []) c ≡ c
  unfolding parse_lines parse_line lines is_skipped first_char
  parse_lines-nothing trims c = refl

  parse_lines-print :
      (trims : Bool) (es : Entries) (c : Container)
      → All IsEntry es
      → parse_lines trim_copy trims (lines (print es)) c ≡ set_all trims es c
  unfolding parse_lines print set_all
  parse_lines-print trims [] c h = parse_lines-nothing trims c
  parse_lines-print trims ((k, v) ∷ es) c h =
      rw (lines-append (k ++ b'=' ∷ v) (print es) (Lacks-entry k v h.0)) (
        rw (parse_line-entry trims k v h.0, parse_lines)
          (parse_lines-print trims es (set (rt_hash k) (if trims then trim_copy v else v) c) h.1))

  -- A file with a name, which lists entries that a line can hold, one a line, sets each of them in
  -- turn, with the value trimmed if that is asked for, on top of what was loaded before.
  pub load-print :
      (filename : Bytes) (trims : Bool) (es : Entries) (e : Env)
      → is_empty filename ≡ false
      → All IsEntry es
      → (load trim_copy filename trims (some (print es)) e).container ≡ set_all trims es e.container
  unfolding load
  load-print filename trims es e h entries = rw h (parse_lines-print trims es e.container entries)

  -- A defect: a file lists two entries whose keys end with the same 32 bytes, or more. Then the first
  -- key has the value of the second.
  pub at_string-load_shadowed :
      (filename : Bytes) (a b t v w default : Bytes) (e : Env)
      → is_empty filename ≡ false
      → 32 ≤ length t
      → IsEntry (a ++ t, v)
      → IsEntry (b ++ t, w)
      → at_string
          (rt_hash (a ++ t))
          default
          (load trim_copy filename false (some (print ((a ++ t, v) ∷ (b ++ t, w) ∷ []))) e)
        ≡ w
  unfolding at_string set_all
  at_string-load_shadowed filename a b t v w default e named h first second =
      let entries : Entries = (a ++ t, v) ∷ (b ++ t, w) ∷ [] in
      ground (
        arith,
        load-print filename false entries e named (first, (second, tt)),
        rt_hash_suffix a b t h,
        get-set (rt_hash (b ++ t)) (rt_hash (b ++ t)) w (set (rt_hash (b ++ t)) v e.container),
      )
