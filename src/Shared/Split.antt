-- ===== src/Shared/Split.antt =====
-- clueapi/shared/non_copy/split_view: the lazy splitter, as its iterator runs.
pub mod Pieces
use clueapi.Base.{
  ℕ, zero, suc, ◌+◌, ◌-◌, ◌%◌, ◌^◌, Bool, List, [], ◌∷◌, Option, none, some, length, take, drop,
  ltb, if◌then◌else◌,
}
use clueapi.Base.Bytes.{Bytes, find}
use mathlib.Core.Option

-- `std::size_t` has 64 bits.
abbrev pub size_mod : ℕ
size_mod = 2 ^ 64

-- `s.find(p, from)`
pub find_from : Bytes → Bytes → ℕ → Option ℕ
find_from s p from =
    if ltb (length s) from then none else Option.map (λ i. i + from) (find (drop from s) p)

-- `s.substr(pos, a - b)`, with the difference as `std::size_t` has it.
pub substr_between : Bytes → ℕ → ℕ → ℕ → Bytes
substr_between s pos a b = take ((a + size_mod - b) % size_mod) (drop pos s)

-- `m_pos`, where `none` is `npos`, and `m_current`.
pub record Iterator : Type 0 where
  pub pos : Option ℕ
  pub current : Bytes

pub begin : Bytes → Bytes → Iterator
begin input delimiter = record {
  pos = some 0;
  current = elim (find input delimiter) [ none ↦ input | some first_pos ↦ take first_pos input ];
}

-- `operator++` behind the search; `end` is where the current piece ends.
resume : Bytes → Bytes → ℕ → Option ℕ → Iterator
resume input delimiter end none = record { pos = none; current = drop end input }
resume input delimiter end (some next_pos) =
    let pos = end + length delimiter in
    record { pos = some pos; current = substr_between input pos next_pos pos }

-- `operator++`
pub advance : Bytes → Bytes → Iterator → Iterator
advance input delimiter it = elim it.pos [
  | none ↦ it
  | some pos ↦
      let end = pos + length it.current in
      resume input delimiter end (find_from input delimiter end)
]

-- `for (auto piece : split(input, delimiter))`, with fuel; `none` means that it ran out.
pub collect : ℕ → Bytes → Bytes → Iterator → Option (List Bytes)
collect zero input delimiter it = none
collect (suc fuel) input delimiter it = elim it.pos [
  | none ↦ some []
  | some pos ↦
      Option.map (◌∷◌ it.current) (collect fuel input delimiter (advance input delimiter it))
]

-- The loop runs three rounds at most.
pub split : Bytes → Bytes → Option (List Bytes)
unfolding collect advance resume find_from substr_between begin
split input delimiter = collect 3 input delimiter (begin input delimiter)
