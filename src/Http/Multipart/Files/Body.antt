-- ===== src/Http/Multipart/Files/Body.antt =====
-- clueapi/http/multipart/detail/file_parser: the headers of a part, and the loop over the parts.
use clueapi.Base.{
  ℕ, zero, suc, ◌+◌, ◌||◌, Bool, true, false, [], none, some, length, take, ltb, leb, if◌then◌else◌,
}
use clueapi.Base.Bytes.{Bytes, codes, find, is_empty, starts_with}
use clueapi.Http.Multipart.{
  Config, Disk, Outcome, accepted, refused, thrown, Parts, no_parts, add_file, emplace, destroy_all,
  too_many_parts, iterations, file_open, first_boundary, headers_size, headers_read,
  headers_missing,
}
use clueapi.Http.Multipart.Headers.{Headers, parse_headers}
use clueapi.Http.Multipart.Files.{
  Source, Reader, view, remove_prefix, Result, value, error, exception, no_fuel, and_then,
  read_more, e_error, find_first_boundary, parse_field_part,
}
use clueapi.Http.Multipart.Files.Storage.{parse_file_part}
use clueapi.Http.Multipart.Strings.{max_iterations}
use mathlib.Core.Option.{Option}

-- `iequals` and `replace_all` are Boost's; `fuel` is that of each loop that reads.
module _ {W : Type 0} (src : Source W) (disk : Disk W) (cfg : Config)
    (iequals : Bytes → Bytes → Bool) (replace_all : Bytes → Bytes → Bytes → Bytes) where
  -- `while (!m_eof_reached)`, with fuel.
  unfoldable pub parse_part_headers : ℕ → Reader W → Result W Headers
  unfolding read_more remove_prefix
  parse_part_headers zero r = no_fuel
  parse_part_headers (suc fuel) r = elim r.eof_reached [
    | true ↦ error headers_missing r
    | false ↦ elim (find (view r) (codes "\r\n\r\n")) [
      | some pos ↦
          value (parse_headers iequals replace_all (take pos (view r))) (remove_prefix (pos + 4) r)
      | none ↦ elim (ltb 8192 (length (view r))) [
        | true ↦ error headers_size r
        | false ↦
            let (state, q) = read_more src cfg r in
            elim state [ e_error ↦ error headers_read q | _ ↦ parse_part_headers fuel q ]
      ]
    ]
  ]

  -- The part behind its headers.
  unfoldable pub parse_part : ℕ → Headers → Parts → Reader W → Result W Parts
  unfolding and_then parse_file_part parse_field_part add_file emplace
  parse_part fuel h parts r =
      if is_empty h.name
      then value parts r
      else if is_empty h.file_name
      then and_then (parse_field_part src cfg fuel r)
          (λ v q. value (record parts { fields = emplace h.name v parts.fields }) q)
      else and_then (parse_file_part src disk cfg fuel h r) (λ f q.
        let (kept, w) = add_file disk h.name f (parts, q.world) in
        value kept (record q { world = w }))

  -- `m_buffer_view.remove_prefix(2)`, where a line break follows the boundary.
  unfoldable pub skip_line : Reader W → Reader W
  unfolding remove_prefix
  skip_line r = if starts_with (view r) (codes "\r\n") then remove_prefix 2 r else r

  -- What the loop returns: the outcome, or nothing where the fuel ran out. Parts that are not
  -- returned are destroyed.
  unfoldable pub give_up : Outcome → Parts → Reader W → Option (Outcome × W)
  unfolding destroy_all
  give_up o parts r = some (o, destroy_all disk parts.files r.world)

  unfoldable pub next_part :
      Result W Parts → Parts → (Parts → Reader W → Option (Outcome × W)) → Option (Outcome × W)
  unfolding give_up
  next_part (value kept r) parts go_on = go_on kept r
  next_part (error e r) parts go_on = give_up (refused e) parts r
  next_part (exception r) parts go_on = give_up thrown parts r
  next_part no_fuel parts go_on = none

  -- `while (iteration_count++ < k_max_iterations)`, with the rounds that are left.
  unfoldable pub body_rounds : ℕ → ℕ → Parts → Reader W → Option (Outcome × W)
  unfolding parse_part_headers parse_part skip_line give_up next_part and_then
  body_rounds zero fuel parts r = give_up (refused iterations) parts r
  body_rounds (suc left) fuel parts r =
      if leb cfg.max_parts_count (length parts.fields + length parts.files)
      then give_up (refused too_many_parts) parts r
      else if starts_with (view r) (codes "--") || starts_with (view r) (codes "\r\n--")
      then some (accepted parts, r.world)
      else next_part
          (and_then (parse_part_headers fuel (skip_line r)) (λ h q. parse_part fuel h parts q))
          parts (λ kept q. body_rounds left fuel kept q)

  -- The reader before the first read.
  abbrev pub new_reader : W → Reader W
  new_reader w = record { buffer = []; processed = 0; eof_reached = false; total = 0; world = w }

  unfoldable pub begin_body : ℕ → Result W Bool → Option (Outcome × W)
  unfolding body_rounds
  begin_body fuel (value true r) = body_rounds max_iterations fuel no_parts r
  begin_body fuel (value false r) = some (refused first_boundary, r.world)
  begin_body fuel (error e r) = some (refused e, r.world)
  begin_body fuel (exception r) = some (thrown, r.world)
  begin_body fuel no_fuel = none

  unfoldable pub parse : ℕ → Bytes → W → Option (Outcome × W)
  unfolding begin_body find_first_boundary
  parse fuel path w =
      let (opened, w1) = src.open_read path w in
      if opened
      then begin_body fuel (find_first_boundary src cfg fuel (new_reader w1))
      else some (refused file_open, w1)
