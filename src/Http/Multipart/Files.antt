-- ===== src/Http/Multipart/Files.antt =====
-- clueapi/http/multipart/detail/file_parser: a body that is in a file, read chunk by chunk.
pub mod Storage
pub mod Body
pub mod Reading
pub mod Rounds
pub mod Fields
pub mod Unstored
use clueapi.Base.{
  ℕ, zero, suc, ◌+◌, ◌-◌, ◌%◌, ◌&&◌, ◌||◌, Bool, true, false, not, [], ◌∷◌, ◌++◌, Option, none,
  some, length, take, drop, ltb, leb, if◌then◌else◌,
}
use clueapi.Base.Bytes.{Bytes, codes, find, is_empty, starts_with}
use clueapi.Shared.Split.{size_mod}
use clueapi.Http.Multipart.{
  Config, Disk, Outcome, accepted, refused, thrown, Parts, no_parts, File, in_memory, temp_path,
  add_file, emplace, dash_boundary, crlf_dash_boundary, destroy_all, Error, too_many_parts,
  temp_file, iterations, file_open, first_boundary, headers_size, headers_read, headers_missing,
  part_boundary, part_read, field_boundary, field_read,
}
use clueapi.Http.Multipart.Headers.{Headers, parse_headers}

-- How a read of the file ends.
pub data ReadEnd : Type 0 where
  got : ReadEnd
  eof : ReadEnd
  failed : ReadEnd

-- `stream_file`, as the parser uses it: `open` for reading, and `async_read_some`.
pub record Source (W : Type 0) : Type 0 where
  pub open_read : Bytes → W → Bool × W
  pub read_some : ℕ → W → Bytes × (ReadEnd × W)

-- `m_processing_buffer`, where `m_buffer_view` begins in it, `m_eof_reached`,
-- `m_total_in_memory_size`, and the file system.
pub record Reader (W : Type 0) : Type 0 where
  pub buffer : Bytes
  pub processed : ℕ
  pub eof_reached : Bool
  pub total : ℕ
  pub world : W

-- `m_buffer_view`
abbrev pub view : {W : Type 0} → Reader W → Bytes
view r = drop r.processed r.buffer

-- `m_buffer_view.remove_prefix(n)`
unfoldable pub remove_prefix : {W : Type 0} → ℕ → Reader W → Reader W
remove_prefix n r = record r { processed = r.processed + n }

-- What an operation of the parser ends with; `no_fuel` is no end of it.
pub data Result {ℓ} (W : Type 0) (A : Type ℓ) : Type ℓ where
  value : A → Reader W → Result W A
  error : Error → Reader W → Result W A
  exception : Reader W → Result W A
  no_fuel : Result W A

unfoldable pub and_then {ℓ κ} :
    {W : Type 0} {A : Type ℓ} {B : Type κ} → Result W A → (A → Reader W → Result W B) → Result W B
and_then (value a r) k = k a r
and_then (error e r) k = error e r
and_then (exception r) k = exception r
and_then no_fuel k = no_fuel

-- `e_read_state`
pub data ReadState : Type 0 where
  e_success : ReadState
  e_error : ReadState
  e_eof : ReadState

module _ {W : Type 0} (src : Source W) (cfg : Config) where
  -- The buffer behind the test for the end, with the view moved to its front.
  unfoldable pub front_buffer : Reader W → Bytes
  front_buffer r = if ltb 0 r.processed then view r else r.buffer

  unfoldable pub read_more : Reader W → ReadState × Reader W
  unfolding front_buffer
  read_more r =
      let (bytes, (end, w)) = src.read_some cfg.chunk_size r.world in
      let buffer = front_buffer r ++ bytes in
      if r.eof_reached then (e_eof, r) else elim end [
        | got ↦ (e_success, record r { buffer = buffer; processed = 0; world = w })
        | eof ↦
            (e_success, record r { buffer = buffer; processed = 0; eof_reached = true; world = w })
        | failed ↦ (e_error, record r { buffer = buffer; world = w })
      ]

  -- `std::max(m_dash_boundary.length(), m_crlf_dash_boundary.length()) - 1`
  unfoldable pub keep_size : ℕ
  unfolding dash_boundary crlf_dash_boundary
  keep_size =
      let d = length (dash_boundary cfg) in
      let c = length (crlf_dash_boundary cfg) in (if ltb d c then c else d) - 1

  -- The view is cut to the bytes in which a boundary may have begun.
  unfoldable pub cut_view : Reader W → Reader W
  unfolding keep_size remove_prefix
  cut_view r =
      if ltb keep_size (length (view r)) then remove_prefix (length (view r) - keep_size) r else r

  -- `while (true)`, with fuel.
  unfoldable pub find_first_boundary : ℕ → Reader W → Result W Bool
  unfolding read_more cut_view remove_prefix dash_boundary
  find_first_boundary zero r = no_fuel
  find_first_boundary (suc fuel) r = elim (find (view r) (dash_boundary cfg)) [
    | some pos ↦ value true (remove_prefix (pos + length (dash_boundary cfg)) r)
    | none ↦ elim r.eof_reached [
      | true ↦ value false (cut_view r)
      | false ↦
          let (state, q) = read_more (cut_view r) in
          elim state [ e_success ↦ find_first_boundary fuel q | _ ↦ value false q ]
    ]
  ]

  -- `calculate_safe_chunk_size`
  unfoldable pub safe_chunk_size : Reader W → ℕ
  unfolding crlf_dash_boundary
  safe_chunk_size r =
      if leb (length (view r)) (length (crlf_dash_boundary cfg))
      then 0
      else length (view r) - length (crlf_dash_boundary cfg)

  -- `find_boundary_in_buffer`
  unfoldable pub find_boundary : Reader W → Option ℕ
  unfolding crlf_dash_boundary
  find_boundary r = find (view r) (crlf_dash_boundary cfg)

  -- The end of a round of the loops of a part: the end of the file, and a further read.
  unfoldable pub refill : Error → Error → Reader W → Result W (Unit {0})
  unfolding read_more crlf_dash_boundary
  refill missing unread r =
      let (state, q) = read_more r in
      if r.eof_reached
      then error missing r
      else if leb (length (view r)) (length (crlf_dash_boundary cfg))
      then elim state [ e_error ↦ error unread q | _ ↦ value tt q ]
      else value tt r

  -- `while (true)` of `parse_field_part`, with fuel and the value so far.
  unfoldable pub field_rounds : ℕ → Bytes → Reader W → Result W Bytes
  unfolding find_boundary safe_chunk_size refill remove_prefix and_then crlf_dash_boundary
  field_rounds zero acc r = no_fuel
  field_rounds (suc fuel) acc r = elim (find_boundary r) [
    | some pos ↦
        value (acc ++ take pos (view r)) (remove_prefix (pos + length (crlf_dash_boundary cfg)) r)
    | none ↦
        let n = safe_chunk_size r in
        and_then (refill field_boundary field_read (remove_prefix n r))
          (λ _ q. field_rounds fuel (acc ++ take n (view r)) q)
  ]

  unfoldable pub parse_field_part : ℕ → Reader W → Result W Bytes
  unfolding field_rounds
  parse_field_part fuel r = field_rounds fuel [] r
