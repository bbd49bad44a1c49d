-- ===== src/Http/Multipart/Files/Storage.antt =====
-- clueapi/http/multipart/detail/file_parser: a part that is a file, kept in memory or on disk while
-- it is read.
use clueapi.Base.{
  ℕ, zero, suc, ◌+◌, ◌%◌, ◌&&◌, ◌||◌, Bool, true, false, not, [], ◌++◌, none, some, length, take,
  ltb, if◌then◌else◌,
}
use clueapi.Base.Bytes.{Bytes, is_empty}
use clueapi.Shared.Split.{size_mod}
use clueapi.Http.Multipart.{
  Config, Disk, File, in_memory, temp_path, crlf_dash_boundary, temp_file, part_boundary, part_read,
}
use clueapi.Http.Multipart.Headers.{Headers}
use clueapi.Http.Multipart.Files.{
  Source, Reader, view, remove_prefix, Result, value, error, exception, no_fuel, and_then,
  safe_chunk_size, find_boundary, refill,
}

-- The variant in which a part is kept while it is read.
pub data Storage : Type 0 where
  vector : Bytes → Storage
  tmp_file : Bytes → Storage

-- `std::holds_alternative<std::vector<char>>`
unfoldable pub is_vector : Storage → Bool
is_vector (vector bytes) = true
is_vector (tmp_file path) = false

module _ {W : Type 0} (disk : Disk W) (cfg : Config) where
  unfoldable pub should_use_file_storage : ℕ → Reader W → Bool
  should_use_file_storage part_size r =
      ltb cfg.max_file_size_in_memory part_size
      || ltb cfg.max_files_size_in_memory ((r.total + part_size) % size_mod)

  -- `async_write`, which is left out for no bytes where `optional` is set, and may throw.
  unfoldable pub write_bytes : Bool → Bytes → Bytes → Reader W → Result W (Unit {0})
  write_bytes optional path bytes r =
      let (written, w) = disk.write path bytes r.world in
      if optional && is_empty bytes
      then value tt r
      else if written
      then value tt (record r { world = w })
      else exception (record r { world = w })

  -- The bytes of a vector; none for a file.
  unfoldable pub vector_bytes : Storage → Bytes
  vector_bytes (vector bytes) = bytes
  vector_bytes (tmp_file path) = []

  unfoldable pub create_temp_file_storage : Storage → Bytes → Reader W → Result W Storage
  unfolding write_bytes vector_bytes and_then
  create_temp_file_storage current chunk r =
      let (path, w) = disk.unique_path r.world in
      let (opened, w1) = disk.open_file path w in
      if not opened
      then error temp_file (record r { world = w1 })
      else and_then (write_bytes true path (vector_bytes current) (record r { world = w1 }))
          (λ _ q. and_then (write_bytes true path chunk q) (λ _ p. value (tmp_file path) p))

  -- `std::get` throws where the variant holds the other alternative.
  unfoldable pub append_chunk : Storage → Bool → Bytes → Reader W → Result W Storage
  unfolding write_bytes and_then
  append_chunk (vector bytes) in_mem chunk r =
      if in_mem then value (vector (bytes ++ chunk)) r else exception r
  append_chunk (tmp_file path) in_mem chunk r =
      if in_mem
      then exception r
      else and_then (write_bytes false path chunk r) (λ _ q. value (tmp_file path) q)

  unfoldable pub write_chunk_to_storage : Storage → Bool → Bytes → ℕ → Reader W → Result W Storage
  unfolding create_temp_file_storage append_chunk should_use_file_storage
  write_chunk_to_storage storage in_mem chunk total_part_size r =
      if is_empty chunk
      then value storage r
      else if in_mem && should_use_file_storage total_part_size r
      then create_temp_file_storage storage chunk r
      else append_chunk storage in_mem chunk r

  -- The file that the storage becomes, behind the loop.
  unfoldable pub file_of : Headers → Storage → Bool → Reader W → Result W File
  file_of h (vector bytes) in_mem r =
      if in_mem
      then value
          (record { name = h.file_name; content_type = h.content_type; content = in_memory bytes })
          (record r { total = (r.total + length bytes) % size_mod })
      else exception r
  file_of h (tmp_file path) in_mem r =
      if in_mem
      then exception r
      else value
          (record { name = h.file_name; content_type = h.content_type; content = temp_path path }) r

module _ {W : Type 0} (src : Source W) (disk : Disk W) (cfg : Config) where
  -- `while (true)`, with fuel, the storage, `in_memory` and `part_size`.
  unfoldable pub file_rounds : ℕ → Headers → Storage → Bool → ℕ → Reader W → Result W File
  unfolding write_chunk_to_storage file_of is_vector and_then find_boundary safe_chunk_size refill
      remove_prefix crlf_dash_boundary
  file_rounds zero h storage in_mem part_size r = no_fuel
  file_rounds (suc fuel) h storage in_mem part_size r = elim (find_boundary src cfg r) [
    | some pos ↦
        let chunk = take pos (view r) in
        and_then (write_chunk_to_storage disk cfg storage in_mem chunk (part_size + length chunk) r)
          (λ kept q.
            file_of disk cfg h kept (is_vector kept)
              (remove_prefix (pos + length (crlf_dash_boundary cfg)) q))
    | none ↦
        let n = safe_chunk_size src cfg r in
        let chunk = take n (view r) in
        if ltb 0 n
        then and_then
            (write_chunk_to_storage disk cfg storage in_mem chunk (part_size + length chunk) r)
            (λ kept q.
              and_then (refill src cfg part_boundary part_read (remove_prefix n q))
                (λ _ p. file_rounds fuel h kept (is_vector kept) (part_size + length chunk) p))
        else and_then (refill src cfg part_boundary part_read r)
            (λ _ p. file_rounds fuel h storage in_mem part_size p)
  ]

  -- The part begins in a vector, and `in_memory` is not set.
  unfoldable pub parse_file_part : ℕ → Headers → Reader W → Result W File
  unfolding file_rounds
  parse_file_part fuel h r = file_rounds fuel h (vector []) false 0 r
