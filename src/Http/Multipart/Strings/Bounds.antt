-- ===== src/Http/Multipart/Strings/Bounds.antt =====
-- clueapi/http/multipart/detail/string_parser: the limits on the parts that a body can leave.
use clueapi.Base.{
  ℕ, zero, suc, ◌+◌, ◌%◌, ◌≤◌, ◌<◌, ◌≡◌, inl, inr, false, arith, length, Bool, Option-cases,
  if-split, leb-false, leb, take, drop, not,
}
use clueapi.Base.Bytes.{Bytes, codes, find, is_empty, starts_with}
use clueapi.Shared.Split.{size_mod}
use clueapi.Http.Multipart.{
  Config, Disk, Outcome, File, temp_path, add_file, dash_boundary, crlf_dash_boundary,
}
use clueapi.Http.Multipart.Headers.{Headers}
use clueapi.Http.Multipart.Strings.{
  State, Step, stop, next, finish, give_up, keep_file, save_to_disk, is_large, store_file,
  store_part, continue_at, read_content, read_part, after_boundary, round, rounds, start, parse,
  max_iterations,
}
use clueapi.Http.Multipart.Strings.Limits.{
  in_memory_size, memory_of, Fits, Keeps, StepKeeps, length-emplace, memory_of-emplace,
  emplace-AllSmall, widen,
}

module _ {W : Type 0} (disk : Disk W) (cfg : Config) where
  keep_file-Fits :
      (key : Bytes) (f : File) (s : State W) (n t : ℕ)
      → Fits cfg n t s.parts
      → in_memory_size f ≤ cfg.max_file_size_in_memory
      → t + in_memory_size f ≤ s.total
      → s.total ≤ cfg.max_files_size_in_memory
      → Fits cfg (suc n) s.total (keep_file disk cfg key f s).parts
  unfolding keep_file add_file
  keep_file-Fits key f s n t h k e c = record {
    few = omega (arith, h.few, length-emplace key f s.parts.files);
    small = emplace-AllSmall cfg key f s.parts.files h.small k;
    counted = omega (arith, h.counted, memory_of-emplace key f s.parts.files);
    capped = c;
  }

  save_to_disk-Fits :
      (h : Headers) (content : Bytes) (s : State W) (n : ℕ)
      → Fits cfg n s.total s.parts
      → StepKeeps cfg (suc n) (save_to_disk disk cfg h content s)
  unfolding save_to_disk give_up in_memory_size
  save_to_disk-Fits h content s n k =
      let (path, w) = disk.unique_path s.world in
      let (opened, w1) = disk.open_file path w in
      let (written, w2) = disk.write path content w1 in
      let f : File = record {
        name = h.file_name;
        content_type = h.content_type;
        content = temp_path path;
      } in
      if-split (StepKeeps cfg (suc n)) (not opened) (λ _. tt)
        (λ _.
          if-split (StepKeeps cfg (suc n)) (not written) (λ _. tt)
            (λ _.
              keep_file-Fits h.name f (record s { world = w2 }) n s.total k (omega arith)
                (omega arith) k.capped))

  -- A content that stays in memory is counted without wrapping.
  is_large-false :
      (len total : ℕ)
      → cfg.max_file_size_in_memory + cfg.max_files_size_in_memory < size_mod
      → total ≤ cfg.max_files_size_in_memory
      → is_large disk cfg len total ≡ false
      → (len ≤ cfg.max_file_size_in_memory)
        × (((total + len) % size_mod) ≡ total + len)
        × (total + len ≤ cfg.max_files_size_in_memory)
  unfolding is_large
  is_large-false len total b c e = ground arith

  store_file-Fits :
      (h : Headers) (content : Bytes) (s : State W) (n : ℕ)
      → cfg.max_file_size_in_memory + cfg.max_files_size_in_memory < size_mod
      → Fits cfg n s.total s.parts
      → StepKeeps cfg (suc n) (store_file disk cfg h content s)
  unfolding store_file in_memory_size
  store_file-Fits h content s n b k =
      if-split (StepKeeps cfg (suc n)) (is_large disk cfg (length content) s.total)
        (λ _. save_to_disk-Fits h content s n k)
        (λ e.
          let (small, same, within) = is_large-false (length content) s.total b k.capped e in
          keep_file-Fits h.name _ (record s { total = (s.total + length content) % size_mod }) n
            s.total k small (omega (arith, same)) (omega (arith, same, within)))

  store_part-Fits :
      (h : Headers) (content : Bytes) (s : State W) (n : ℕ)
      → cfg.max_file_size_in_memory + cfg.max_files_size_in_memory < size_mod
      → Fits cfg n s.total s.parts
      → StepKeeps cfg (suc n) (store_part disk cfg h content s)
  unfolding store_part
  store_part-Fits h content s n b k =
      if-split (StepKeeps cfg (suc n)) (is_empty h.name)
        (λ _. record {
          few = omega (arith, k.few);
          small = k.small;
          counted = k.counted;
          capped = k.capped;
        })
        (λ _.
          if-split (StepKeeps cfg (suc n)) (is_empty h.file_name)
            (λ _. record {
              few = omega (arith, k.few, length-emplace h.name content s.parts.fields);
              small = k.small;
              counted = k.counted;
              capped = k.capped;
            })
            (λ _. store_file-Fits h content s n b k))

  continue_at-Keeps :
      (rest : Bytes) (r : Step W) (n : ℕ)
      → StepKeeps cfg n r
      → StepKeeps cfg n (continue_at disk cfg rest r)
  unfolding continue_at
  continue_at-Keeps rest (stop o w) n h = h
  continue_at-Keeps rest (next s) n h = h

  read_content-Keeps :
      (h : Headers) (body : Bytes) (s : State W) (n : ℕ)
      → cfg.max_file_size_in_memory + cfg.max_files_size_in_memory < size_mod
      → Fits cfg n s.total s.parts
      → StepKeeps cfg (suc n) (read_content disk cfg h body s)
  unfolding read_content give_up
  read_content-Keeps h body s n b k = elim (Option-cases (find body (crlf_dash_boundary cfg))) [
    | inl e ↦ rw (StepKeeps, e) tt
    | inr (end, e) ↦
        rw (StepKeeps, e)
          (continue_at-Keeps _ _ (suc n) (store_part-Fits h (take end body) s n b k))
  ]

module _ {W : Type 0} (disk : Disk W) (cfg : Config) (iequals : Bytes → Bytes → Bool)
    (replace_all : Bytes → Bytes → Bytes → Bytes) where
  read_part-Keeps :
      (text : Bytes) (s : State W) (n : ℕ)
      → cfg.max_file_size_in_memory + cfg.max_files_size_in_memory < size_mod
      → Fits cfg n s.total s.parts
      → StepKeeps cfg (suc n) (read_part disk cfg iequals replace_all text s)
  unfolding read_part give_up
  read_part-Keeps text s n b k = elim (Option-cases (find text (codes "\r\n\r\n"))) [
    | inl e ↦ rw (StepKeeps, e) tt
    | inr (end, e) ↦ rw (StepKeeps, e) (read_content-Keeps disk cfg _ (drop (end + 4) text) s n b k)
  ]

  round-Keeps :
      (s : State W)
      → cfg.max_file_size_in_memory + cfg.max_files_size_in_memory < size_mod
      → Fits cfg cfg.max_parts_count s.total s.parts
      → StepKeeps cfg cfg.max_parts_count (round disk cfg iequals replace_all s)
  unfolding round after_boundary give_up
  round-Keeps s b k =
      if-split P (leb cfg.max_parts_count count) (λ _. tt)
        (λ few.
          if-split P (starts_with s.view (codes "--"))
            (λ _. (
              count,
              leb-false cfg.max_parts_count count few,
              record {
                few = omega arith;
                small = k.small;
                used = omega (arith, k.counted, k.capped);
              },
            ))
            (λ _.
              if-split P (not (starts_with s.view (codes "\r\n"))) (λ _. tt)
                (λ _.
                  widen cfg count (leb-false cfg.max_parts_count count few)
                    (read_part disk cfg iequals replace_all (drop 2 s.view) s)
                    (read_part-Keeps (drop 2 s.view) s count b (record {
                      few = omega arith;
                      small = k.small;
                      counted = k.counted;
                      capped = k.capped;
                    })))))
    where
      P : Step W → Type 0
      P = StepKeeps cfg cfg.max_parts_count

      count : ℕ
      count = length s.parts.fields + length s.parts.files

  rounds-Keeps :
      (left : ℕ) (s : State W)
      → cfg.max_file_size_in_memory + cfg.max_files_size_in_memory < size_mod
      → Fits cfg cfg.max_parts_count s.total s.parts
      → Keeps cfg (rounds disk cfg iequals replace_all left s).0
  unfolding rounds finish
  rounds-Keeps zero s b k = tt
  rounds-Keeps (suc left) s b k =
      after (λ q h. rounds-Keeps left q b h) (round disk cfg iequals replace_all s)
        (round-Keeps s b k)
    where
      after :
          ((q : State W)
            → Fits cfg cfg.max_parts_count q.total q.parts
            → Keeps cfg (rounds disk cfg iequals replace_all left q).0)
          → (r : Step W) → StepKeeps cfg cfg.max_parts_count r
          → Keeps cfg (finish r (λ q. rounds disk cfg iequals replace_all left q)).0
      after ih (stop o w) h = h
      after ih (next q) h = ih q h

  -- Where the two limits on memory together are below `2 ^ 64`, the parts of an accepted body are
  -- fewer than `m_max_parts_count`, no file in memory is larger than `m_max_file_size_in_memory`,
  -- and the files in memory take at most `m_max_files_size_in_memory` bytes together.
  pub parse-Keeps :
      (body : Bytes) (w : W)
      → cfg.max_file_size_in_memory + cfg.max_files_size_in_memory < size_mod
      → Keeps cfg (parse disk cfg iequals replace_all body w).0
  unfolding parse memory_of start
  parse-Keeps body w b =
      if-split (λ (r : Outcome × W). Keeps cfg r.0) (starts_with body (dash_boundary cfg))
        (λ _.
          rounds-Keeps max_iterations (start disk cfg body w) b
            (record { few = omega arith; small = tt; counted = omega arith; capped = omega arith }))
        (λ _. tt)
