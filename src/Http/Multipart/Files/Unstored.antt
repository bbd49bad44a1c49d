-- ===== src/Http/Multipart/Files/Unstored.antt =====
-- clueapi/http/multipart/detail/file_parser: what becomes of a part that is a file.
use clueapi.Base.{
  ℕ, zero, suc, ◌+◌, ◌%◌, ◌≤◌, ◌<◌, ◌≡◌, ◌⊎◌, ◌∙◌, refl, sym, ap, inl, inr, false, [], ◌∷◌, some,
  none, arith, length, take, Bool-cases, Option-cases, subst, ltb,
}
use clueapi.Base.Bytes.{Bytes, find, find-length, is_empty}
use clueapi.Base.Search.{find-longer}
use clueapi.Shared.Split.{size_mod}
use clueapi.Http.Multipart.{
  Config, Disk, File, in_memory, crlf_dash_boundary, part_boundary, part_read,
}
use clueapi.Http.Multipart.Headers.{Headers}
use clueapi.Http.Multipart.Files.{
  Source, Reader, view, remove_prefix, Result, value, exception, find_boundary, safe_chunk_size,
  refill, and_then,
}
use clueapi.Http.Multipart.Files.Storage.{
  vector, is_vector, write_chunk_to_storage, append_chunk, file_of, file_rounds, parse_file_part,
}
use clueapi.Http.Multipart.Files.Reading.{IsPlainFile, unread, IsSteady}
use clueapi.Http.Multipart.Files.Rounds.{
  reads_left, safe_chunk_size-before, found-running, refill-reads, safe_chunk_size_le,
}

some-same : {j i : ℕ} → some j ≡ some i → j ≡ i
some-same e = ground arith

full_take : (n : ℕ) (s : Bytes) → 0 < n → n ≤ length s → is_empty (take n s) ≡ false
unfolding is_empty
full_take zero s h k = absurd (omega arith)
full_take (suc n) [] h k = absurd (omega arith)
full_take (suc n) (x ∷ s) h k = refl

module _ {W : Type 0} (src : Source W) (disk : Disk W) (cfg : Config) (remaining : W → Bytes)
    (file : IsPlainFile src remaining) (size : 0 < cfg.chunk_size) where
  -- `in_memory` is not set while the storage is still the vector.
  write_chunk-throws :
      (chunk : Bytes) (n : ℕ) (r : Reader W)
      → is_empty chunk ≡ false
      → write_chunk_to_storage disk cfg (vector []) false chunk n r ≡ exception r
  unfolding write_chunk_to_storage append_chunk
  write_chunk-throws chunk n r h = rw (write_chunk_to_storage, h) refl

  -- Nothing is taken only of a view that is no longer than a boundary.
  short_view :
      (r : Reader W)
      → ltb 0 (safe_chunk_size src cfg r) ≡ false
      → length (view r) ≤ length (crlf_dash_boundary cfg)
  unfolding safe_chunk_size
  short_view r e = ground arith

  -- What a part becomes whose boundary is at a place of the text ahead.
  abbrev pub Becomes : Headers → Result W File → ℕ → Type 0
  Becomes h result zero =
      (q : Reader W) × (result
        ≡ value
            (record { name = h.file_name; content_type = h.content_type; content = in_memory [] })
            q)
  Becomes h result (suc i) = (q : Reader W) × (result ≡ exception q)

  thrown_at :
      (h : Headers) (i : ℕ) {result : Result W File} {q : Reader W}
      → 0 < i
      → result ≡ exception q
      → Becomes h result i
  thrown_at h zero k e = absurd (omega arith)
  thrown_at h (suc i) {q = q} k e = (q, e)

  round-found :
      (fuel : ℕ) (h : Headers) (r : Reader W) (i : ℕ)
      → find (view r) (crlf_dash_boundary cfg) ≡ some i
      → Becomes h (file_rounds src disk cfg (suc fuel) h (vector []) false 0 r) i
  unfolding file_rounds find_boundary and_then write_chunk_to_storage file_of is_vector is_empty
  round-found fuel h r zero e =
      let p = remove_prefix (0 + length (crlf_dash_boundary cfg)) r in
      (record p { total = (p.total + 0) % size_mod }, rw (file_rounds, e) refl)
  round-found fuel h r (suc i) e =
      let chunk = take (suc i) (view r) in
      (
        r,
        rw (file_rounds, e)
            (ap
              (λ x. and_then x (λ kept q.
                file_of disk cfg h kept (is_vector kept)
                  (remove_prefix (suc i + length (crlf_dash_boundary cfg)) q)))
              (write_chunk-throws chunk (0 + length chunk) r (
                full_take (suc i) (view r) (omega arith)
                  (omega (arith, find-length (view r) (crlf_dash_boundary cfg) e))))),
      )

  -- A round without a boundary in the view throws, or has taken nothing.
  round-gone :
      (fuel : ℕ) (h : Headers) (r : Reader W)
      → r.eof_reached ≡ false
      → find (view r) (crlf_dash_boundary cfg) ≡ none
      → ((0 < safe_chunk_size src cfg r)
          × (file_rounds src disk cfg (suc fuel) h (vector []) false 0 r ≡ exception r))
        ⊎ ((q : Reader W) × (file_rounds src disk cfg (suc fuel) h (vector []) false 0 r
              ≡ file_rounds src disk cfg fuel h (vector []) false 0 q)
            × (unread src cfg remaining q ≡ unread src cfg remaining r)
            × IsSteady src cfg remaining q
            × (reads_left src cfg remaining file size q < reads_left src cfg remaining file size r))
  unfolding file_rounds find_boundary and_then
  round-gone fuel h r running gone =
      let n = safe_chunk_size src cfg r in
      let chunk = take n (view r) in
      elim (Bool-cases (ltb 0 n)) [
        | inl e ↦ inl (
          ground (arith, e),
          rw (file_rounds, gone, e)
              (ap
                (λ x. and_then x (λ kept q.
                  and_then (refill src cfg part_boundary part_read (remove_prefix n q)) (λ _ p.
                    file_rounds src disk cfg fuel h kept (is_vector kept) (0 + length chunk) p)))
                (write_chunk-throws chunk (0 + length chunk) r (
                  full_take n (view r) (ground arith)
                    (safe_chunk_size_le src cfg remaining file size r)))),
        )
        | inr e ↦
            let (q, step, same, steady, fewer) =
              refill-reads src cfg remaining file size part_boundary part_read r running
                (short_view r e) in
            inr (
              q,
              rw (file_rounds, gone, e)
                  (ap
                    (λ x. and_then x (λ _ p. file_rounds src disk cfg fuel h (vector []) false 0 p))
                    step),
              same,
              steady,
              fewer,
            )
      ]

  file_rounds-found :
      (fuel : ℕ) (h : Headers) (r : Reader W) {i : ℕ}
      → IsSteady src cfg remaining r
      → reads_left src cfg remaining file size r ≤ fuel
      → find (unread src cfg remaining r) (crlf_dash_boundary cfg) ≡ some i
      → Becomes h (file_rounds src disk cfg fuel h (vector []) false 0 r) i
  file_rounds-found zero h r steady b found = ground arith
  file_rounds-found (suc fuel) h r {i = i} steady b found =
      let P = Becomes h (file_rounds src disk cfg (suc fuel) h (vector []) false 0 r) in
      elim (Option-cases (find (view r) (crlf_dash_boundary cfg))) [
        | inr (j, e) ↦
            subst P
              (some-same
                (sym (find-longer (view r) (remaining r.world) (crlf_dash_boundary cfg) e) ∙ found))
              (round-found fuel h r j e)
        | inl gone ↦
            let before = safe_chunk_size-before src cfg remaining file size r gone found in
            elim (round-gone fuel h r
              (found-running src cfg remaining file size r steady gone found) gone) [
                | inl (taken, e) ↦ thrown_at h i (omega (arith, taken, before)) e
                | inr (q, e, same, calm, fewer) ↦
                    subst (λ x. Becomes h x i) (sym e)
                      (file_rounds-found fuel h q calm (omega (arith, b, fewer))
                        (ap (λ t. find t (crlf_dash_boundary cfg)) same ∙ found))
              ]
      ]

  -- A defect: of a plain file, whatever chunks it is read in, a part that is a file is taken only if
  -- it is empty; the bytes of any other part make the parser throw. As many rounds as bytes remain in
  -- the file, and two, are enough.
  pub parse_file_part-throws :
      (fuel : ℕ) (h : Headers) (r : Reader W) {i : ℕ}
      → IsSteady src cfg remaining r
      → reads_left src cfg remaining file size r ≤ fuel
      → find (unread src cfg remaining r) (crlf_dash_boundary cfg) ≡ some i
      → Becomes h (parse_file_part src disk cfg fuel h r) i
  unfolding parse_file_part
  parse_file_part-throws fuel h r steady b found = file_rounds-found fuel h r steady b found
