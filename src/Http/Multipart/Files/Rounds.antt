-- ===== src/Http/Multipart/Files/Rounds.antt =====
-- clueapi/http/multipart/detail/file_parser: a round of the loops over a part, on a plain file.
use clueapi.Base.{
  ℕ, suc, ◌+◌, ◌≤◌, ◌<◌, ◌≡◌, ◌⊎◌, ◌∙◌, sym, ap, inl, inr, true, false, ◌++◌, some, none, arith,
  length, take, drop, append-nil, drop-drop, drop-longer, if◌then◌else◌, leb, length-drop,
}
use clueapi.Base.Bytes.{Bytes, find}
use clueapi.Base.Search.{find-beyond}
use clueapi.Http.Multipart.{Config, crlf_dash_boundary, Error, field_boundary, field_read}
use clueapi.Http.Multipart.Files.{
  Source, Reader, view, remove_prefix, Result, value, error, and_then, read_more, ReadState,
  e_error, safe_chunk_size, find_boundary, refill, field_rounds,
}
use clueapi.Http.Multipart.Files.Reading.{IsPlainFile, unread, IsSteady, read_more-steps}

none-some : {i : ℕ} → none ≡ some i → ⊥
none-some e = ground arith

module _ {W : Type 0} (src : Source W) (cfg : Config) (remaining : W → Bytes)
    (file : IsPlainFile src remaining) (size : 0 < cfg.chunk_size) where
  -- The rounds that the reads still ahead can take.
  abbrev pub reads_left : Reader W → ℕ
  reads_left r = if r.eof_reached then 1 else length (remaining r.world) + 2

  view-remove_prefix : (n : ℕ) (r : Reader W) → view (remove_prefix n r) ≡ drop n (view r)
  unfolding remove_prefix
  view-remove_prefix n r = sym (drop-drop r.processed n r.buffer)

  pub safe_chunk_size_le : (r : Reader W) → safe_chunk_size src cfg r ≤ length (view r)
  unfolding safe_chunk_size
  safe_chunk_size_le r = ground arith

  pub unread-remove_prefix :
      (n : ℕ) (r : Reader W)
      → n ≤ length (view r)
      → unread src cfg remaining (remove_prefix n r) ≡ drop n (unread src cfg remaining r)
  unfolding remove_prefix
  unread-remove_prefix n r h =
      ap (λ t. t ++ remaining r.world) (view-remove_prefix n r)
      ∙ sym (drop-longer n (view r) (remaining r.world) h)

  -- Behind a safe chunk the view is no longer than a boundary.
  pub view-safe :
      (r : Reader W)
      → length (view (remove_prefix (safe_chunk_size src cfg r) r))
        ≤ length (crlf_dash_boundary cfg)
  unfolding safe_chunk_size
  view-safe r = ground (
    arith,
    ap length (view-remove_prefix (safe_chunk_size src cfg r) r),
    length-drop (safe_chunk_size src cfg r) (view r),
  )

  pub refill-ended :
      (missing unread_error : Error) (r : Reader W)
      → r.eof_reached ≡ true
      → refill src cfg missing unread_error r ≡ error missing r
  unfolding refill
  refill-ended missing unread_error r ended =
      let more : Result W (Unit {0}) = elim (read_more src cfg r).0 [
        | e_error ↦ error unread_error (read_more src cfg r).1
        | _ ↦ value tt (read_more src cfg r).1
      ] in
      ap
        (λ b.
          if b
          then error missing r
          else if leb (length (view r)) (length (crlf_dash_boundary cfg))
          then more
          else value tt r)
        ended

  fewer_left :
      (r q : Reader W)
      → r.eof_reached ≡ false
      → (q.eof_reached ≡ true)
        ⊎ ((q.eof_reached ≡ false) × (length (remaining q.world) < length (remaining r.world)))
      → reads_left q < reads_left r
  fewer_left r q running h = ground arith

  -- The file goes on: a round without a boundary in the view reads more.
  pub refill-reads :
      (missing unread_error : Error) (r : Reader W)
      → r.eof_reached ≡ false
      → length (view r) ≤ length (crlf_dash_boundary cfg)
      → (q : Reader W) × (refill src cfg missing unread_error r ≡ value tt q)
        × (unread src cfg remaining q ≡ unread src cfg remaining r)
        × IsSteady src cfg remaining q
        × (reads_left q < reads_left r)
  unfolding refill
  refill-reads missing unread_error r running short =
      let (q, e, same, steady, fewer) = read_more-steps src cfg remaining r file size running in
      let again = leb (length (view r)) (length (crlf_dash_boundary cfg)) in
      let more : Result W (Unit {0}) = elim (read_more src cfg r).0 [
        | e_error ↦ error unread_error (read_more src cfg r).1
        | _ ↦ value tt (read_more src cfg r).1
      ] in
      let fits : again ≡ true = ground (arith, short) in
      let ran : refill src cfg missing unread_error r ≡ value tt q =
        ap (λ b. if b then error missing r else if again then more else value tt r) running
        ∙ ap (λ b. if b then more else value tt r) fits
        ∙ ap
            (λ (p : ReadState × Reader W). elim p.0 as (λ _. Result W (Unit {0})) [
              | e_error ↦ error unread_error p.1
              | _ ↦ value tt p.1
            ])
            e in
      (q, ran, same, steady, fewer_left r q running fewer)

  -- A boundary that is ahead and not in the view lies behind the safe chunk.
  pub safe_chunk_size-before :
      (r : Reader W) {i : ℕ}
      → find (view r) (crlf_dash_boundary cfg) ≡ none
      → find (unread src cfg remaining r) (crlf_dash_boundary cfg) ≡ some i
      → safe_chunk_size src cfg r ≤ i
  unfolding safe_chunk_size
  safe_chunk_size-before r gone found =
      ground (arith, find-beyond (view r) (remaining r.world) (crlf_dash_boundary cfg) gone found)

  -- A boundary that is ahead and not in the view is in what the file still holds.
  pub found-running :
      (r : Reader W) {i : ℕ}
      → IsSteady src cfg remaining r
      → find (view r) (crlf_dash_boundary cfg) ≡ none
      → find (unread src cfg remaining r) (crlf_dash_boundary cfg) ≡ some i
      → r.eof_reached ≡ false
  found-running r (inl running) gone found = running
  found-running r (inr empty) gone found =
      let same : unread src cfg remaining r ≡ view r =
        ap (λ t. view r ++ t) empty ∙ append-nil (view r) in
      absurd (none-some (sym gone ∙ sym (ap (λ t. find t (crlf_dash_boundary cfg)) same) ∙ found))

  -- A round without a boundary takes the safe chunk, and reads on.
  pub field_rounds-reads :
      (fuel : ℕ) (acc : Bytes) (r : Reader W)
      → r.eof_reached ≡ false
      → find (view r) (crlf_dash_boundary cfg) ≡ none
      → (q : Reader W) × (field_rounds src cfg (suc fuel) acc r
          ≡ field_rounds src cfg fuel (acc ++ take (safe_chunk_size src cfg r) (view r)) q)
        × (unread src cfg remaining q
            ≡ drop (safe_chunk_size src cfg r) (unread src cfg remaining r))
        × IsSteady src cfg remaining q
        × (reads_left q < reads_left r)
  unfolding field_rounds find_boundary and_then remove_prefix
  field_rounds-reads fuel acc r running gone =
      let n = safe_chunk_size src cfg r in
      let (q, e, same, steady, fewer) =
        refill-reads field_boundary field_read (remove_prefix n r) running (view-safe r) in
      (
        q,
        rw (field_rounds, gone)
            (ap (λ x. and_then x (λ _ p. field_rounds src cfg fuel (acc ++ take n (view r)) p)) e),
        same ∙ unread-remove_prefix n r (safe_chunk_size_le r),
        steady,
        fewer,
      )
