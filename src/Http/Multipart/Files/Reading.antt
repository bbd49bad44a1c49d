-- ===== src/Http/Multipart/Files/Reading.antt =====
-- clueapi/http/multipart/detail/file_parser: what a read of a plain file does to the bytes that are
-- still ahead of the parser.
use clueapi.Base.{
  ℕ, ◌<◌, ◌≡◌, ◌⊎◌, ◌∙◌, refl, ap, inl, inr, true, false, [], ◌++◌, arith, length, append_assoc,
  length-append, if◌then◌else◌, empty-cases,
}
use clueapi.Base.Bytes.{Bytes}
use clueapi.Http.Multipart.{Config}
use clueapi.Http.Multipart.Files.{
  Source, Reader, view, read_more, front_buffer, e_success, e_eof, got, eof,
}

-- A source that reads a file without errors: `remaining` is what a world still holds of it. A read
-- at the end reports the end and gives nothing, and any other read gives a byte at least.
pub record IsPlainFile {W : Type 0} (src : Source W) (remaining : W → Bytes) : Type 0 where
  pub at_end :
      (n : ℕ) (w : W)
      → remaining w ≡ []
      → ((src.read_some n w).0 ≡ [])
        × ((src.read_some n w).1.0 ≡ eof)
        × (remaining (src.read_some n w).1.1 ≡ [])
  pub ahead :
      (n : ℕ) (w : W)
      → 0 < n
      → 0 < length (remaining w)
      → (0 < length (src.read_some n w).0)
        × ((src.read_some n w).1.0 ≡ got)
        × ((src.read_some n w).0 ++ remaining (src.read_some n w).1.1 ≡ remaining w)

module _ {W : Type 0} (src : Source W) (cfg : Config) (remaining : W → Bytes) where
  -- The bytes that the parser has not processed.
  abbrev pub unread : Reader W → Bytes
  unread r = view r ++ remaining r.world

  -- The end was seen only where nothing remains.
  abbrev pub IsSteady : Reader W → Type 0
  IsSteady r = (r.eof_reached ≡ false) ⊎ (remaining r.world ≡ [])

  front_buffer-view : (r : Reader W) → front_buffer src cfg r ≡ view r
  unfolding front_buffer
  front_buffer-view r = ground arith

  moved :
      (r : Reader W) (b m : Bytes)
      → b ++ m ≡ remaining r.world
      → (front_buffer src cfg r ++ b) ++ m ≡ unread r
  moved r b m e =
      append_assoc (front_buffer src cfg r) b m
      ∙ ap (λ t. front_buffer src cfg r ++ t) e
      ∙ ap (λ t. t ++ remaining r.world) (front_buffer-view r)

  shorter : (b m t : Bytes) → 0 < length b → b ++ m ≡ t → length m < length t
  shorter b m t h e = omega (arith, length-append b m, ap length e)

  -- A read at the end changes nothing but the flag; any other read moves bytes into the view.
  pub read_more-steps :
      (r : Reader W)
      → IsPlainFile src remaining
      → 0 < cfg.chunk_size
      → r.eof_reached ≡ false
      → (q : Reader W) × (read_more src cfg r ≡ (e_success, q))
        × (unread q ≡ unread r)
        × IsSteady q
        × ((q.eof_reached ≡ true)
            ⊎ ((q.eof_reached ≡ false) × (length (remaining q.world) < length (remaining r.world))))
  unfolding read_more
  read_more-steps r file size running = elim (empty-cases (remaining r.world)) [
    | inl e ↦
        let (none_read, ended, rest) = file.at_end cfg.chunk_size r.world e in
        let q : Reader W = record r {
          buffer = front_buffer src cfg r ++ (src.read_some cfg.chunk_size r.world).0;
          processed = 0;
          eof_reached = true;
          world = (src.read_some cfg.chunk_size r.world).1.1;
        } in
        (
          q,
          rw (read_more, ended) (ap (λ b. if b then (e_eof, r) else (e_success, q)) running),
          moved r _ _ (rw (none_read, rest, e) refl),
          inr rest,
          inl refl,
        )
    | inr h ↦
        let (some_read, going, rest) = file.ahead cfg.chunk_size r.world size h in
        let q : Reader W = record r {
          buffer = front_buffer src cfg r ++ (src.read_some cfg.chunk_size r.world).0;
          processed = 0;
          world = (src.read_some cfg.chunk_size r.world).1.1;
        } in
        (
          q,
          rw (read_more, going) (ap (λ b. if b then (e_eof, r) else (e_success, q)) running),
          moved r _ _ rest,
          inl running,
          inr (running, shorter _ _ _ some_read rest),
        )
  ]
