-- ===== src/Http/Multipart/Files/Fields.antt =====
-- clueapi/http/multipart/detail/file_parser: a text field is read up to its boundary, whatever the
-- chunks are that the file comes in.
use clueapi.Base.{
  ℕ, zero, suc, ◌+◌, ◌-◌, ◌≤◌, ◌<◌, ◌≡◌, ◌∙◌, sym, ap, inl, inr, true, [], ◌++◌, some, none, Option,
  arith, length, take, drop, append_assoc, drop-drop, take-longer, take-take-drop, Bool-cases,
  Option-cases, subst,
}
use clueapi.Base.Bytes.{Bytes, find, find-length}
use clueapi.Base.Search.{find-longer, find-later, find-drop-none, find-append-none}
use clueapi.Http.Multipart.{Config, crlf_dash_boundary, field_boundary, field_read}
use clueapi.Http.Multipart.Files.{
  Source, Reader, view, remove_prefix, Result, value, error, find_boundary, safe_chunk_size,
  field_rounds, parse_field_part, and_then,
}
use clueapi.Http.Multipart.Files.Reading.{IsPlainFile, unread, IsSteady}
use clueapi.Http.Multipart.Files.Rounds.{
  reads_left, unread-remove_prefix, safe_chunk_size_le, safe_chunk_size-before, found-running,
  field_rounds-reads, refill-ended,
}

same_place : {j i : ℕ} → some j ≡ some i → j ≡ i
same_place e = ground arith

module _ {W : Type 0} (src : Source W) (cfg : Config) (remaining : W → Bytes)
    (file : IsPlainFile src remaining) (size : 0 < cfg.chunk_size) where
  -- The field ends at the boundary at `i` of what is unread.
  abbrev pub Ends : Result W Bytes → Bytes → ℕ → Reader W → Type 0
  Ends result acc i r =
      (q : Reader W) × (result ≡ value (acc ++ take i (unread src cfg remaining r)) q)
      × (unread src cfg remaining q
          ≡ drop (i + length (crlf_dash_boundary cfg)) (unread src cfg remaining r))
      × IsSteady src cfg remaining q

  -- The boundary is in the view.
  round-found :
      (fuel : ℕ) (acc : Bytes) (r : Reader W) {i : ℕ}
      → IsSteady src cfg remaining r
      → find (view r) (crlf_dash_boundary cfg) ≡ some i
      → Ends (field_rounds src cfg (suc fuel) acc r) acc i r
  unfolding field_rounds find_boundary remove_prefix
  round-found fuel acc r {i = i} steady e =
      let b = crlf_dash_boundary cfg in
      let within = find-length (view r) b e in
      let cut : take i (unread src cfg remaining r) ≡ take i (view r) =
        take-longer i (view r) (remaining r.world) (omega (arith, within)) in
      (
        remove_prefix (i + length b) r,
        rw (field_rounds, e)
            (ap (λ t. value (acc ++ t) (remove_prefix (i + length b) r)) (sym cut)),
        unread-remove_prefix src cfg remaining file size (i + length b) r within,
        steady,
      )

  -- What was taken before a further read, and what is taken behind it.
  joined :
      (acc : Bytes) (r q : Reader W) {n i : ℕ}
      → n ≤ length (view r)
      → n ≤ i
      → unread src cfg remaining q ≡ drop n (unread src cfg remaining r)
      → (acc ++ take n (view r)) ++ take (i - n) (unread src cfg remaining q)
        ≡ acc ++ take i (unread src cfg remaining r)
  joined acc r q {n = n} {i = i} h k e =
      append_assoc acc (take n (view r)) (take (i - n) (unread src cfg remaining q))
      ∙ ap (λ t. acc ++ (t ++ take (i - n) (unread src cfg remaining q)))
          (sym (take-longer n (view r) (remaining r.world) h))
      ∙ ap (λ t. acc ++ (take n (unread src cfg remaining r) ++ take (i - n) t)) e
      ∙ ap (λ t. acc ++ t) (take-take-drop n i (unread src cfg remaining r) k)

  field_rounds-found :
      (fuel : ℕ) (acc : Bytes) (r : Reader W) {i : ℕ}
      → IsSteady src cfg remaining r
      → reads_left src cfg remaining file size r ≤ fuel
      → find (unread src cfg remaining r) (crlf_dash_boundary cfg) ≡ some i
      → Ends (field_rounds src cfg fuel acc r) acc i r
  field_rounds-found zero acc r steady h found = ground arith
  field_rounds-found (suc fuel) acc r {i = i} steady h found =
      let b = crlf_dash_boundary cfg in
      let n = safe_chunk_size src cfg r in
      elim (Option-cases (find (view r) b)) [
        | inr (j, e) ↦
            let same : j ≡ i =
              same_place (sym (find-longer (view r) (remaining r.world) b e) ∙ found) in
            subst (λ k. Ends (field_rounds src cfg (suc fuel) acc r) acc k r) same
              (round-found fuel acc r steady e)
        | inl gone ↦
            let running = found-running src cfg remaining file size r steady gone found in
            let before = safe_chunk_size-before src cfg remaining file size r gone found in
            let total : n + (i - n + length b) ≡ i + length b = omega (arith, before) in
            let (q, step, rest, calm, fewer) =
              field_rounds-reads src cfg remaining file size fuel acc r running gone in
            let (p, result, tail, end) =
              field_rounds-found fuel (acc ++ take n (view r)) q {i = i - n} calm
                (omega (arith, h, fewer))
                (ap (λ t. find t b) rest
                  ∙ find-later n (unread src cfg remaining r) b found before) in
            (
              p,
              step
                  ∙ result
                  ∙ ap (λ t. value t p)
                      (joined acc r q (safe_chunk_size_le src cfg remaining file size r) before
                        rest),
              tail
                  ∙ ap (drop (i - n + length b)) rest
                  ∙ drop-drop n (i - n + length b) (unread src cfg remaining r)
                  ∙ ap (λ k. drop k (unread src cfg remaining r)) total,
              end,
            )
      ]

  -- The end of the file is seen, and no boundary is in the view.
  round-ended :
      (fuel : ℕ) (acc : Bytes) (r : Reader W)
      → r.eof_reached ≡ true
      → find (view r) (crlf_dash_boundary cfg) ≡ none
      → (q : Reader W) × (field_rounds src cfg (suc fuel) acc r ≡ error field_boundary q)
  unfolding field_rounds find_boundary and_then remove_prefix
  round-ended fuel acc r ended gone =
      let n = safe_chunk_size src cfg r in
      (
        remove_prefix n r,
        rw (field_rounds, gone)
            (ap (λ x. and_then x (λ _ p. field_rounds src cfg fuel (acc ++ take n (view r)) p))
              (refill-ended src cfg remaining file size field_boundary field_read
                (remove_prefix n r) ended)),
      )

  field_rounds-missing :
      (fuel : ℕ) (acc : Bytes) (r : Reader W)
      → reads_left src cfg remaining file size r ≤ fuel
      → find (unread src cfg remaining r) (crlf_dash_boundary cfg) ≡ none
      → (q : Reader W) × (field_rounds src cfg fuel acc r ≡ error field_boundary q)
  field_rounds-missing zero acc r h missing = ground arith
  field_rounds-missing (suc fuel) acc r h missing =
      let b = crlf_dash_boundary cfg in
      let gone = find-append-none (view r) (remaining r.world) b missing in
      elim (Bool-cases r.eof_reached) [
        | inl ended ↦ round-ended fuel acc r ended gone
        | inr running ↦
            let (q, step, rest, calm, fewer) =
              field_rounds-reads src cfg remaining file size fuel acc r running gone in
            let (p, result) =
              field_rounds-missing fuel (acc ++ take (safe_chunk_size src cfg r) (view r)) q
                (omega (arith, h, fewer))
                (ap (λ t. find t b) rest
                  ∙ find-drop-none (safe_chunk_size src cfg r) (unread src cfg remaining r) b
                      missing) in
            (p, step ∙ result)
      ]

  -- The value up to the boundary, or the error where there is none.
  abbrev pub IsFieldOf : Result W Bytes → Reader W → Option ℕ → Type 0
  IsFieldOf result r none = (q : Reader W) × (result ≡ error field_boundary q)
  IsFieldOf result r (some i) = Ends result [] i r

  -- Of a plain file, whatever chunks of at least a byte it is read in, a field is what stands before
  -- the first boundary that is ahead, and the parser goes on behind that boundary; without a boundary
  -- ahead it ends with its error. As many rounds as bytes remain in the file, and two, are enough.
  pub parse_field_part-reads :
      (fuel : ℕ) (r : Reader W)
      → IsSteady src cfg remaining r
      → reads_left src cfg remaining file size r ≤ fuel
      → IsFieldOf
          (parse_field_part src cfg fuel r)
          r
          (find (unread src cfg remaining r) (crlf_dash_boundary cfg))
  unfolding parse_field_part
  parse_field_part-reads fuel r steady h =
      elim (Option-cases (find (unread src cfg remaining r) (crlf_dash_boundary cfg))) [
        | inl e ↦
            subst (IsFieldOf (field_rounds src cfg fuel [] r) r) (sym e)
              (field_rounds-missing fuel [] r h e)
        | inr (i, e) ↦
            subst (IsFieldOf (field_rounds src cfg fuel [] r) r) (sym e)
              (field_rounds-found fuel [] r steady h e)
      ]
