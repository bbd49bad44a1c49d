-- ===== src/Server/Receive/Stream.antt =====
-- clueapi/server/client/detail/request_handler: the body that goes into a file.
use clueapi.Base.{
  ℕ, zero, suc, ◌+◌, ◌-◌, ◌*◌, ◌≤◌, ◌<◌, ◌≡◌, ◌∙◌, refl, sym, ap, inl, inr, true, false, [], ◌∷◌,
  ◌++◌, arith, length, ltb, take, drop, ◌==◌, ==_iff, if◌then◌else◌, Bool-cases, append_assoc,
  append-nil, length-append, take-longer, drop-longer, take-take-drop, drop-drop, length-drop,
  length-take, take-length-take, drop-length-take, drop_beyond, subst,
}
use clueapi.Base.Bytes.{Bytes, is_empty}
use clueapi.Http.Multipart.{Disk}
use clueapi.Server.Receive.{
  Peer, Limits, Session, Handled, result, success, internal_server_error, stream_rounds,
  stream_handle, with_buffer, keep_path,
}

-- A peer that sends `incoming` in pieces of a byte at least, and a disk that takes what is written.
pub record IsPlainStream {W : Type 0} (peer : Peer W) (disk : Disk W) (incoming : W → Bytes)
    (stored : Bytes → W → Bytes) : Type 0 where
  pub early : (n : ℕ) (w : W) → (peer.read_some n w).late ≡ false
  pub splits :
      (n : ℕ) (w : W)
      → (peer.read_some n w).value ++ incoming (peer.read_some n w).world ≡ incoming w
  pub moves :
      (n : ℕ) (w : W) → 0 < n → 0 < length (incoming w) → 0 < length (peer.read_some n w).value
  pub read_keeps :
      (n : ℕ) (w : W) (path : Bytes) → stored path (peer.read_some n w).world ≡ stored path w
  pub takes : (path b : Bytes) (w : W) → (disk.write path b w).0 ≡ true
  pub grows : (path b : Bytes) (w : W) → stored path (disk.write path b w).1 ≡ stored path w ++ b
  pub write_keeps : (path b : Bytes) (w : W) → incoming (disk.write path b w).1 ≡ incoming w

empty_iff : (s : Bytes) → is_empty s ≡ true → s ≡ []
unfolding is_empty
empty_iff [] h = refl
empty_iff (c ∷ s) h = ground arith

full_length : (s : Bytes) → is_empty s ≡ false → 0 < length s
unfolding is_empty
full_length [] h = ground arith
full_length (c ∷ s) h = omega arith

some_bytes : (s : Bytes) → 0 < length s → is_empty s ≡ false
unfolding is_empty
some_bytes [] h = absurd (omega arith)
some_bytes (c ∷ s) h = refl

nothing_empty : is_empty [] ≡ true
unfolding is_empty
nothing_empty = refl

fits_chunk : (n m : ℕ) → n ≤ m → ltb m n ≡ false
fits_chunk n m h = ground arith

module _ {W : Type 0} (peer : Peer W) (disk : Disk W) (cfg : Limits) (incoming : W → Bytes)
    (stored : Bytes → W → Bytes) (plain : IsPlainStream peer disk incoming stored)
    (size : 0 < cfg.chunk_size) where
  -- The bytes that the handler has not taken.
  abbrev pub untaken : Session W → Bytes
  untaken s = s.client.buffer ++ incoming s.world

  -- The rounds that are still needed.
  abbrev rounds_left : ℕ → Session W → ℕ
  rounds_left remaining s =
      if remaining == 0
      then 1
      else 2 * length (incoming s.world) + (if is_empty s.client.buffer then 1 else 2)

  -- The file has got the next bytes, and the rest is left.
  abbrev pub Copies : Bytes → ℕ → Session W → Handled W → Type 0
  Copies path remaining s h =
      (q : Session W) × (h ≡ result success (keep_path path q))
      × (stored path q.world ≡ stored path s.world ++ take remaining (untaken s))
      × (untaken q ≡ drop remaining (untaken s))

  rounds-end :
      (fuel : ℕ) (path : Bytes) (s : Session W)
      → Copies path 0 s (stream_rounds peer disk cfg (suc fuel) path 0 s)
  unfolding stream_rounds
  rounds-end fuel path s = (s, refl, sym (append-nil (stored path s.world)), refl)

  rounds-read :
      (fuel remaining : ℕ) (path : Bytes) (s : Session W)
      → (remaining == 0) ≡ false
      → is_empty s.client.buffer ≡ true
      → 0 < length (incoming s.world)
      → cfg.chunk_size ≤ s.client.max_size
      → (q : Session W) × (stream_rounds peer disk cfg (suc fuel) path remaining s
          ≡ stream_rounds peer disk cfg fuel path remaining q)
        × (stored path q.world ≡ stored path s.world)
        × (untaken q ≡ untaken s)
        × (rounds_left remaining q < rounds_left remaining s)
        × (q.client.max_size ≡ s.client.max_size)
  unfolding stream_rounds
  rounds-read fuel remaining path s some_left none_here more fits =
      let r = peer.read_some cfg.chunk_size s.world in
      let progress = plain.moves cfg.chunk_size s.world size more in
      let q = with_buffer r.value r.capacity r.world s in
      (
        q,
        rw
            (
              stream_rounds,
              some_left,
              none_here,
              fits_chunk cfg.chunk_size s.client.max_size fits,
              plain.early cfg.chunk_size s.world,
              some_bytes r.value progress,
            )
            refl,
        plain.read_keeps cfg.chunk_size s.world path,
        plain.splits cfg.chunk_size s.world
            ∙ sym (ap (λ b. b ++ incoming s.world) (empty_iff s.client.buffer none_here)),
        ground (
          arith,
          some_left,
          none_here,
          some_bytes r.value progress,
          progress,
          length-append r.value (incoming r.world),
          ap length (plain.splits cfg.chunk_size s.world),
        ),
        refl,
      )

  rounds-write :
      (fuel remaining : ℕ) (path : Bytes) (s : Session W)
      → (remaining == 0) ≡ false
      → is_empty s.client.buffer ≡ false
      → stream_rounds peer disk cfg (suc fuel) path remaining s
        ≡ stream_rounds peer disk cfg fuel path
            (remaining - length (take remaining s.client.buffer))
            (with_buffer
              (drop remaining s.client.buffer)
              s.client.capacity
              (disk.write path (take remaining s.client.buffer) s.world).1
              s)
  unfolding stream_rounds
  rounds-write fuel remaining path s some_left some_here =
      rw
        (
          stream_rounds,
          some_left,
          some_here,
          plain.takes path (take remaining s.client.buffer) s.world,
        )
        refl

  incoming_some :
      (remaining : ℕ) (s : Session W)
      → (remaining == 0) ≡ false
      → is_empty s.client.buffer ≡ true
      → remaining ≤ length (untaken s)
      → 0 < length (incoming s.world)
  incoming_some remaining s e empty h = ground (
    arith,
    e,
    h,
    length-append s.client.buffer (incoming s.world),
    ap length (empty_iff s.client.buffer empty),
  )

  -- The state behind a write.
  abbrev behind_write : Bytes → ℕ → Session W → Session W
  behind_write path remaining s =
      with_buffer (drop remaining s.client.buffer) s.client.capacity
        (disk.write path (take remaining s.client.buffer) s.world).1 s

  untaken-write :
      (path : Bytes) (remaining : ℕ) (s : Session W)
      → untaken (behind_write path remaining s)
        ≡ drop (length (take remaining s.client.buffer)) (untaken s)
  untaken-write path remaining s =
      let b = s.client.buffer in
      let n = length (take remaining b) in
      ap (λ t. drop remaining b ++ t) (plain.write_keeps path (take remaining b) s.world)
      ∙ ap (λ t. t ++ incoming s.world) (sym (drop-length-take remaining b))
      ∙ sym (drop-longer n b (incoming s.world) (length-take remaining b).1)

  taken-write :
      (path : Bytes) (remaining : ℕ) (s : Session W)
      → take remaining s.client.buffer
          ++ take
              (remaining - length (take remaining s.client.buffer))
              (drop (length (take remaining s.client.buffer)) (untaken s))
        ≡ take remaining (untaken s)
  taken-write path remaining s =
      let b = s.client.buffer in
      let n = length (take remaining b) in
      ap (λ t. t ++ take (remaining - n) (drop n (untaken s)))
        (sym (take-length-take remaining b)
          ∙ sym (take-longer n b (incoming s.world) (length-take remaining b).1))
      ∙ take-take-drop n remaining (untaken s) (length-take remaining b).0

  fewer-write :
      (path : Bytes) (remaining : ℕ) (s : Session W)
      → (remaining == 0) ≡ false
      → is_empty s.client.buffer ≡ false
      → rounds_left
          (remaining - length (take remaining s.client.buffer))
          (behind_write path remaining s)
        < rounds_left remaining s
  fewer-write path remaining s some_left some_here =
      let b = s.client.buffer in
      let n = length (take remaining b) in
      let same = ap length (plain.write_keeps path (take remaining b) s.world) in
      elim (Bool-cases (remaining - n == 0)) [
        | inl e ↦ ground (arith, e, some_left, some_here)
        | inr e ↦
            let gone : is_empty (drop remaining b) ≡ true =
              ap is_empty (drop_beyond remaining b (ground (arith, e))) ∙ nothing_empty in
            ground (arith, e, some_left, some_here, gone, same)
      ]

  stream_rounds-Copies :
      (fuel remaining : ℕ) (path : Bytes) (s : Session W)
      → rounds_left remaining s ≤ fuel
      → remaining ≤ length (untaken s)
      → cfg.chunk_size ≤ s.client.max_size
      → Copies path remaining s (stream_rounds peer disk cfg fuel path remaining s)
  stream_rounds-Copies zero remaining path s b h fits = ground arith
  stream_rounds-Copies (suc fuel) remaining path s b h fits = elim (Bool-cases (remaining == 0)) [
    | inl e ↦
        subst (λ n. Copies path n s (stream_rounds peer disk cfg (suc fuel) path n s))
          (sym ((==_iff remaining 0).0 e)) (rounds-end fuel path s)
    | inr e ↦ elim (Bool-cases (is_empty s.client.buffer)) [
      | inl empty ↦
          let (q, step, kept, same, fewer, limit) =
            rounds-read fuel remaining path s e empty (incoming_some remaining s e empty h) fits in
          let (p, done, file, rest) =
            stream_rounds-Copies fuel remaining path q (omega (arith, b, fewer))
              (omega (arith, h, ap length same)) (omega (arith, fits, limit)) in
          (
            p,
            step ∙ done,
            file
                ∙ ap (λ t. t ++ take remaining (untaken q)) kept
                ∙ ap (λ t. stored path s.world ++ take remaining t) same,
            rest ∙ ap (drop remaining) same,
          )
      | inr full ↦
          let c = take remaining s.client.buffer in
          let left = remaining - length c in
          let q = behind_write path remaining s in
          let same = untaken-write path remaining s in
          let (p, done, file, rest) =
            stream_rounds-Copies fuel left path q
              (omega (arith, b, fewer-write path remaining s e full))
              (omega (arith, h, ap length same, length-drop (length c) (untaken s))) fits in
          let total : length c + left ≡ remaining =
            omega (arith, (length-take remaining s.client.buffer).0) in
          (
            p,
            rounds-write fuel remaining path s e full ∙ done,
            file
                ∙ ap (λ t. t ++ take left (untaken q)) (plain.grows path c s.world)
                ∙ append_assoc (stored path s.world) c (take left (untaken q))
                ∙ ap (λ t. stored path s.world ++ (c ++ take left t)) same
                ∙ ap (λ t. stored path s.world ++ t) (taken-write path remaining s),
            rest
                ∙ ap (drop left) same
                ∙ drop-drop (length c) left (untaken s)
                ∙ ap (λ n. drop n (untaken s)) total,
          )
    ]
  ]

  -- From a peer that sends enough bytes, in whatever pieces, and into a file that opens, is empty and takes all
  -- bytes, where a chunk has bytes and is not larger than the limit of the client's buffer, the file gets exactly the bytes of the body, and what comes behind is left for the next request. Twice as
  -- many rounds as bytes are still to come, and two, are enough.
  pub stream_handle-copies :
      (fuel content_length : ℕ) (path : Bytes) (s : Session W)
      → (disk.open_file path s.world).0 ≡ true
      → stored path (disk.open_file path s.world).1 ≡ []
      → incoming (disk.open_file path s.world).1 ≡ incoming s.world
      → 2 * length (incoming s.world) + 2 ≤ fuel
      → content_length ≤ length (untaken s)
      → cfg.chunk_size ≤ s.client.max_size
      → (q : Session W) × (stream_handle peer disk cfg fuel path content_length s
          ≡ result success (keep_path path q))
        × (stored path q.world ≡ take content_length (untaken s))
        × (untaken q ≡ drop content_length (untaken s))
  unfolding stream_handle
  stream_handle-copies fuel content_length path s opens new same b h fits =
      let o : Session W = record s { world = (disk.open_file path s.world).1 } in
      let here : untaken o ≡ untaken s = ap (λ t. s.client.buffer ++ t) same in
      let (q, done, file, rest) =
        stream_rounds-Copies fuel content_length path o (ground (arith, b, ap length same))
          (omega (arith, h, ap length here)) fits in
      (
        q,
        ap
              (λ t.
                if t
                then stream_rounds peer disk cfg fuel path content_length o
                else result internal_server_error o)
              opens
            ∙ done,
        file ∙ ap (λ t. t ++ take content_length (untaken o)) new ∙ ap (take content_length) here,
        rest ∙ ap (drop content_length) here,
      )
