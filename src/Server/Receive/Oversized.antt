-- ===== src/Server/Receive/Oversized.antt =====
-- clueapi/server/client/detail/request_handler: a body for a file, where a chunk is larger than the limit of
-- the buffer.
use clueapi.Base.{
  ℕ, suc, ◌-◌, ◌<◌, ◌≡◌, refl, ap, inl, inr, true, false, arith, length, take, drop, ltb, ◌==◌,
  Bool-cases, if-split, length-take, drop_beyond,
}
use clueapi.Base.Bytes.{Bytes, is_empty}
use clueapi.Http.Multipart.{Disk}
use clueapi.Server.Receive.{
  Peer, Limits, Session, Handled, result, internal_server_error, stream_rounds, stream_handle,
  with_buffer,
}

-- The handler answers with an error of the server.
abbrev pub IsServerError : {W : Type 0} → Handled W → Type 0
IsServerError {W = W} h = (q : Session W) × (h ≡ result internal_server_error q)

larger : (m n : ℕ) → m < n → ltb m n ≡ true
larger m n h = ground arith

module _ {W : Type 0} (peer : Peer W) (disk : Disk W) (cfg : Limits) where
  -- With nothing in the buffer, and bytes to come, `prepare` throws.
  read-IsServerError :
      (fuel remaining : ℕ) (path : Bytes) (s : Session W)
      → (remaining == 0) ≡ false
      → is_empty s.client.buffer ≡ true
      → s.client.max_size < cfg.chunk_size
      → IsServerError (stream_rounds peer disk cfg (suc fuel) path remaining s)
  unfolding stream_rounds
  read-IsServerError fuel remaining path s e empty h =
      (s, rw (stream_rounds, e, empty, larger s.client.max_size cfg.chunk_size h) refl)

  left_over :
      (remaining : ℕ) (b : Bytes)
      → length b < remaining
      → ((remaining - length (take remaining b) == 0) ≡ false)
        × (is_empty (drop remaining b) ≡ true)
  unfolding is_empty
  left_over remaining b h = (
    ground (arith, h, length-take remaining b),
    ap is_empty (drop_beyond remaining b (omega (arith, h, (length-take remaining b).1))),
  )

  rounds-IsServerError :
      (fuel remaining : ℕ) (path : Bytes) (s : Session W)
      → length s.client.buffer < remaining
      → s.client.max_size < cfg.chunk_size
      → IsServerError (stream_rounds peer disk cfg (suc (suc fuel)) path remaining s)
  unfolding stream_rounds
  rounds-IsServerError fuel remaining path s more h =
      let some_left : (remaining == 0) ≡ false = ground (arith, more) in
      elim (Bool-cases (is_empty s.client.buffer)) [
        | inl empty ↦ read-IsServerError (suc fuel) remaining path s some_left empty h
        | inr full ↦
            let b = s.client.buffer in
            let (written, w) = disk.write path (take remaining b) s.world in
            let (left, gone) = left_over remaining b more in
            elim (Bool-cases written) [
              | inl e ↦
                  let (q, done) =
                    read-IsServerError fuel (remaining - length (take remaining b)) path
                      (with_buffer (drop remaining b) s.client.capacity w s) left gone h in
                  (q, rw (stream_rounds, some_left, full, e) done)
              | inr e ↦ (record s { world = w }, rw (stream_rounds, some_left, full, e) refl)
            ]
      ]

  -- A defect: where a chunk is larger than the limit of the client's buffer, a body of which not all is in the
  -- buffer yet is answered with an error of the server, whatever the peer sends.
  pub stream_handle-IsServerError :
      (fuel content_length : ℕ) (path : Bytes) (s : Session W)
      → length s.client.buffer < content_length
      → s.client.max_size < cfg.chunk_size
      → IsServerError (stream_handle peer disk cfg (suc (suc fuel)) path content_length s)
  unfolding stream_handle
  stream_handle-IsServerError fuel content_length path s more h =
      if-split (IsServerError {W = W}) (disk.open_file path s.world).0
        (λ _.
          rounds-IsServerError fuel content_length path
            (record s { world = (disk.open_file path s.world).1 }) more h)
        (λ _. (_, refl))
