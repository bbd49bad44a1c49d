-- ===== src/Http/Chunks/Laws.antt =====
-- clueapi/http/chunks: the stream of a writer, and a reader of it.
use clueapi.Base.{
  ℕ, zero, suc, ◌+◌, ◌*◌, ◌<◌, ◌≡◌, refl, ap, sym, ◌∙◌, inl, inr, Bool-cases, Bool, true, false,
  List, [], ◌∷◌, ◌++◌, append-nil, append_assoc, Option, none, some, arith, length, take, drop, All,
  ◌==◌, if◌then◌else◌, take-append, drop-append,
}
use clueapi.Base.Bytes.{Bytes, codes, equal, equal_refl}
use clueapi.Http.Url.{hex_digit}
use clueapi.Http.Chunks.{
  crlf, final_chunk, Writer, chunk_of, write_chunk, write_final_chunk, write_all,
}

-- The size of a chunk, read up to the end of its line; `n` is what was read so far.
unfoldable pub read_size : ℕ → Bytes → Option (ℕ × Bytes)
read_size n [] = none
read_size n (c ∷ []) = none
read_size n (c ∷ d ∷ s) = elim (hex_digit c) [
  | some x ↦ read_size (16 * n + x) (d ∷ s)
  | none ↦ if c == b'\r' then (if d == b'\n' then some (n, s) else none) else none
]

-- The text is the size `n` in hexadecimal.
abbrev pub IsSize : ℕ → Bytes → Type 0
IsSize n text = (rest : Bytes) → read_size 0 (text ++ (crlf ++ rest)) ≡ some (n, rest)

-- A reader of RFC 9112: chunks up to the one of size 0; what follows that is left over.
pub decode : ℕ → Bytes → Option (Bytes × Bytes)
unfolding read_size
decode zero s = none
decode (suc fuel) s = elim (read_size 0 s) [
  | none ↦ none
  | some (zero, rest) ↦ if equal (take 2 rest) crlf then some ([], drop 2 rest) else none
  | some (suc n, rest) ↦
      (if equal (take 2 (drop (suc n) rest)) crlf
        then elim (decode fuel (drop 2 (drop (suc n) rest))) [
          | none ↦ none
          | some (body, left) ↦ some (take (suc n) rest ++ body, left)
        ]
        else none)
]

pub concat : List Bytes → Bytes
concat [] = []
concat (d ∷ ds) = d ++ concat ds

chunk_of-append :
    (format : ℕ → Bytes) (d rest : Bytes)
    → chunk_of format d ++ rest ≡ format (length d) ++ (crlf ++ (d ++ (crlf ++ rest)))
unfolding chunk_of
chunk_of-append format d rest =
    append_assoc (format (length d)) (crlf ++ (d ++ crlf)) rest
    ∙ ap (λ (x : Bytes). format (length d) ++ (crlf ++ x)) (append_assoc d crlf rest)

-- The reader takes one chunk of data off the front.
decode-chunk :
    (format : ℕ → Bytes) (fuel : ℕ) (c : ℕ) (d rest : Bytes) {body left : Bytes}
    → IsSize (length (c ∷ d)) (format (length (c ∷ d)))
    → decode fuel rest ≡ some (body, left)
    → decode (suc fuel) (chunk_of format (c ∷ d) ++ rest) ≡ some ((c ∷ d) ++ body, left)
unfolding decode
decode-chunk format fuel c d rest h e = rw (chunk_of-append format (c ∷ d) rest) (
    ground (
      arith,
      e,
      h ((c ∷ d) ++ (crlf ++ rest)),
      drop-append d (crlf ++ rest),
      take-append d (crlf ++ rest),
      equal_refl crlf,
    ))

-- What the calls of `write_all` put on the wire.
stream : (ℕ → Bytes) → List Bytes → Bytes
stream format [] = final_chunk
stream format (d ∷ ds) = chunk_of format d ++ stream format ds

-- Each piece has some bytes, and its size is written as a hexadecimal number.
abbrev pub IsPiece : (ℕ → Bytes) → Bytes → Type 0
IsPiece format d = (0 < length d) × IsSize (length d) (format (length d))

decode_final : (left : Bytes) → decode 1 (final_chunk ++ left) ≡ some ([], left)
unfolding decode read_size hex_digit equal
decode_final left = refl

decode-stream :
    (format : ℕ → Bytes) (ds : List Bytes) (left : Bytes)
    → All (IsPiece format) ds
    → decode (suc (length ds)) (stream format ds ++ left) ≡ some (concat ds, left)
unfolding stream concat
decode-stream format [] left h = decode_final left
decode-stream format ([] ∷ ds) left h = ground (arith, h.0)
decode-stream format ((c ∷ d) ∷ ds) left h =
    rw (append_assoc (chunk_of format (c ∷ d)) (stream format ds) left) (
      decode-chunk format (suc (length ds)) c d (stream format ds ++ left) h.0.1
        (decode-stream format ds left h.1))

module _ (format : ℕ → Bytes) {S : Type 0} (async_write : Bytes → S → S × Bool) (sent : S → Bytes)
    (appends : (b : Bytes) (s : S)
      → (async_write b s).1 ≡ true
      → sent (async_write b s).0 ≡ sent s ++ b) where
  write_all-sent :
      (ds : List Bytes) (w : Writer S)
      → w.final_chunk_written ≡ false
      → (write_all format async_write ds w).1 ≡ true
      → sent (write_all format async_write ds w).0.socket ≡ sent w.socket ++ stream format ds
  unfolding write_all write_chunk write_final_chunk stream
  write_all-sent [] w fresh ok = ground (arith, appends final_chunk w.socket)
  write_all-sent (d ∷ ds) w fresh ok = ground (
    arith,
    appends (chunk_of format d) w.socket,
    append_assoc (sent w.socket) (chunk_of format d) (stream format ds),
    write_all-sent ds (write_chunk format async_write d w).0,
  )

  -- From a fresh writer on, if every write succeeds and each piece has bytes and a size that is
  -- written in hexadecimal, the reader decodes the pieces that were written, joined, and is left with
  -- nothing.
  pub write_all-decode :
      (ds : List Bytes) (w : Writer S)
      → All (IsPiece format) ds
      → w.final_chunk_written ≡ false
      → sent w.socket ≡ []
      → (write_all format async_write ds w).1 ≡ true
      → decode (suc (length ds)) (sent (write_all format async_write ds w).0.socket)
        ≡ some (concat ds, [])
  write_all-decode ds w pieces fresh start ok =
      rw (write_all-sent ds w fresh ok, start, sym (append-nil (stream format ds)))
        (decode-stream format ds [] pieces)

  -- A defect: a piece without bytes that is written first, with success and with its size as `0`,
  -- ends the body for the reader, which leaves what is written later; yet the writer's flag does not
  -- change.
  pub write_chunk_empty :
      (w : Writer S) (left : Bytes)
      → format 0 ≡ codes "0"
      → sent w.socket ≡ []
      → (write_chunk format async_write [] w).1 ≡ true
      → ((write_chunk format async_write [] w).0.final_chunk_written ≡ w.final_chunk_written)
        × (decode 1 (sent (write_chunk format async_write [] w).0.socket ++ left) ≡ some ([], left))
  unfolding write_chunk chunk_of
  write_chunk_empty w left digit start ok =
      (refl, rw (appends (chunk_of format []) w.socket ok, start, digit) (decode_final left))

-- A second call of `write_final_chunk` leaves the writer and its socket as they are, and succeeds.
pub write_final_chunk-twice :
    (format : ℕ → Bytes) {S : Type 0} (async_write : Bytes → S → S × Bool) (w : Writer S)
    → let w' = (write_final_chunk format async_write w).0 in
      write_final_chunk format async_write w' ≡ (w', true)
unfolding write_final_chunk
write_final_chunk-twice format async_write w = elim (Bool-cases w.final_chunk_written) [
  | inl e ↦ ground (arith, e)
  | inr e ↦ ground (arith, e)
]
