-- ===== src/Http/Chunks.antt =====
-- clueapi/http/chunks: the writer of a chunked body, over a socket.
pub mod Laws
use clueapi.Base.{Bool, true, false, ◌++◌, List, [], ◌∷◌, length, ℕ, if◌then◌else◌}
use clueapi.Base.Bytes.{Bytes, codes}

abbrev pub crlf : Bytes
crlf = b'\r' ∷ b'\n' ∷ []

-- `k_final_chunk`
abbrev pub final_chunk : Bytes
final_chunk = b'0' ∷ b'\r' ∷ b'\n' ∷ b'\r' ∷ b'\n' ∷ []

-- `m_final_chunk_written` and `m_socket`; `m_buffer` is cleared before each use.
pub record Writer (S : Type 0) : Type 0 where
  pub final_chunk_written : Bool
  pub socket : S

-- What `write_chunk` puts into the buffer.
pub chunk_of : (ℕ → Bytes) → Bytes → Bytes
chunk_of format chunk = format (length chunk) ++ (crlf ++ (chunk ++ crlf))

-- `format` is `{:X}` of fmt, `async_write` the call of asio: the socket behind it, and whether it
-- wrote all bytes.
module _ (format : ℕ → Bytes) {S : Type 0} (async_write : Bytes → S → S × Bool) where
  unfoldable pub write_chunk : Bytes → Writer S → Writer S × Bool
  unfolding chunk_of
  write_chunk chunk w =
      let (s, ok) = async_write (chunk_of format chunk) (w.socket) in
      (record { final_chunk_written = w.final_chunk_written; socket = s }, ok)

  unfoldable pub write_final_chunk : Writer S → Writer S × Bool
  write_final_chunk w =
      if w.final_chunk_written
      then (w, true)
      else let (s, ok) = async_write final_chunk (w.socket) in
        (record { final_chunk_written = true; socket = s }, ok)

  -- The calls a handler makes: each chunk, and the final one; it stops where a write fails.
  unfoldable pub write_all : List Bytes → Writer S → Writer S × Bool
  unfolding write_chunk write_final_chunk
  write_all [] w = write_final_chunk w
  write_all (d ∷ ds) w =
      let (w', ok) = write_chunk d w in
      let rest = write_all ds w' in if ok then rest else (w', false)
