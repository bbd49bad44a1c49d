-- ===== src/Modules/Logging/Overflow.antt =====
-- clueapi/modules/logging: what a logger keeps when messages come in faster than they are printed.
use clueapi.Base.{
  ℕ, zero, suc, ◌+◌, ◌-◌, ◌≤◌, ◌<◌, ◌≡◌, refl, sym, ap, ◌∙◌, inl, inr, true, false, List, [], ◌∷◌,
  ◌++◌, append_assoc, append-nil, Option, none, some, length, length-append, length-drop, drop, All,
  arith, Bool-cases, leb,
}
use clueapi.Base.Bytes.{Bytes}
use clueapi.Modules.Logging.{rank, LogMsg, MsgBuffer, Logger, push, pop, handle_overflow, log}

-- The last `n` of the messages.
pub newest : ℕ → List LogMsg → List LogMsg
newest n ms = drop (length ms - n) ms

-- The calls of `log`, one message after the other.
unfoldable pub log_all : (LogMsg → Option Bytes) → List LogMsg → Logger → Logger
log_all format [] l = l
log_all format (m ∷ ms) l = log_all format ms (log format m l)

drop-append_left : (n : ℕ) (a b : List LogMsg) → n ≤ length a → drop n (a ++ b) ≡ drop n a ++ b
drop-append_left zero a b h = refl
drop-append_left (suc n) [] b h = absurd (omega arith)
drop-append_left (suc n) (x ∷ a) b h = drop-append_left n a b (omega arith)

-- The buffer behind a call of `log`.
take_in : LogMsg → MsgBuffer → MsgBuffer
take_in m b = elim (push m b) [ some c ↦ c | none ↦ handle_overflow m b ]

take_in-newest :
    (m : LogMsg) (size : ℕ) (ms : List LogMsg)
    → 0 < size
    → length ms ≤ size
    → take_in m (record { capacity = size; buf = ms })
      ≡ record { capacity = size; buf = newest size (ms ++ m ∷ []) }
unfolding take_in push handle_overflow pop newest
take_in-newest m size [] pos room = ground arith
take_in-newest m size (x ∷ ms) pos room = elim (Bool-cases (leb size (suc (length ms)))) [
  | inr free ↦
      let fits : suc (length (ms ++ m ∷ [])) - size ≡ 0 =
        ground (arith, length-append ms (m ∷ []), free) in
      ground (arith, free, fits)
  | inl full ↦
      let one_over : suc (length (ms ++ m ∷ [])) - size ≡ 1 =
        ground (arith, length-append ms (m ∷ []), full) in
      let room_again : leb size (length ms) ≡ false = ground (arith, room, full) in
      ground (arith, full, one_over, room_again)
]

-- One message: it is put behind the others, and the oldest goes if the buffer is full.
log-newest :
    (format : LogMsg → Option Bytes) (m : LogMsg) (l : Logger)
    → l.async_mode ≡ true
    → rank l.least ≤ rank m.level
    → 0 < l.buffer.capacity
    → length l.buffer.buf ≤ l.buffer.capacity
    → log format m l ≡ record l {
      buffer = record (l.buffer) { buf = newest l.buffer.capacity (l.buffer.buf ++ m ∷ []) };
    }
unfolding log take_in
log-newest format m l mode level pos room =
    ground (arith, mode, level, take_in-newest m l.buffer.capacity l.buffer.buf pos room)

abbrev no_messages : List LogMsg
no_messages = []

drop_nil : (n : ℕ) → drop n [] ≡ no_messages
drop_nil zero = refl
drop_nil (suc n) = refl

drop-drop : (j k : ℕ) (ms : List LogMsg) → drop j (drop k ms) ≡ drop (k + j) ms
drop-drop j zero ms = ap (λ (n : ℕ). drop n ms) (omega arith)
drop-drop j (suc k) [] = drop_nil j ∙ sym (drop_nil (suc k + j))
drop-drop j (suc k) (x ∷ ms) =
    let sum : suc k + j ≡ suc (k + j) = omega arith in
    drop-drop j k ms ∙ ap (λ (n : ℕ). drop n (x ∷ ms)) (sym sum)

newest-append : (n : ℕ) (a b : List LogMsg) → newest n (newest n a ++ b) ≡ newest n (a ++ b)
unfolding newest
newest-append n a b =
    let k = length a - n in
    let rest : length (drop k (a ++ b)) ≡ length a + length b - k =
      omega (arith, length-drop k (a ++ b), length-append a b) in
    let all : k + (length (drop k (a ++ b)) - n) ≡ length (a ++ b) - n =
      omega (arith, rest, length-append a b) in
    rw (sym (drop-append_left k a b (omega arith)))
      (drop-drop (length (drop k (a ++ b)) - n) k (a ++ b) ∙ ap (λ (i : ℕ). drop i (a ++ b)) all)

newest-bound : (n : ℕ) (ms : List LogMsg) → length (newest n ms) ≤ n
unfolding newest
newest-bound n ms = omega (arith, length-drop (length ms - n) ms)

newest_all : (n : ℕ) (ms : List LogMsg) → length ms ≤ n → newest n ms ≡ ms
unfolding newest
newest_all n ms h = let nothing : length ms - n ≡ 0 = omega arith in rw nothing refl

-- An asynchronous logger with room for one message at least keeps the newest of the messages that it
-- takes, as many as it has room for, in their order.
pub log_all-newest :
    (format : LogMsg → Option Bytes) (ms : List LogMsg) (l : Logger)
    → l.async_mode ≡ true
    → All (λ m. rank l.least ≤ rank m.level) ms
    → 0 < l.buffer.capacity
    → length l.buffer.buf ≤ l.buffer.capacity
    → (log_all format ms l).buffer.buf ≡ newest l.buffer.capacity (l.buffer.buf ++ ms)
unfolding log_all
log_all-newest format [] l mode levels pos room =
    rw (append-nil l.buffer.buf) (sym (newest_all l.buffer.capacity l.buffer.buf room))
log_all-newest format (m ∷ ms) l mode levels pos room =
    let size = l.buffer.capacity in
    let kept = newest size (l.buffer.buf ++ m ∷ []) in
    let next : Logger = record l { buffer = record (l.buffer) { buf = kept } } in
    ap (λ (x : Logger). (log_all format ms x).buffer.buf)
      (log-newest format m l mode levels.0 pos room)
    ∙ log_all-newest format ms next mode levels.1 pos (newest-bound size (l.buffer.buf ++ m ∷ []))
    ∙ newest-append size (l.buffer.buf ++ m ∷ []) ms
    ∙ ap (newest size) (append_assoc l.buffer.buf (m ∷ []) ms)
