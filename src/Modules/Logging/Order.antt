-- ===== src/Modules/Logging/Order.antt =====
-- clueapi/modules/logging: what the worker prints of a logger's buffer, and in which order.
use clueapi.Base.{
  ℕ, zero, suc, ◌≤◌, ◌<◌, ◌≡◌, refl, sym, ap, ◌∙◌, inl, inr, List, [], ◌∷◌, ◌++◌, append_assoc,
  append-nil, Option, some, length, length-drop, take, drop, take-append-drop, arith, ◌⊎◌,
}
use clueapi.Base.Bytes.{Bytes}
use clueapi.Modules.Logging.{LogMsg, Logger, get_batch, format_all, process}

-- The texts of the messages, one behind the other.
pub texts : (LogMsg → Bytes) → List LogMsg → Bytes
texts text [] = []
texts text (m ∷ ms) = text m ++ texts text ms

-- The rounds of the worker.
pub process_times : ℕ → (LogMsg → Option Bytes) → Logger → Logger
process_times zero format l = l
process_times (suc n) format l = process_times n format (process format l)

texts-append :
    (text : LogMsg → Bytes) (a b : List LogMsg) → texts text (a ++ b) ≡ texts text a ++ texts text b
unfolding texts
texts-append text [] b = refl
texts-append text (m ∷ a) b =
    ap (◌++◌ (text m)) (texts-append text a b)
    ∙ sym (append_assoc (text m) (texts text a) (texts text b))

nothing_left : (ms : List LogMsg) → length ms ≤ 0 → ms ≡ []
nothing_left [] h = refl
nothing_left (m ∷ ms) h = absurd (omega arith)

module _ (format : LogMsg → Option Bytes) (text : LogMsg → Bytes) where
  format_all-texts :
      (ms : List LogMsg)
      → ((m : LogMsg) → format m ≡ some (text m))
      → format_all format ms ≡ some (texts text ms)
  unfolding format_all texts
  format_all-texts [] h = refl
  format_all-texts (m ∷ ms) h = ground (arith, h m, format_all-texts ms h)

  process-texts :
      (l : Logger)
      → ((m : LogMsg) → format m ≡ some (text m))
      → process format l ≡ record l {
        buffer = record (l.buffer) { buf = drop l.batch_size l.buffer.buf };
        printed = l.printed ++ texts text (take l.batch_size l.buffer.buf);
      }
  unfolding process get_batch texts
  process-texts l h = elim (list_cases (take l.batch_size l.buffer.buf)) [
    | inl e ↦ ground (arith, e, append-nil l.printed)
    | inr (m, ms, e) ↦ ground (arith, e, format_all-texts (m ∷ ms) h)
  ]
    where
      list_cases :
          (ms : List LogMsg) → (ms ≡ []) ⊎ ((m : LogMsg) × (rest : List LogMsg) × (ms ≡ m ∷ rest))
      list_cases [] = inl refl
      list_cases (m ∷ ms) = inr (m, ms, refl)

  -- Where every message can be formatted and a batch has one message at least, the worker prints all
  -- messages of the buffer, in the order in which they came in, within as many rounds as there are messages, and leaves the buffer empty.
  pub process_times-texts :
      (n : ℕ) (l : Logger)
      → ((m : LogMsg) → format m ≡ some (text m))
      → 0 < l.batch_size
      → length l.buffer.buf ≤ n
      → ((process_times n format l).printed ≡ l.printed ++ texts text l.buffer.buf)
        × ((process_times n format l).buffer.buf ≡ [])
  unfolding process_times texts
  process_times-texts zero l h some_room few =
      let nothing : l.buffer.buf ≡ [] = nothing_left l.buffer.buf few in
      (rw nothing (sym (append-nil l.printed)), nothing)
  process_times-texts (suc n) l h some_room few =
      let ms = l.buffer.buf in
      let next : Logger = record l {
        buffer = record (l.buffer) { buf = drop l.batch_size ms };
        printed = l.printed ++ texts text (take l.batch_size ms);
      } in
      let (prints, empties) =
        process_times-texts n next h some_room (omega (arith, length-drop l.batch_size ms)) in
      (
        ap (λ (x : Logger). (process_times n format x).printed) (process-texts l h)
            ∙ prints
            ∙ append_assoc l.printed _ _
            ∙ ap (◌++◌ l.printed) (
                sym (texts-append text (take l.batch_size ms) (drop l.batch_size ms))
                ∙ ap (texts text) (take-append-drop l.batch_size ms)),
        ap (λ (x : Logger). (process_times n format x).buffer.buf) (process-texts l h) ∙ empties,
      )
