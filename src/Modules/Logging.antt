-- ===== src/Modules/Logging.antt =====
-- clueapi/modules/logging: the buffer of a logger, and the console logger. The locks and the
-- condition that wakes the worker thread are left out: each call is one step.
pub mod Overflow
pub mod Order
pub mod Tests
use clueapi.Base.{
  ℕ, zero, suc, Bool, true, false, not, List, [], ◌∷◌, ◌++◌, Option, none, some, length, take, drop,
  ltb, leb, if◌then◌else◌,
}
use clueapi.Base.Bytes.{Bytes}

-- `e_log_level`
pub data LogLevel : Type 0 where
  trace debug info warning error critical off : LogLevel

unfoldable pub rank : LogLevel → ℕ
rank trace = 0
rank debug = 1
rank info = 2
rank warning = 3
rank error = 4
rank critical = 5
rank off = 6

-- `log_msg_t`, with the ticks of its time.
pub record LogMsg : Type 0 where
  pub msg : Bytes
  pub level : LogLevel
  pub time : ℕ

-- `m_capacity` and `m_buf`
pub record MsgBuffer : Type 0 where
  pub capacity : ℕ
  pub buf : List LogMsg

unfoldable pub pop : MsgBuffer → Option (LogMsg × MsgBuffer)
pop b = elim b.buf [ [] ↦ none | msg ∷ rest ↦ some (msg, record b { buf = rest }) ]

-- `none` hands the message back.
unfoldable pub push : LogMsg → MsgBuffer → Option MsgBuffer
push msg b =
    if leb b.capacity (length b.buf) then none else some (record b { buf = b.buf ++ msg ∷ [] })

-- `reserve` gives the capacity that it is asked for, so the loop moves so many messages.
unfoldable pub get_batch : ℕ → MsgBuffer → List LogMsg × MsgBuffer
get_batch size b = (take size b.buf, record b { buf = drop size b.buf })

-- The parameters of a logger that are read here, its buffer, and what it has printed.
pub record Logger : Type 0 where
  pub least : LogLevel
  pub batch_size : ℕ
  pub async_mode : Bool
  pub buffer : MsgBuffer
  pub printed : Bytes

unfoldable pub handle_overflow : LogMsg → MsgBuffer → MsgBuffer
unfolding push pop
handle_overflow msg b = elim b.buf [
  | [] ↦ elim (push msg b) [ none ↦ b | some c ↦ c ]
  | _ ∷ _ ↦ elim (pop b) [ none ↦ b | some (_, c) ↦ elim (push msg c) [ none ↦ c | some d ↦ d ] ]
]

-- `format` puts a message into the buffer of the output, or fails.
module _ (format : LogMsg → Option Bytes) where
  unfoldable pub log : LogMsg → Logger → Logger
  unfolding rank handle_overflow
  log msg l =
      if ltb (rank msg.level) (rank l.least)
      then l
      else if l.async_mode
      then elim (push msg l.buffer) [
        | some b ↦ record l { buffer = b }
        | none ↦ record l { buffer = handle_overflow msg l.buffer }
      ]
      else elim (format msg) [ none ↦ l | some text ↦ record l { printed = l.printed ++ text } ]

  -- The texts of a batch; `none` where one message cannot be formatted.
  unfoldable pub format_all : List LogMsg → Option Bytes
  format_all [] = some []
  format_all (msg ∷ ms) = elim (format msg) [
    | none ↦ none
    | some text ↦ elim (format_all ms) [ none ↦ none | some rest ↦ some (text ++ rest) ]
  ]

  -- A batch that has a message which cannot be formatted is lost.
  unfoldable pub process : Logger → Logger
  unfolding get_batch format_all
  process l =
      let (batch, b) = get_batch l.batch_size l.buffer in
      elim batch [
        | [] ↦ record l { buffer = b }
        | m ∷ ms ↦ elim (format_all (m ∷ ms)) [
          | none ↦ record l { buffer = b }
          | some text ↦ record l { buffer = b; printed = l.printed ++ text }
        ]
      ]
