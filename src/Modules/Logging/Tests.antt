-- ===== src/Modules/Logging/Tests.antt =====
-- clueapi/modules/logging at a logger with room for two messages: tests, and the instances of the
-- theorems.
use clueapi.Base.{◌≡◌, refl, true, List, [], ◌∷◌, ◌++◌, Option, some, arith}
use clueapi.Base.Bytes.{Bytes, codes}
use clueapi.Modules.Logging.{
  LogLevel, LogMsg, Logger, rank, push, pop, handle_overflow, get_batch, format_all, log, process,
}
use clueapi.Modules.Logging.Overflow.{newest, log_all, log_all-newest}
use clueapi.Modules.Logging.Order.{texts, process_times, process_times-texts}

abbrev message : Bytes → LogMsg
message text = record { msg = text; level = LogLevel.info; time = 0 }

abbrev text_of : LogMsg → Bytes
text_of m = m.msg

abbrev format : LogMsg → Option Bytes
format m = some (m.msg)

abbrev logger : Logger
logger = record {
  least = LogLevel.debug;
  batch_size = 1;
  async_mode = true;
  buffer = record { capacity = 2; buf = [] };
  printed = [];
}

abbrev three : List LogMsg
three = message (codes "a") ∷ message (codes "b") ∷ message (codes "c") ∷ []

keeps_two :
    (log_all format three logger).buffer.buf ≡ message (codes "b") ∷ message (codes "c") ∷ []
unfolding log_all log rank push pop handle_overflow
keeps_two = refl

prints_one : (process format (log format (message (codes "a")) logger)).printed ≡ codes "a"
unfolding process log rank push get_batch format_all
prints_one = refl

log_all-newest_example : (log_all format three logger).buffer.buf ≡ newest 2 ([] ++ three)
unfolding rank
log_all-newest_example =
    log_all-newest format three logger refl (ground arith) (ground arith) (ground arith)

process_times-texts_example :
    ((process_times 3 format
        (record logger { buffer = record { capacity = 4; buf = three } })).printed
      ≡ [] ++ texts text_of three)
    × ((process_times 3 format
          (record logger { buffer = record { capacity = 4; buf = three } })).buffer.buf
        ≡ [])
process_times-texts_example =
    process_times-texts format text_of 3
      (record logger { buffer = record { capacity = 4; buf = three } }) (λ m. refl) (ground arith)
      (ground arith)
