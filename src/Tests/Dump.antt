-- ===== src/Tests/Dump.antt =====
-- The theorems on the dump of a command (cmd.c) at concrete values.
use yar.Base.{ℕ, ◌≡◌, refl, [], ◌++◌, arith, length-replicate}
use yar.State.{Sys, Cmd}
use yar.Monad.{ok, stop, undefined}
use yar.Cmd.Dump.{dump_buf}
use yar.Cmd.Dump.Shown.{dumped, oldest_first, dump_buf-shows, dump_buf-undefined}
use yar.Tests.{start, talker}

-- 4000 bytes have come in behind a full buffer; 96 are between the oldest byte and the end.
abbrev late_talker : Cmd
late_talker = record talker { bufn = 8096 }

dump_buf-shows_example :
    (s' : Sys) × (dump_buf late_talker start ≡ ok tt s')
    × (dumped s'.calls ≡ dumped [] ++ oldest_first late_talker.buf 8096)
dump_buf-shows_example = dump_buf-shows late_talker start (length-replicate {A = ℕ} 4096 0) refl

-- One byte more than the buffer holds.
abbrev round_talker : Cmd
round_talker = record talker { bufn = 4097 }

dump_buf-undefined_example : (s' : Sys) × (dump_buf round_talker start ≡ stop undefined s')
dump_buf-undefined_example = dump_buf-undefined round_talker start (omega arith) (omega arith)
