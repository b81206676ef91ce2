-- ===== src/Tests/Output.antt =====
-- The theorems on a command's output (cmd.c) at concrete values.
use yar.Base.{
  join, ◌<◌, ℕ, ◌≡◌, refl, some, List, [], ◌∷◌, ◌+◌, arith, replicate, if◌then◌else◌, ◌==◌,
}
use yar.State.{Cmd, Sys}
use yar.Monad.{ok}
use yar.Cmd.Ring.{line_chunks, store}
use yar.Cmd.Ring.Refine.{Holds, line_tail, line_chunks-line_tail, store-Holds}
use yar.Cmd.Output.{process_char, match_ready, next_readycnt}
use yar.Cmd.Output.Lines.{LineInv, Relaying}
use yar.Cmd.Output.Relay.{LineStep, process_char-LineStep}
use yar.Cmd.Output.Ready.{Matched, match_ready-Matched}
use yar.Cmd.Output.Stream.{process_all, Streamed, process_all-Streamed}
use yar.Cmd.Output.Missed.{match_all, match_all-missed}
use yar.Tests.{one_ready, quiet, ready_talker, start, talker, waiting}

nothing-Holds : Holds (replicate 4096 0) []
nothing-Holds = record { size = refl; holds = λ k lt. absurd (omega arith) }

line_chunks-line_tail_example :
    join (line_chunks (store (replicate 4096 0) 0 b'a') 0 0 0) ≡ line_tail (b'a' ∷ []) 0
line_chunks-line_tail_example =
    line_chunks-line_tail 0 0 (store-Holds nothing-Holds b'a') (omega arith) (omega arith, refl)

talker-LineInv : LineInv talker []
talker-LineInv = record { holds = nothing-Holds; count = refl; line = (omega arith, refl) }

talker-Relaying : Relaying talker (b'>' ∷ []) start
talker-Relaying = record {
  matched = refl;
  clt_opens = λ e. cc;
  clt_writes = record { all = λ h bs. refl };
  quiet = refl;
  bcst = record { opens = λ e. cc; writes = record { all = λ h bs. refl } };
  apart = refl;
  broadcast = refl;
  buffered = refl;
  bcst_prefix = refl;
  prefix_len = refl;
}

process_char-LineStep_example :
    (n : ℕ) × (t : Cmd) × (s' : Sys) × (process_char talker b'\n' start ≡ ok (some n, t) s')
    × LineStep talker [] b'\n' (b'>' ∷ []) start t s'
process_char-LineStep_example =
    process_char-LineStep talker [] b'\n' (b'>' ∷ []) start talker-Relaying talker-LineInv
      (omega arith)

match_ready-run : match_ready talker b'$' waiting ≡ ok ready_talker one_ready
unfolding match_ready next_readycnt
match_ready-run = refl

match_ready-Matched_example :
    Matched (b'$' ∷ []) (b'a' ∷ b'$' ∷ []) 1
    × (ready_talker ≡ record talker { readycnt = 1 })
    × (1 ≡ 0 + (if 1 == 1 then 1 else 0))
match_ready-Matched_example =
    match_ready-Matched talker ready_talker b'$' (b'$' ∷ []) (b'a' ∷ []) waiting one_ready refl refl
      (omega arith) (record { within = omega arith; before = b'a' ∷ []; ends = refl })
      match_ready-run

-- Two lines, the second not complete.
abbrev two_lines : List ℕ
two_lines = b'a' ∷ b'\n' ∷ b'b' ∷ []

process_all-Streamed_example :
    (t : Cmd) × (s' : Sys) × (process_all talker two_lines start ≡ ok t s')
    × Streamed talker [] two_lines (b'>' ∷ []) start t s'
process_all-Streamed_example =
    process_all-Streamed talker [] two_lines (b'>' ∷ []) start talker-Relaying talker-LineInv
      (omega arith)

-- A state that waits for the ready string "ab", and the output "aab".
abbrev waiting_ab : Sys
waiting_ab = record start {
  g = record quiet { cmds = talker ∷ []; readystr = some (b'a' ∷ b'b' ∷ []); readystrlen = 2 };
}

match_all-run : match_all talker (b'a' ∷ b'a' ∷ b'b' ∷ []) waiting_ab ≡ ok talker waiting_ab
unfolding match_all match_ready next_readycnt
match_all-run = refl

match_all-missed_example : talker.readycnt < 2
match_all-missed_example =
    match_all-missed talker talker b'a' b'b' [] waiting_ab waiting_ab (omega arith) refl refl refl
      match_all-run
