-- ===== src/Tests/Commands.antt =====
-- The theorems on commands, specifications, the monitor and the loop (cmd.c, main.c) at concrete
-- values.
use yar.Base.{
  codes, ◌++◌, str_eq_refl, ap, ℕ, ◌≡◌, refl, ◌≢◌, ◌⊎◌, true, false, some, none, List, [], ◌∷◌, ◌+◌,
  In, first, later, if◌then◌else◌,
}
use yar.Kernel.{
  pos, sigterm, sigquit, signal_read_call, epoll_add_call, set_cloexec_call, pidfd_open_call,
  fork_call, close_call, inq_call, outq_call, poll_call,
}
use yar.State.{Cmd, Sys, sig_desc}
use yar.Monad.{ok, stop, undefined}
use yar.Evnts.{Evnts, hdlr_success, hdlr_exit_loop}
use yar.Tty.{tty_cleanup, close_if_open, unlink_link, tty_idle}
use yar.Cmd.Output.{is_ready, dec_cmds_ready_cnt}
use yar.Cmd.Stop.{in_use, cmd_stop, clear_ready, cmd_cleanup}
use yar.Cmd.Stop.Outcome.{StopOutcome, cmd_stop-Outcome, clear_ready-counts}
use yar.Cmd.Dump.{dump_if}
use yar.Spec.{cmdspec_parse, Spec, unless_empty, parse_delay}
use yar.Spec.RoundTrip.{plain, spec_text, behind_check, cmdspec_parse-spec_text, cmdspec_parse_lem}
use yar.Spec.{parse_delay}
use yar.Monad.{stop}
use yar.Loop.Signal.{the_loop-signal}
use yar.Loop.{goes_on, run_batch, handle, the_loop, ready, left}
use yar.Loop.Exit.{LeftBy, the_loop-LeftBy}
use yar.Sig.{sig_event, sig_rc, term_signals}
use yar.Sig.Terms.{sig_rc-term_signals}
use yar.Mon.Commands.{do_del, delete_found}
use yar.Mon.Commands.Dangling.{at_most_once, do_del-undefined}
use yar.Registry.Table.{absent}
use yar.Registry.{
  find_name, on_cmd_, load_cmd, save_cmd, del_cmd, exit_if_idle, find_addr, replace, remove,
}
use yar.Bcst.{bcst_read}
use yar.Mon.Table.{mon_cmds, find_mon_cmd}
use yar.Mon.Table.Words.{has_no_null, named_well, Finds, find_mon_cmd-Finds}
use yar.Tests.{idle_cmd, one_ready, quiet, ready_talker, start, talker, waiting, willing}

clear_ready-run : clear_ready ready_talker one_ready ≡ ok talker waiting
unfolding clear_ready dec_cmds_ready_cnt
clear_ready-run = refl

clear_ready-counts_example :
    (is_ready waiting.g talker ≡ false)
    × (0 + (if is_ready one_ready.g ready_talker then 1 else 0) ≡ 1)
clear_ready-counts_example =
    clear_ready-counts ready_talker talker one_ready waiting (λ e. cc) clear_ready-run

-- Its client tty is open, so a stop that is not forced is refused.
cmd_stop-run : cmd_stop talker (some 12) false start ≡ ok (false, talker) start
unfolding cmd_stop in_use tty_idle
cmd_stop-run = refl

cmd_stop-Outcome_example : StopOutcome talker talker false false start start
cmd_stop-Outcome_example =
    cmd_stop-Outcome talker talker (some 12) false false start start cmd_stop-run

-- What the dump of `talker` asks the kernel.
abbrev dumped_talker : Sys
dumped_talker = record start {
  calls =
      outq_call (some 0)
      ∷ inq_call (some 0)
      ∷ outq_call (some 5)
      ∷ inq_call (some 5)
      ∷ outq_call (some 0)
      ∷ inq_call (some 0)
      ∷ outq_call (some 6)
      ∷ inq_call (some 6)
      ∷ poll_call (some 11)
      ∷ [];
}

-- "n,,,,c" and what it is parsed to.
abbrev text : List ℕ
text = b'n' ∷ b',' ∷ b',' ∷ b',' ∷ b',' ∷ b'c' ∷ []

abbrev parsed : Spec
parsed = record { name = b'n' ∷ []; ttylink = none; log = none; delay = pos 0; cmdline = b'c' ∷ [] }

n-plain : plain (b'n' ∷ []) ≡ true
unfolding plain
n-plain = refl

nil-plain : plain [] ≡ true
unfolding plain
nil-plain = refl

no_delay : parse_delay [] (behind_check [] start) ≡ ok (some (pos 0)) (behind_check [] start)
unfolding parse_delay
no_delay = refl

cmdspec_parse-run : cmdspec_parse text start ≡ ok (some parsed) (behind_check [] start)
cmdspec_parse-run =
    cmdspec_parse-spec_text (b'n' ∷ []) [] [] [] b'c' [] (pos 0) start (behind_check [] start)
      n-plain nil-plain nil-plain nil-plain refl no_delay

cmdspec_parse-spec_text_example :
    cmdspec_parse (spec_text (b'n' ∷ []) [] [] [] (b'c' ∷ [])) start
    ≡ ok (some parsed) (behind_check [] start)
cmdspec_parse-spec_text_example =
    cmdspec_parse-spec_text (b'n' ∷ []) [] [] [] b'c' [] (pos 0) start (behind_check [] start)
      n-plain nil-plain nil-plain nil-plain refl no_delay

cmdspec_parse_lem_example :
    (link : List ℕ) × (log : List ℕ) × (delay : List ℕ) × (text
      ≡ spec_text (b'n' ∷ []) link log delay (b'c' ∷ []))
    × (plain (b'n' ∷ []) ≡ true)
    × (plain link ≡ true)
    × (plain log ≡ true)
    × (plain delay ≡ true)
    × (parsed.cmdline ≢ [])
    × (none ≡ unless_empty link)
    × (none ≡ unless_empty log)
    × (willing.stat [] (unless_empty link) ≡ false)
    × (parse_delay delay (behind_check link start) ≡ ok (some (pos 0)) (behind_check [] start))
cmdspec_parse_lem_example =
    cmdspec_parse_lem text parsed start (behind_check [] start) cmdspec_parse-run

abbrev readable : Evnts
readable = record { ein = true; hup = false; rdhup = false; err = false; other = false }

abbrev told : Sys
told = record start { calls = signal_read_call ∷ [] }

the_loop-run :
    the_loop (some 2) (ready ((sig_desc, readable) ∷ []) ∷ []) start ≡ ok (left true) told
unfolding the_loop run_batch handle sig_event sig_rc
the_loop-run = refl

the_loop-LeftBy_example : LeftBy (ready ((sig_desc, readable) ∷ []) ∷ []) (left true)
the_loop-LeftBy_example =
    the_loop-LeftBy (some 2) (ready ((sig_desc, readable) ∷ []) ∷ []) start told (left true)
      the_loop-run

sigterm-In : In sigterm term_signals
unfolding term_signals
sigterm-In = later first

sig_rc-term_signals_example :
    ((sig_rc sigterm ≡ hdlr_exit_loop) × (sigterm ≢ sigquit))
    ⊎ ((sig_rc sigterm ≡ hdlr_success) × (sigterm ≡ sigquit))
sig_rc-term_signals_example = sig_rc-term_signals sigterm sigterm-In

abbrev forked : Sys
forked = record start {
  calls =
      epoll_add_call (some 10)
      ∷ set_cloexec_call (some 10)
      ∷ pidfd_open_call 42
      ∷ fork_call (b'x' ∷ []) (pos 0)
      ∷ [];
}

abbrev closed_sys : Sys
closed_sys = record start { calls = close_call (some 7) ∷ close_call (some 6) ∷ [] }

-- One command, "n", in the table; and the same state once it is deleted.
abbrev named : Cmd
named = record idle_cmd { name = some (b'n' ∷ []) }

abbrev with_one : Sys
with_one = record start { g = record quiet { cmds = named ∷ []; slowestcmd = some 1 } }

abbrev deleted : Sys
deleted = record closed_sys { g = record quiet { slowestcmd = some 1 } }

named-found : find_name with_one.g.cmds (b'n' ∷ []) ≡ some named
unfolding find_name
named-found = rw (str_eq_refl (b'n' ∷ []))

named-once : at_most_once 1 (1 ∷ []) ≡ true
unfolding at_most_once absent
named-once = refl

do_del-run : do_del (b'n' ∷ []) with_one ≡ ok true deleted
unfolding do_del delete_found on_cmd_ load_cmd save_cmd del_cmd exit_if_idle find_addr replace
    remove cmd_cleanup dump_if cmd_stop tty_cleanup close_if_open unlink_link
do_del-run = ap (λ o. delete_found (b'n' ∷ []) o with_one) named-found

do_del-undefined_example : bcst_read deleted ≡ stop undefined deleted
do_del-undefined_example =
    do_del-undefined (b'n' ∷ []) named true with_one deleted named-found refl named-once refl
      do_del-run

drain-has_no_null : has_no_null (codes "drain") ≡ true
unfolding has_no_null
drain-has_no_null = refl

mon_cmds-named_well : named_well mon_cmds ≡ true
unfolding named_well has_no_null
mon_cmds-named_well = refl

find_mon_cmd-Finds_example :
    Finds mon_cmds (codes "drain") (find_mon_cmd mon_cmds (codes "drain" ++ (0 ∷ [])) 5)
find_mon_cmd-Finds_example =
    find_mon_cmd-Finds mon_cmds (codes "drain") [] drain-has_no_null mon_cmds-named_well

nothing_before : run_batch none [] start ≡ ok goes_on start
unfolding run_batch
nothing_before = refl

the_loop-signal_example :
    the_loop none (ready ((sig_desc, readable) ∷ (sig_desc, readable) ∷ []) ∷ []) start
    ≡ ok (left true) (record start { calls = signal_read_call ∷ [] })
the_loop-signal_example =
    the_loop-signal none [] ((sig_desc, readable) ∷ []) [] readable start start sigterm
      nothing_before refl refl sigterm-In (λ e. cc)
