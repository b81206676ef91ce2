-- ===== src/Tests/Cleanup.antt =====
-- The theorems on `cleanup` (main.c) at concrete values.
use yar.Base.{codes, ◌≡◌, refl, true, false, some, none, [], ◌∷◌}
use yar.State.{Sys, live_ptr}
use yar.Monad.{Res, ok, stop}
use yar.Tty.{tty_cleanup, close_if_open, unlink_link}
use yar.Cmd.Dump.{dump_if}
use yar.Cmd.Stop.{cmd_cleanup, cmd_stop}
use yar.Registry.{
  cleanup, for_cmds, cleanup_fs, mon_cleanup, sigproc_cleanup, close_log, free_logdir,
  cleanup_strings, on_cmd_, load_cmd, save_cmd, del_cmd, find_addr, replace, remove, exit_if_idle,
}
use yar.Registry.Cleanup.{cleared_tty}
use yar.Registry.Cleanup.Strings.{freed}
use yar.Registry.Cleanup.Result.{cleared_if, cleanup-clears}
use yar.Registry.Cleanup.Again.{again, cleanup-again}
use yar.Registry.Cleanup.Idle.{idle_outcome, exit_if_idle-outcome}
use yar.Tests.{start, idle_cmd, no_config, open_tty, quiet}

-- A state with a log, a command and a slowest one.
abbrev logging : Sys
logging = record start {
  g = record quiet {
    cmds = idle_cmd ∷ [];
    slowestcmd = some 1;
    exitonidle = true;
    stopstr = some (codes "q");
    config = record no_config {
      logdir = live_ptr (codes "/w");
      logpath = some (codes "/w/1.log");
      logfile = true;
      sfd = some 12;
    };
  };
}

abbrev state_of_run : {A : Type 0} → Res A → Sys
state_of_run (ok r s) = s
state_of_run (stop h s) = s

cleaned : Sys
unfolding cleanup for_cmds cleanup_fs mon_cleanup sigproc_cleanup close_log free_logdir
    cleanup_strings on_cmd_ load_cmd save_cmd del_cmd find_addr replace remove tty_cleanup
    close_if_open unlink_link cmd_cleanup dump_if cmd_stop
cleaned = state_of_run (cleanup logging)

cleans : cleanup logging ≡ ok tt cleaned
unfolding cleaned cleanup for_cmds cleanup_fs mon_cleanup sigproc_cleanup close_log free_logdir
    cleanup_strings on_cmd_ load_cmd save_cmd del_cmd find_addr replace remove tty_cleanup
    close_if_open unlink_link cmd_cleanup dump_if cmd_stop
cleans = refl

cleanup-clears_example :
    (cleaned.g.cmds ≡ [])
    × (cleaned.g.slowestcmd ≡ none)
    × (cleaned.g.bcsttty ≡ cleared_if true (open_tty 4))
    × (cleaned.g.mon.tty ≡ cleared_tty)
    × (cleaned.g.config.logfile ≡ false)
    × (cleaned.g.config.sfd ≡ none)
    × (cleaned.g.readystr ≡ none)
    × (cleaned.g.stopstr ≡ none)
    × (cleaned.g.config.logdir ≡ freed (live_ptr (codes "/w")))
cleanup-clears_example = cleanup-clears logging cleaned cleans

cleanup-again_example : cleanup cleaned ≡ again (live_ptr (codes "/w")) cleaned
cleanup-again_example = cleanup-again logging cleaned cleans

abbrev idle : Sys
idle = record logging { g = record logging.g { cmds = [] } }

exit_if_idle-outcome_example :
    (s' : Sys) × (exit_if_idle idle ≡ stop (idle_outcome (live_ptr (codes "/w"))) s')
exit_if_idle-outcome_example = exit_if_idle-outcome idle refl refl refl refl
