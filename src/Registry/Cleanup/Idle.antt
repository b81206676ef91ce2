-- ===== src/Registry/Cleanup/Idle.antt =====
-- main.c, cmd.c: the exit of yar when it is idle.
use yar.Base.{◌≡◌, refl, ap, ap₂, ◌∙◌, true, false, List, [], if◌then◌else◌}
use yar.State.{Cmd, Sys, Ptr, null_ptr, live_ptr, freed_ptr}
use yar.Monad.{Halt, undefined, exited, ok, stop, and_then, ◌>>=◌, ◌>>◌, when, exit}
use yar.Tty.{tty_cleanup}
use yar.Registry.{for_cmds, cleanup_cmd, set_bcsttty, cleanup, exit_if_idle, is_empty}
use yar.Registry.Cleanup.{bind-Runs}
use yar.Registry.Cleanup.Strings.{not_freed, log_named, finish, finish-Runs}
use yar.Registry.Cleanup.Result.{bcst_cleared, bcst-Runs}
use yar.Registry.Cleanup.Again.{again, then-still, cmds-still, cleanup-again}

cleanup-idle :
    (s : Sys)
    → s.g.cmds ≡ []
    → log_named s.g.config ≡ true
    → not_freed s.g.config.logdir ≡ true
    → (s' : Sys) × (cleanup s ≡ ok tt s')
unfolding cleanup
cleanup-idle s idle named live =
    let (cs, e) =
      bind-Runs (when s.g.bcstflg (tty_cleanup s.g.bcsttty >>= set_bcsttty))
        (λ u. for_cmds cleanup_cmd >> finish) s tt tt _ _ (bcst-Runs s.g.bcstflg s)
        (λ cs.
          let t : Sys = record s { calls = cs; g = bcst_cleared s.g } in
          let (cs', e') = finish-Runs t named live in
          (cs', then-still (for_cmds cleanup_cmd) finish t _ (cmds-still t idle) e')) in
    (_, e)

-- How the exit of an idle yar comes out.
abbrev pub idle_outcome : Ptr → Halt
idle_outcome null_ptr = exited
idle_outcome p = undefined

exit-again :
    (p : Ptr) (s : Sys)
    → (s' : Sys) × (and_then {B = Unit {0}} (again p s) (λ u. exit) ≡ stop (idle_outcome p) s')
exit-again null_ptr s = (_, refl)
exit-again (live_ptr d) s = (s, refl)
exit-again freed_ptr s = (s, refl)

-- With no command left and the exit when idle asked for, if the path of a log that is to be
-- removed is known and its directory is not freed yet: yar exits if there is no directory for the
-- log; if there is one, what it does is undefined, as the second of its two runs of `cleanup`
-- frees the directory again.
pub exit_if_idle-outcome :
    (s : Sys)
    → s.g.cmds ≡ []
    → s.g.exitonidle ≡ true
    → log_named s.g.config ≡ true
    → not_freed s.g.config.logdir ≡ true
    → (s' : Sys) × (exit_if_idle s ≡ stop (idle_outcome s.g.config.logdir) s')
unfolding exit_if_idle
exit_if_idle-outcome s idle asked named live =
    let (s1, e1) = cleanup-idle s idle named live in
    let (s2, e2) = exit-again s.g.config.logdir s1 in
    (
      s2,
      ap₂
            (λ (cs : List Cmd) b.
              when (if is_empty cs then b else false) (cleanup >> (cleanup >> exit)) s)
            idle asked
          ∙ ap (λ r. and_then r (λ u. cleanup >> exit)) e1
          ∙ ap (λ r. and_then r (λ u. exit)) (cleanup-again s s1 e1)
          ∙ e2,
    )
