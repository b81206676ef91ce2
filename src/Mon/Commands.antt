-- ===== src/Mon/Commands.antt =====
-- main.c: the monitor's commands.
pub mod Dangling
use yar.Base.{
  ℕ, ◌+◌, ◌-◌, Bool, true, false, ◌&&◌, not, Option, none, some, ltb, if◌then◌else◌, length,
  is_some, str_eq, codes, ◌==◌,
}
use yar.Kernel.{
  Str, Fd, pos, usage_msg, toggle_msg, verbosity, not_current, add_failed, add_usage, del_usage,
  listed, long_listed,
}
use yar.State.{Cmd, Globals}
use yar.Monad.{M, ◌>>=◌, ◌>>◌, pure, get, modify, when, deref, exit, monprintf}
use yar.Tty.{sub_flush}
use yar.Tty.Dump.{tty_dump}
use yar.Cmd.Dump.{cmd_dump}
use yar.Cmd.Output.{cmdtty_drain}
use yar.Cmd.Life.{cmd_register_tty_events, cmd_start}
use yar.Cmd.Stop.{cmd_cleanup}
use yar.Registry.{
  load_cmd, on_cmd, on_cmd_, del_cmd, for_cmds, find_name, is_empty, cleanup, exit_if_idle,
}
use yar.Bcst.{gbls_add_cmd, bcst_create, bcst_register_events}
use yar.Mon.Table.{
  MonCmd, mon_help, mon_del, mon_drain, mon_add, mon_list, mon_exit, mon_idle_exit,
  mon_toggle_restart, mon_toggle_lb, mon_toggle_prefix, mon_verbose_inc, mon_verbose_dec,
  mon_toggle_silent,
}

-- `exit(EXIT_SUCCESS)`, which runs `cleanup`.
unfoldable pub exit_yar : {A : Type 0} → M A
exit_yar = cleanup >> exit

unfoldable pub do_idle_exit : M Bool
do_idle_exit = do
  modify (λ g. record g { exitonidle = true; cmddelonexit = true })
  g ← get
  if is_empty g.cmds then cleanup >> exit_yar else do
    for_cmds (λ p. on_cmd_ p (λ this. pure (record this { deleteonexit = true })))
    pure true

-- What `monAdd` does with a command that has been added.
unfoldable pub added : ℕ → Fd → M (Unit {0})
added p epollfd = do
  cmd ← load_cmd p
  cmd_register_tty_events cmd
  g ← get
  if not g.bcstflg && ltb 1 (length g.cmds)
      then (do modify (λ g. record g { bcstflg = true }); bcst_create; bcst_register_events)
      else when (ltb 0 g.bcsttty.opens)
          (on_cmd p (λ this. cmd_start this epollfd (pos 0)) >> pure tt)

-- `monAdd` with an argument.
unfoldable pub do_add : Str → Fd → M Bool
do_add cmdstr epollfd = do
  p ← gbls_add_cmd cmdstr
  elim p [
    | none ↦ monprintf (add_failed cmdstr) >> pure false
    | some p ↦ added p epollfd >> pure true
  ]

-- `monDel` with an argument, once its name has been looked up.
unfoldable pub delete_found : Str → Option Cmd → M Bool
delete_found name none = monprintf (not_current name) >> pure false
delete_found name (some c) =
    on_cmd_ c.addr cmd_cleanup >> (del_cmd c.addr >> (exit_if_idle >> pure true))

unfoldable pub do_del : Str → M Bool
do_del name = do g ← get; delete_found name (find_name g.cmds name)

-- What `monDrain` does with a command.
unfoldable pub drain_cmd : Cmd → M Cmd
drain_cmd this = do
  this ← cmdtty_drain this
  sub_flush this.clttty
  pure (record this { bufstart = 0; bufn = 0 })

unfoldable pub do_drain : M Bool
do_drain = do for_cmds (λ p. on_cmd_ p drain_cmd); g ← get; sub_flush g.bcsttty; pure true

-- `strncmp(flgs, "-l", 3) == 0`, where there is an argument.
abbrev pub has_flag : Option Str → Str → Bool
has_flag none flag = false
has_flag (some flgs) flag = str_eq flgs flag

-- The lines of `monList` on a command; the name's line is ended with it.
unfoldable pub list_cmd : (lflg dflg : Bool) → ℕ → M (Unit {0})
list_cmd lflg dflg p = do
  c ← load_cmd p
  name ← deref c.name
  monprintf (listed name)
  g ← get
  if lflg then monprintf (long_listed p) else when (dflg && not (g.mon.tty.opens == 0)) (cmd_dump c)

-- `monList`
unfoldable pub do_list : Option Str → M Bool
do_list flgs = do
  let dflg = has_flag flgs (codes "-d")
  for_cmds (list_cmd (has_flag flgs (codes "-l")) dflg)
  g ← get
  when (dflg && (is_some g.bcsttty.sfd && is_some g.bcsttty.dfd)) (tty_dump g.bcsttty)
  pure true

-- Sets a flag and tells it.
unfoldable pub toggle : (Globals → Globals) → (Globals → Bool) → M Bool
toggle f flag = do modify f; g ← get; monprintf (toggle_msg (flag g)); pure true

unfoldable pub set_verbose : (ℕ → ℕ) → M Bool
set_verbose f = do
  modify (λ g. record g { verbose = f g.verbose })
  g ← get
  monprintf (verbosity g.verbose)
  pure true

-- The call of a table entry; the argument is `none` for `args == 0`. The result is `rc == 0`.
unfoldable pub run_mon_cmd : MonCmd → Option Str → Fd → M Bool
run_mon_cmd mon_help arg epollfd = monprintf usage_msg >> pure true
run_mon_cmd mon_del none epollfd = monprintf del_usage >> pure false
run_mon_cmd mon_del (some name) epollfd = do_del name
run_mon_cmd mon_drain arg epollfd = do_drain
run_mon_cmd mon_add none epollfd = monprintf add_usage >> pure false
run_mon_cmd mon_add (some cmdstr) epollfd = do_add cmdstr epollfd
run_mon_cmd mon_list arg epollfd = do_list arg
run_mon_cmd mon_exit arg epollfd = exit_yar
run_mon_cmd mon_idle_exit arg epollfd = do_idle_exit
run_mon_cmd mon_toggle_restart arg epollfd =
    toggle (λ g. record g { restart = not g.restart }) (λ g. g.restart)
run_mon_cmd mon_toggle_lb arg epollfd =
    toggle (λ g. record g { linebufferbcst = not g.linebufferbcst }) (λ g. g.linebufferbcst)
run_mon_cmd mon_toggle_prefix arg epollfd =
    toggle (λ g. record g { prefixbcst = not g.prefixbcst }) (λ g. g.prefixbcst)
run_mon_cmd mon_verbose_inc arg epollfd = set_verbose (λ v. v + 1)
run_mon_cmd mon_verbose_dec arg epollfd = set_verbose (λ v. v - 1)
run_mon_cmd mon_toggle_silent arg epollfd =
    toggle (λ g. record g { mon = record g.mon { silent = not g.mon.silent } }) (λ g. g.mon.silent)
