-- ===== src/Cmd/Events.antt =====
-- cmd.c: the event handlers of a command. `p` is the command's address, `evnts` the event bits.
use yar.Base.{ℕ, ◌+◌, false, ◌&&◌, not, Option, none, some, ◌==◌, if◌then◌else◌, is_some}
use yar.Kernel.{Fd, ℤ, pos, Env, waitid_call, close_call}
use yar.State.{Cmd, Globals}
use yar.Monad.{M, aborted, ◌>>=◌, ◌>>◌, pure, halt, assert, get, when, call, call_, deref}
use yar.Tty.{tty_is_clttty, tty_is_cmdtty}
use yar.Tty.Io.{no_char, char, char_again, char_failed, tty_read_char, in_open, is_close}
use yar.Cmd.Output.{is_ready, cmdtty_process_output, cmdtty_drain, counts}
use yar.Cmd.Life.{cmd_start}
use yar.Cmd.Dump.{cmd_dump, dump_if}
use yar.Cmd.Stop.{cmd_stop, cmd_write_char, cmd_cleanup, clear_ready, epoll_del}
use yar.Registry.{load_cmd, save_cmd, del_cmd, on_cmd, on_cmd_, find_name, exit_if_idle}
use yar.Evnts.{Evnts, none_left}

-- What the death of the process does to the object, before deletion or restart.
unfoldable pub reap : Cmd → Fd → M Cmd
reap this epollfd = do
  es ← call (waitid_call this.pidfd) (λ (e : Env) h. e.waitid h this.pidfd)
  assert (is_some es)
  dump_if 1 (record this { exitstatus = es })
  epoll_del epollfd this.pidfd
  clear_ready (record this { exitstatus = es; pidfd = none; pid = none })

-- The cleaning up on exit.
unfoldable pub delete_dead : ℕ → M (Unit {0})
delete_dead p = do
  this ← load_cmd p
  name ← deref this.name
  g ← get
  on_cmd_ p cmd_cleanup
  elim (find_name g.cmds name) [
    | none ↦ pure tt
    | some c ↦ assert (c.addr == p) >> del_cmd p >> exit_if_idle
  ]

-- The delay of a restart by the exit status.
unfoldable pub restart_delay : Globals → Cmd → ℤ
restart_delay g this = elim this.exitstatus [
  | none ↦ g.errrestartcmddelay
  | some es ↦ if es == 0 then g.restartcmddelay else g.errrestartcmddelay
]

unfoldable pub restart_dead : Cmd → Fd → M Cmd
restart_dead this epollfd = do
  g ← get
  if g.restart && this.restart
      then (do
        (started, this) ← cmd_start this epollfd (restart_delay g this)
        assert started
        pure (record this { restartcnt = this.restartcnt + 1 }))
      else pure this

unfoldable pub cmd_pid_event : ℕ → Evnts → Fd → M (Unit {0})
cmd_pid_event p evnts epollfd = do
  this ← load_cmd p
  dump_if 2 this
  if not evnts.ein then assert (none_left evnts) else do
    this ← reap this epollfd
    save_cmd this
    if this.deleteonexit
        then delete_dead p
        else do this ← restart_dead this epollfd; save_cmd this; assert (none_left evnts)

unfoldable pub cmd_cmdtty_event : ℕ → Evnts → Fd → M (Unit {0})
cmd_cmdtty_event p evnts epollfd = do
  this ← load_cmd p
  assert (tty_is_cmdtty this.cmdtty)
  (n, this) ←
      if evnts.ein then cmdtty_process_output this else pure {A = Option ℕ × Cmd} (none, this)
  save_cmd this
  when evnts.hup (do
    this ← cmdtty_drain this
    save_cmd this
    epoll_del epollfd this.cmdtty.dfd
    call_ (close_call this.cmdtty.dfd)
    cmd_dump this)

-- The byte that is passed on for what `ttyReadChar` returned: nothing for 0, and for -1 whatever
-- the uninitialised variable holds.
unfoldable pub write_read : Cmd → Fd → ℕ → M Cmd
write_read this epollfd c = do
  (n, this) ← cmd_write_char this c
  assert (counts n 1)
  (stopped, this) ← cmd_stop this epollfd false
  pure this

unfoldable pub relay_char : Cmd → Fd → M Cmd
relay_char this epollfd = do
  (r, clttty) ← tty_read_char this.clttty (some this.lastwrite) this.delay
  let t = record this { clttty = clttty }
  elim r [
    | no_char ↦ pure t
    | char c ↦ write_read t epollfd c
    | char_again ↦ (λ s. write_read t epollfd (s.env.garbage s.calls) s)
    | char_failed ↦ (λ s. write_read t epollfd (s.env.garbage s.calls) s)
  ]

unfoldable pub cmd_clttty_event : ℕ → Evnts → Fd → M (Unit {0})
cmd_clttty_event p evnts epollfd = do
  this ← load_cmd p
  assert (tty_is_clttty this.clttty)
  g ← get
  when (evnts.ein && is_ready g this) (do this ← relay_char this epollfd; save_cmd this)

unfoldable pub cmd_clttty_notify : ℕ → ℕ → Fd → M (Unit {0})
cmd_clttty_notify p mask epollfd =
    if mask == in_open
    then on_cmd p (λ this. cmd_start this epollfd (pos 0)) >> pure tt
    else if is_close mask
    then on_cmd p (λ this. cmd_stop this epollfd false) >> pure tt
    else halt aborted
