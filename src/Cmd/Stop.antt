-- ===== src/Cmd/Stop.antt =====
-- cmd.c and cmd.h: writing to a command, stopping and clearing it.
pub mod Outcome
pub mod Death
use mathlib.Core.Option.{get_or}
use yar.Base.{
  ℕ, zero, suc, Bool, true, false, not, Option, none, some, List, [], ◌∷◌, if◌then◌else◌, is_some,
}
use yar.Kernel.{
  Str, Fd, pos, Env, PollRet, poll_ready, poll_timeout, poll_interrupted, poll_failed,
  epoll_del_call, kill_call, poll_call, waitid_call, close_call, delay_call,
}
use yar.State.{Cmd, Globals, no_desc}
use yar.Monad.{M, aborted, out_of_fuel, ◌>>=◌, ◌>>◌, pure, halt, assert, get, call, call_}
use yar.Tty.{tty_idle, tty_cleanup}
use yar.Tty.Io.{tty_write_char}
use yar.Cmd.Output.{is_ready, dec_cmds_ready_cnt, counts}
use yar.Cmd.Life.{is_running}
use yar.Cmd.Dump.{cmd_dump, dump_if}

-- `cmdWriteChar`: its int, and the command with `cmdtty` and `lastwrite` updated.
unfoldable pub cmd_write_char : Cmd → ℕ → M (Option ℕ × Cmd)
cmd_write_char this c = do
  w ← tty_write_char this.cmdtty c (some this.lastwrite)
  let t = record this { cmdtty = w.tty }
  pure (w.count, record t { lastwrite = get_or w.ts this.lastwrite })

-- The stop string, a character at a time with a delay behind each.
unfoldable pub send_string : Cmd → List ℕ → M Cmd
send_string this [] = pure this
send_string this (c ∷ cs) = do
  (n, this) ← cmd_write_char this c
  assert (counts n 1)
  call_ (delay_call this.delay)
  send_string this cs

unfoldable pub send_stopstr : Cmd → Option Str → M Cmd
send_stopstr this none = pure this
send_stopstr this (some str) = do
  (n, this) ← cmd_write_char this b'\n'
  assert (counts n 1)
  send_string this str

-- `this->stopstr` before `GBLS.stopstr`.
abbrev pub stopstr_of : Globals → Cmd → Option Str
stopstr_of g this = elim this.stopstr [ none ↦ g.stopstr | some s ↦ some s ]

abbrev pub sigterm : ℕ
sigterm = 15

abbrev pub sigkill : ℕ
sigkill = 9

-- What follows a `poll` of the dying process; `again` is the code from `retry:` on.
unfoldable pub after_poll : M (Unit {0}) → Cmd → PollRet → M (Unit {0})
after_poll again this poll_ready = pure tt
after_poll again this poll_interrupted = again
after_poll again this poll_failed = halt aborted
after_poll again this poll_timeout = do
  cmd_dump this
  k ← call (kill_call this.pid sigkill) (λ (e : Env) h. e.kill h this.pid sigkill)
  assert k
  again

-- From `retry:` on: until the process is dead, with SIGKILL after each time-out.
unfoldable pub await_death : ℕ → Cmd → M (Unit {0})
await_death zero this = halt out_of_fuel
await_death (suc fuel) this = do
  r ← call (poll_call this.pidfd) (λ (e : Env) h. e.poll h this.pidfd)
  after_poll (await_death fuel this) this r

unfoldable pub kill_process : Cmd → M Cmd
kill_process this = do
  k ← call (kill_call this.pid sigterm) (λ (e : Env) h. e.kill h this.pid sigterm)
  assert k
  (λ s. await_death s.env.rounds this s)
  es ← call (waitid_call this.pidfd) (λ (e : Env) h. e.waitid h this.pidfd)
  assert (is_some es)
  call_ (close_call this.pidfd)
  pure (record this { exitstatus = es; pidfd = none; pid = none })

-- `if (cmdIsReady(this)) { this->readycnt = 0; decCmdsReadyCnt(); }`
unfoldable pub clear_ready : Cmd → M Cmd
clear_ready this = do
  g ← get
  if is_ready g this
      then (do dec_cmds_ready_cnt; pure (record this { readycnt = 0 }))
      else pure this

unfoldable pub epoll_del : Fd → Fd → M (Unit {0})
epoll_del none fd = pure tt
epoll_del (some epollfd) fd = do
  r ← call (epoll_del_call fd) (λ (e : Env) h. e.epoll_del h fd)
  assert r

-- `cmdStop` once it is clear that the command is to be stopped.
unfoldable pub stop_now : Cmd → Fd → M (Bool × Cmd)
stop_now this epollfd = do
  g ← get
  this ← send_stopstr this (stopstr_of g this)
  this ← clear_ready this
  epoll_del epollfd this.pidfd
  this ← kill_process this
  pure (true, this)

-- `!ttyIdle(&this->clttty) || !ttyIdle(&GBLS.bcsttty)`
unfoldable pub in_use : Cmd → M Bool
in_use this = do
  idle ← tty_idle this.clttty
  if not idle then pure true else do g ← get; bcst_idle ← tty_idle g.bcsttty; pure (not bcst_idle)

unfoldable pub cmd_stop : Cmd → Fd → Bool → M (Bool × Cmd)
cmd_stop this epollfd force =
    if not (is_running this)
    then pure (false, this)
    else if force
    then stop_now this epollfd
    else do busy ← in_use this; if busy then pure (false, this) else stop_now this epollfd

-- The fields that `cmdCleanup` resets; `buf`, `bufstart`, `readycnt` and `stopstr` stay.
abbrev pub reset_fields : Cmd → Cmd
reset_fields this = record this {
  pidfd = none;
  pid = none;
  exitstatus = none;
  cmdstr = none;
  name = none;
  cmdline = none;
  log = none;
  bcstprefix = none;
  bcstprefixlen = 0;
  bufn = 0;
  bufof = 0;
  restartcnt = 0;
  restart = false;
  deleteonexit = false;
  delay = pos 0;
  lastwrite = 0;
  pidfded = no_desc;
}

unfoldable pub cmd_cleanup : Cmd → M Cmd
cmd_cleanup this = do
  dump_if 2 this
  (stopped, this) ← cmd_stop this none true
  cmdtty ← tty_cleanup this.cmdtty
  clttty ← tty_cleanup this.clttty
  pure (reset_fields (record this { cmdtty = cmdtty; clttty = clttty }))
