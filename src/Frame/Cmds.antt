-- ===== src/Frame/Cmds.antt =====
-- Writing to a command, and stopping, starting and clearing it, leave the table and the
-- configuration alone.
use yar.Base.{ℕ, zero, suc, ◌-◌, Bool, Option, none, some, List, [], ◌∷◌, ◌≡◌, refl}
use yar.Kernel.{
  Fd, ℤ, PollRet, poll_ready, poll_timeout, poll_interrupted, poll_failed, Env, kill_call,
  poll_call,
}
use yar.State.{Cmd, Sys}
use yar.State.{Sys}
use yar.Monad.{M, ok, ◌>>◌, modify, call, assert}
use yar.Cmd.Output.{dec_cmds_ready_cnt}
use yar.Cmd.Life.{cmd_register_process_events, cmd_start}
use yar.Cmd.Stop.{
  cmd_write_char, send_string, send_stopstr, clear_ready, epoll_del, after_poll, await_death,
  kill_process, stop_now, in_use, cmd_stop, cmd_cleanup, sigkill,
}
use yar.Frame.{
  Keeps, Same, kept, keeping, pure-Keeps, halt-Keeps, bind-Keeps, call-Keeps, assert-Keeps,
}
use yar.Frame.Dumps.{cmd_dump-Keeps, dump_if-Keeps}
use yar.Cmd.Dump.{cmd_dump}
use yar.Frame.Ttys.{tty_cleanup-Keeps, tty_idle-Keeps, tty_write_buf-Keeps}

modify_ready-Keeps : (n : ℕ) → Keeps (modify (λ g. record g { cmdsreadycnt = g.cmdsreadycnt - n }))
modify_ready-Keeps n = record {
  run = λ s. record {
    env = refl;
    cmds = refl;
    slowest = refl;
    readystr = refl;
    readystrlen = refl;
    bcsttty = refl;
    mon = refl;
    config = refl;
    bcstflg = refl;
    exitonidle = refl;
  };
}

pub dec_cmds_ready_cnt-Keeps : Keeps dec_cmds_ready_cnt
unfolding dec_cmds_ready_cnt
dec_cmds_ready_cnt-Keeps = search (keeping, modify_ready-Keeps) depth 12

pub cmd_write_char-Keeps : (this : Cmd) (c : ℕ) → Keeps (cmd_write_char this c)
unfolding cmd_write_char
cmd_write_char-Keeps this c = search (keeping, tty_write_buf-Keeps)

send_string-Keeps : (this : Cmd) (str : List ℕ) → Keeps (send_string this str)
unfolding send_string
send_string-Keeps this [] = pure-Keeps this
send_string-Keeps this (c ∷ cs) =
    search (keeping, cmd_write_char-Keeps, λ (t : Cmd). send_string-Keeps t cs) depth 12

send_stopstr-Keeps : (this : Cmd) (str : Option (List ℕ)) → Keeps (send_stopstr this str)
unfolding send_stopstr
send_stopstr-Keeps this none = pure-Keeps this
send_stopstr-Keeps this (some str) =
    search (keeping, cmd_write_char-Keeps, send_string-Keeps) depth 12

pub clear_ready-Keeps : (this : Cmd) → Keeps (clear_ready this)
unfolding clear_ready
clear_ready-Keeps this = search (keeping, dec_cmds_ready_cnt-Keeps) depth 8

pub epoll_del-Keeps : (epollfd fd : Fd) → Keeps (epoll_del epollfd fd)
unfolding epoll_del
epoll_del-Keeps none fd = pure-Keeps tt
epoll_del-Keeps (some e) fd = search keeping

kill-Keeps :
    (this : Cmd) (signo : ℕ)
    → Keeps (call (kill_call this.pid signo) (λ (e : Env) h. e.kill h this.pid signo))
kill-Keeps this signo = call-Keeps _ _

after_poll-Keeps :
    (again : M (Unit {0})) (this : Cmd) (r : PollRet)
    → Keeps again
    → Keeps (after_poll again this r)
unfolding after_poll
after_poll-Keeps again this poll_ready k = pure-Keeps tt
after_poll-Keeps again this poll_interrupted k = k
after_poll-Keeps again this poll_failed k = halt-Keeps _
after_poll-Keeps again this poll_timeout k =
    bind-Keeps (cmd_dump this) _ (cmd_dump-Keeps this) (λ u.
      bind-Keeps (call (kill_call this.pid sigkill) (λ (e : Env) h. e.kill h this.pid sigkill))
        (λ b. assert b >> again) (kill-Keeps this sigkill)
        (λ b. bind-Keeps (assert b) (λ u. again) (assert-Keeps b) (λ u. k)))

await_death-Keeps : (fuel : ℕ) (this : Cmd) → Keeps (await_death fuel this)
unfolding await_death
await_death-Keeps zero this = halt-Keeps _
await_death-Keeps (suc fuel) this =
    bind-Keeps (call (poll_call this.pidfd) (λ (e : Env) h. e.poll h this.pidfd))
      (λ r. after_poll (await_death fuel this) this r) (call-Keeps _ _)
      (λ r. after_poll-Keeps (await_death fuel this) this r (await_death-Keeps fuel this))

await-Keeps : (this : Cmd) → Keeps (λ s. await_death s.env.rounds this s)
await-Keeps this = record { run = λ s. (await_death-Keeps s.env.rounds this).run s }

kill_process-Keeps : (this : Cmd) → Keeps (kill_process this)
unfolding kill_process
kill_process-Keeps this = search (keeping, await-Keeps) depth 24

stop_now-Keeps : (this : Cmd) (epollfd : Fd) → Keeps (stop_now this epollfd)
unfolding stop_now
stop_now-Keeps this epollfd =
    search (keeping, send_stopstr-Keeps, clear_ready-Keeps, epoll_del-Keeps, kill_process-Keeps)
      depth 16

in_use-Keeps : (this : Cmd) → Keeps (in_use this)
unfolding in_use
in_use-Keeps this = search (keeping, tty_idle-Keeps) depth 12

pub cmd_stop-Keeps :
    (this : Cmd) (epollfd : Fd) (force : Bool) → Keeps (cmd_stop this epollfd force)
unfolding cmd_stop
cmd_stop-Keeps this epollfd force = search (keeping, stop_now-Keeps, in_use-Keeps) depth 12

pub cmd_cleanup-Keeps : (this : Cmd) → Keeps (cmd_cleanup this)
unfolding cmd_cleanup
cmd_cleanup-Keeps this = search (keeping, dump_if-Keeps, cmd_stop-Keeps, tty_cleanup-Keeps) depth 12

register-Keeps : (this : Cmd) (epollfd : Fd) → Keeps (cmd_register_process_events this epollfd)
unfolding cmd_register_process_events
register-Keeps this epollfd = search keeping depth 8

pub cmd_start-Keeps : (this : Cmd) (epollfd : Fd) (d : ℤ) → Keeps (cmd_start this epollfd d)
unfolding cmd_start
cmd_start-Keeps this epollfd d = search (keeping, register-Keeps) depth 20

-- Clearing a command, which stops it first, leaves the table of commands, the slowest command, the
-- ready string, the broadcast tty's count of opens and the flag for the exit when idle as they are.
pub cmd_cleanup-Same : (this t : Cmd) (s s' : Sys) → cmd_cleanup this s ≡ ok t s' → Same s s'
cmd_cleanup-Same this t s s' h = kept (cmd_cleanup-Keeps this) s s' t h
