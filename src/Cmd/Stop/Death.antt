-- ===== src/Cmd/Stop/Death.antt =====
-- cmd.c: the part of `cmdStop` that waits for the process to die ends once it is dead.
use yar.Base.{ℕ, suc, ◌≡◌, true, ◌∷◌}
use yar.Kernel.{poll_ready, poll_timeout, poll_interrupted, poll_call, kill_call}
use yar.State.{Cmd, Sys}
use yar.Monad.{ok}
use yar.Cmd.Dump.{cmd_dump}
use yar.Cmd.Stop.{sigkill}

-- The state behind a poll, and behind a SIGKILL.
abbrev pub polled : Cmd → Sys → Sys
polled this s = record s { calls = poll_call this.pidfd ∷ s.calls }

abbrev pub signalled : Cmd → Sys → Sys
signalled this s = record s { calls = kill_call this.pid sigkill ∷ s.calls }

-- The process is seen dead at the poll after `n` that are interrupted, or that time out and are
-- followed by a dump that ends and a SIGKILL.
pub data Dies (this : Cmd) : ℕ → Sys → Type 0 where
  dead : {s : Sys} → s.env.poll s.calls this.pidfd ≡ poll_ready → Dies this 0 s
  again :
      {n : ℕ} {s : Sys}
      → s.env.poll s.calls this.pidfd ≡ poll_interrupted
      → Dies this n (polled this s)
      → Dies this (suc n) s
  killed :
      {n : ℕ} {s t : Sys}
      → s.env.poll s.calls this.pidfd ≡ poll_timeout
      → cmd_dump this (polled this s) ≡ ok tt t
      → t.env.kill t.calls this.pid sigkill ≡ true
      → Dies this n (signalled this t)
      → Dies this (suc n) s
