-- ===== src/Cmd/Life/Start.antt =====
-- cmd.c: what `cmdStart` leaves behind.
use mathlib.Core.Option.{get_or}
use yar.Base.{◌≡◌, Bool, true, false, [], ◌∷◌, is_some}
use yar.Kernel.{ℤ, History, epoll_add_call, set_cloexec_call, pidfd_open_call, fork_call}
use yar.State.{Cmd, Sys, cmd_pid_desc}
use yar.Cmd.Life.{is_running}

-- The command has a process: the handler of its events is this command's, and no character of the
-- ready string is matched.
pub record Started (this : Cmd) : Type 0 where
  pub pid : is_running this ≡ true
  pub pidfd : is_some this.pidfd ≡ true
  pub events : this.pidfded ≡ cmd_pid_desc this.addr
  pub unmatched : this.readycnt ≡ 0

-- The process is forked for the command line, with the delay before it begins; its descriptor is
-- opened and kept from being inherited; and its events are asked for.
abbrev pub start_calls : Cmd → Cmd → ℤ → History → History
start_calls this t d h =
    epoll_add_call t.pidfd
    ∷ set_cloexec_call t.pidfd
    ∷ pidfd_open_call (get_or t.pid 0)
    ∷ fork_call (get_or this.cmdline []) d
    ∷ h

-- What a start comes to.
abbrev pub StartOutcome : Cmd → Cmd → ℤ → Bool → Sys → Sys → Type 0
StartOutcome this t d true s s' =
    Started t × (is_running this ≡ false) × (s'.g ≡ s.g) × (s'.calls ≡ start_calls this t d s.calls)
StartOutcome this t d false s s' = (t ≡ this) × (is_running this ≡ true) × (s' ≡ s)
