-- ===== src/Cmd/Stop/Outcome.antt =====
-- cmd.c: what `cmdStop` leaves behind, and that waiting for the process to die ends.
use yar.Base.{
  ◌+◌, ◌≡◌, ◌≢◌, refl, subst, sym, ap, ◌∙◌, ◌⊎◌, inl, inr, Bool, true, false, none, arith,
  if◌then◌else◌, is_some, Bool-cases,
}
use yar.Kernel.{Fd}
use yar.State.{Cmd, Sys}
use yar.Monad.{ok, and_then-ok, pure}
use yar.Tty.{tty_idle, dom_in_q_cnt, in_q_cnt}
use yar.Cmd.Output.{is_ready, dec_cmds_ready_cnt}
use yar.Cmd.Life.{is_running}
use yar.Cmd.Stop.{
  clear_ready, kill_process, stop_now, in_use, cmd_stop, send_stopstr, stopstr_of, epoll_del,
}

-- The command is dead: its descriptors are cleared, and the status of its exit is kept.
pub record Dead (this : Cmd) : Type 0 where
  pub pid : this.pid ≡ none
  pub pidfd : this.pidfd ≡ none
  pub status : is_some this.exitstatus ≡ true

kill_process-Dead : (this t : Cmd) (s s' : Sys) → kill_process this s ≡ ok t s' → Dead t
unfolding kill_process
kill_process-Dead this t s s' h = record {
  pid = ground arith;
  pidfd = ground arith;
  status = ground arith;
}

-- Clearing the readiness of a command, where there is a ready string: the command is not ready
-- afterwards, and the count of ready commands is one less exactly if it was ready; with no command
-- counted although this one is ready, an assertion fails.
pub clear_ready-counts :
    (this t : Cmd) (s s' : Sys)
    → s.g.readystrlen ≢ 0
    → clear_ready this s ≡ ok t s'
    → (is_ready s'.g t ≡ false)
      × (s'.g.cmdsreadycnt + (if is_ready s.g this then 1 else 0) ≡ s.g.cmdsreadycnt)
unfolding clear_ready dec_cmds_ready_cnt
clear_ready-counts this t s s' len h = (ground arith, ground arith)

stop_now-Dead :
    (this t : Cmd) (fd : Fd) (r : Bool) (s s' : Sys)
    → stop_now this fd s ≡ ok (r, t) s'
    → (r ≡ true) × Dead t
unfolding stop_now
stop_now-Dead this t fd r s s' h =
    let (a, s1, e1, h1) = and_then-ok (send_stopstr this (stopstr_of s.g this) s) _ (r, t) s' h in
    let (b, s2, e2, h2) = and_then-ok (clear_ready a s1) _ (r, t) s' h1 in
    let (c, s3, e3, h3) = and_then-ok (epoll_del fd b.pidfd s2) _ (r, t) s' h2 in
    let (d, s4, e4, h4) =
      and_then-ok (kill_process b s3) (λ this. λ s. ok (true, this) s) (r, t) s' h3 in
    let dead = kill_process-Dead b d s3 s4 e4 in let same : d ≡ t = cc in (cc, subst Dead same dead)

in_use-same : (this : Cmd) (b : Bool) (s s' : Sys) → in_use this s ≡ ok b s' → s'.g ≡ s.g
unfolding in_use tty_idle dom_in_q_cnt in_q_cnt
in_use-same this b s s' h = ground arith

-- What a stop comes to.
abbrev pub Stopped : Cmd → Cmd → Bool → Sys → Sys → Type 0
Stopped this t true s s' = Dead t × (is_running this ≡ true)
Stopped this t false s s' = (t ≡ this) × (s'.g ≡ s.g)

-- The outcome of a stop: what it leaves, and why it may report failure.
abbrev pub StopOutcome : Cmd → Cmd → Bool → Bool → Sys → Sys → Type 0
StopOutcome this t force r s s' =
    Stopped this t r s s' × ((r ≡ true) ⊎ ((is_running this ≡ false) ⊎ (force ≡ false)))

refused :
    (this t : Cmd) (force r : Bool) (s u s' : Sys)
    → (is_running this ≡ false) ⊎ (force ≡ false)
    → u.g ≡ s.g
    → pure {A = Bool × Cmd} (false, this) u ≡ ok (r, t) s'
    → StopOutcome this t force r s s'
refused this t force r s u s' why same h =
    let er : false ≡ r = cc in
    let et : t ≡ this = cc in
    let es : u ≡ s' = cc in
    subst
      (λ r. Stopped this t r s s' × ((r ≡ true) ⊎ ((is_running this ≡ false) ⊎ (force ≡ false)))) er
      ((et, ap (λ (x : Sys). x.g) (sym es) ∙ same), inr why)

stopped :
    (this t : Cmd) (fd : Fd) (force r : Bool) (s u s' : Sys)
    → is_running this ≡ true
    → stop_now this fd u ≡ ok (r, t) s'
    → StopOutcome this t force r s s'
stopped this t fd force r s u s' runs h =
    let (er, dead) = stop_now-Dead this t fd r u s' h in
    subst
      (λ r. Stopped this t r s s' × ((r ≡ true) ⊎ ((is_running this ≡ false) ⊎ (force ≡ false))))
      (sym er) ((dead, runs), inl refl)

-- A stop that reports success was of a running command, and leaves it dead: no process, no
-- descriptor of one, and the status of its exit. One that reports failure changes neither the
-- command nor anything else of yar's state, and is not forced, unless the command was not running.
pub cmd_stop-Outcome :
    (this t : Cmd) (fd : Fd) (force r : Bool) (s s' : Sys)
    → cmd_stop this fd force s ≡ ok (r, t) s'
    → StopOutcome this t force r s s'
unfolding cmd_stop
cmd_stop-Outcome this t fd force r s s' h = elim (Bool-cases (is_running this)) [
  | inr idle ↦ refused this t force r s s s' (inl idle) refl (rw idle at h)
  | inl runs ↦
      let h1 = rw runs at h in
      elim (Bool-cases force) [
        | inl forced ↦ stopped this t fd force r s s s' runs (rw forced at h1)
        | inr unforced ↦
            let h2 = rw unforced at h1 in
            let (b, u, e, e') = and_then-ok (in_use this s) _ (r, t) s' h2 in
            let same = in_use-same this b s u e in
            elim (Bool-cases b) [
              | inl busy ↦ refused this t force r s u s' (inr unforced) same (rw busy at e')
              | inr free ↦ stopped this t fd force r s u s' runs (rw free at e')
            ]
      ]
]
