-- ===== src/Loop/Exit.antt =====
-- main.c: how `theLoop` is left.
use yar.Base.{
  ◌≡◌, refl, sym, subst, ◌⊎◌, inl, inr, true, false, List, [], ◌∷◌, arith, In, first, later,
}
use yar.Kernel.{
  Fd, Signal, sigalrm, sigterm, sigint, sighup, sigquit, sigkill, sigusr1, sigvtalrm, sigusr2,
  sigpipe, sigio, other_signal,
}
use yar.State.{
  EvntDesc, no_desc, cmd_pid_desc, cmd_cmdtty_desc, cmd_clttty_desc, cmd_clttty_notify_desc,
  cmd_cmdtty_ifd_desc, cmd_clttty_ifd_desc, bcst_desc, bcst_notify_desc, bcst_ifd_desc, mon_desc,
  mon_notify_desc, mon_ifd_desc, sig_desc, fs_desc, Sys,
}
use yar.Monad.{M, ok, and_then-ok}
use yar.Evnts.{Evnts, EvntRc, hdlr_success, hdlr_exit_loop}
use yar.Cmd.Events.{cmd_pid_event, cmd_cmdtty_event, cmd_clttty_event}
use yar.Bcst.{bcst_event}
use yar.Mon.Line.{mon_event}
use yar.Sig.{sig_rc, sig_event}
use yar.Loop.{
  tty_notify_event, load_cmdtty, save_cmdtty, load_clttty, save_clttty, load_bcst, save_bcst,
  load_mon, save_mon, then_success, fs_event, handle, Wait, ready, interrupted, invalid,
  wait_failed, Left, left, goes_on, run_batch, the_loop,
}

-- What a handler returns for `e` on `d`: success, or the exit of the loop for a signal.
Answers : EvntDesc → Evnts → EvntRc → Type 0
Answers d e rc = (rc ≡ hdlr_success) ⊎ ((rc ≡ hdlr_exit_loop) × (d ≡ sig_desc) × (e.ein ≡ true))

then_success-ok :
    (m : M (Unit {0})) (s s' : Sys) (rc : EvntRc) (d : EvntDesc) (e : Evnts)
    → then_success m s ≡ ok rc s'
    → Answers d e rc
unfolding Answers
then_success-ok m s s' rc d e h =
    let (a, t, eq, eq') = and_then-ok (m s) (λ u s. ok hdlr_success s) rc s' h in inl (cc)

sig_rc-cases : (s : Signal) → (sig_rc s ≡ hdlr_success) ⊎ (sig_rc s ≡ hdlr_exit_loop)
unfolding sig_rc
sig_rc-cases sigalrm = inr refl
sig_rc-cases sigterm = inr refl
sig_rc-cases sigint = inr refl
sig_rc-cases sighup = inr refl
sig_rc-cases sigkill = inr refl
sig_rc-cases sigusr1 = inr refl
sig_rc-cases sigvtalrm = inr refl
sig_rc-cases sigusr2 = inr refl
sig_rc-cases sigpipe = inr refl
sig_rc-cases sigio = inr refl
sig_rc-cases sigquit = inl refl
sig_rc-cases other_signal = inl refl

sig_event-ok :
    (e : Evnts) (s s' : Sys) (rc : EvntRc) → sig_event e s ≡ ok rc s' → Answers sig_desc e rc
unfolding sig_event Answers
sig_event-ok e s s' rc h = grind (arith, sig_rc-cases)

handle-ok :
    (d : EvntDesc) (e : Evnts) (fd : Fd) (s s' : Sys) (rc : EvntRc)
    → handle d e fd s ≡ ok rc s'
    → Answers d e rc
unfolding handle
handle-ok (cmd_pid_desc p) e fd s s' rc h =
    then_success-ok (cmd_pid_event p e fd) s s' rc (cmd_pid_desc p) e h
handle-ok (cmd_cmdtty_desc p) e fd s s' rc h =
    then_success-ok (cmd_cmdtty_event p e fd) s s' rc (cmd_cmdtty_desc p) e h
handle-ok (cmd_clttty_desc p) e fd s s' rc h =
    then_success-ok (cmd_clttty_event p e fd) s s' rc (cmd_clttty_desc p) e h
handle-ok (cmd_cmdtty_ifd_desc p) e fd s s' rc h =
    then_success-ok (tty_notify_event (load_cmdtty p) (save_cmdtty p) e fd) s s' rc
      (cmd_cmdtty_ifd_desc p) e h
handle-ok (cmd_clttty_ifd_desc p) e fd s s' rc h =
    then_success-ok (tty_notify_event (load_clttty p) (save_clttty p) e fd) s s' rc
      (cmd_clttty_ifd_desc p) e h
handle-ok bcst_desc e fd s s' rc h = then_success-ok (bcst_event e) s s' rc bcst_desc e h
handle-ok bcst_ifd_desc e fd s s' rc h =
    then_success-ok (tty_notify_event load_bcst save_bcst e fd) s s' rc bcst_ifd_desc e h
handle-ok mon_desc e fd s s' rc h = then_success-ok (mon_event e fd) s s' rc mon_desc e h
handle-ok mon_ifd_desc e fd s s' rc h =
    then_success-ok (tty_notify_event load_mon save_mon e fd) s s' rc mon_ifd_desc e h
handle-ok fs_desc e fd s s' rc h = then_success-ok (fs_event e) s s' rc fs_desc e h
handle-ok sig_desc e fd s s' rc h = sig_event-ok e s s' rc h
handle-ok no_desc e fd s s' rc h = cc
handle-ok (cmd_clttty_notify_desc p) e fd s s' rc h = cc
handle-ok bcst_notify_desc e fd s s' rc h = cc
handle-ok mon_notify_desc e fd s s' rc h = cc

-- A batch with a readable signal descriptor in it.
abbrev pub Signalled : List (EvntDesc × Evnts) → Type 0
Signalled batch = (e : Evnts) × (e.ein ≡ true) × In (sig_desc, e) batch

run_batch-left :
    (fd : Fd) (batch : List (EvntDesc × Evnts)) (s s' : Sys) (l : Left)
    → run_batch fd batch s ≡ ok l s'
    → (l ≡ goes_on) ⊎ ((l ≡ left true) × Signalled batch)
unfolding run_batch Answers
run_batch-left fd [] s s' l h = inl (cc)
run_batch-left fd ((d, e) ∷ rest) s s' l h =
    let (rc, t, eq, eq') = and_then-ok (handle d e fd s) _ l s' h in
    elim (handle-ok d e fd s t rc eq) [
      | inl succ ↦ elim (run_batch-left fd rest t s' l (rw succ at eq')) [
        | inl on ↦ inl on
        | inr (out, (e', readable, m)) ↦ inr (out, (e', readable, later m))
      ]
      | inr (exit, desc, readable) ↦
          let out = rw exit at eq' in
          inr (cc, (e, readable, subst (λ x. In (sig_desc, e) ((x, e) ∷ rest)) (sym desc) first))
    ]

-- What it takes for the loop to be left.
abbrev pub LeftBy : List Wait → Left → Type 0
LeftBy waits goes_on = Unit {0}
LeftBy waits (left true) =
    (batch : List (EvntDesc × Evnts)) × In (ready batch) waits × Signalled batch
LeftBy waits (left false) = In wait_failed waits

LeftBy-later : (w : Wait) (waits : List Wait) (l : Left) → LeftBy waits l → LeftBy (w ∷ waits) l
LeftBy-later w waits goes_on x = tt
LeftBy-later w waits (left true) (batch, m, x) = (batch, later m, x)
LeftBy-later w waits (left false) m = later m

-- The loop is left with success only for a batch in which the signal descriptor is readable, and
-- with failure only if waiting for events failed: no event of a command, of a tty or of the file
-- system ends it, whatever the outside world answers.
pub the_loop-LeftBy :
    (fd : Fd) (waits : List Wait) (s s' : Sys) (l : Left)
    → the_loop fd waits s ≡ ok l s'
    → LeftBy waits l
unfolding the_loop
the_loop-LeftBy fd [] s s' l h = let e : goes_on ≡ l = cc in subst (LeftBy []) e tt
the_loop-LeftBy fd (interrupted ∷ waits) s s' l h =
    LeftBy-later interrupted waits l (the_loop-LeftBy fd waits s s' l h)
the_loop-LeftBy fd (invalid ∷ waits) s s' l h =
    LeftBy-later invalid waits l (the_loop-LeftBy fd waits s s' l h)
the_loop-LeftBy fd (wait_failed ∷ waits) s s' l h =
    let e : left false ≡ l = cc in subst (LeftBy (wait_failed ∷ waits)) e (first)
the_loop-LeftBy fd (ready batch ∷ waits) s s' l h =
    let (m, t, eq, eq') = and_then-ok (run_batch fd batch s) _ l s' h in
    elim (run_batch-left fd batch s t m eq) [
      | inl on ↦ LeftBy-later (ready batch) waits l (the_loop-LeftBy fd waits t s' l (rw on at eq'))
      | inr (out, signalled) ↦
          let last = rw out at eq' in
          let e : left true ≡ l = cc in
          subst (LeftBy (ready batch ∷ waits)) e (batch, first, signalled)
    ]
