-- ===== src/Loop/Signal.antt =====
-- main.c: a signal that is to end yar ends `theLoop`.
use yar.Base.{
  ◌≡◌, refl, sym, ap, ◌∙◌, ◌≢◌, inl, inr, true, false, Bool, some, List, [], ◌∷◌, ◌++◌, In,
}
use yar.Kernel.{Fd, Signal, sigquit, signal_read_call}
use yar.State.{Sys, EvntDesc, sig_desc}
use yar.Monad.{M, pure, ok, and_then-ok}
use yar.Evnts.{Evnts, EvntRc, hdlr_success, hdlr_exit_loop, hdlr_failed}
use yar.Sig.{sig_rc, sig_event, term_signals}
use yar.Sig.Terms.{sig_rc-term_signals}
use yar.Loop.{handle, Wait, ready, Left, left, goes_on, run_batch, the_loop}

goes_on-left : (b : Bool) (s t : Sys) → ok (left b) s ≡ ok goes_on t → ⊥
goes_on-left b s t e = cc

same_state : (s t : Sys) → ok goes_on s ≡ ok goes_on t → s ≡ t
same_state s t e = cc

abbrev next : M Left → EvntRc → M Left
next k hdlr_success = k
next k hdlr_exit_loop = pure (left true)
next k hdlr_failed = pure (left false)

next-goes_on :
    (k : M Left) (rc : EvntRc) (u t : Sys)
    → next k rc u ≡ ok goes_on t
    → (rc ≡ hdlr_success) × (k u ≡ ok goes_on t)
next-goes_on k hdlr_success u t h = (refl, h)
next-goes_on k hdlr_exit_loop u t h = absurd (goes_on-left true u t h)
next-goes_on k hdlr_failed u t h = absurd (goes_on-left false u t h)

run_batch-next :
    (fd : Fd) (ed : EvntDesc) (e : Evnts) (a : List (EvntDesc × Evnts)) (s u : Sys) (rc : EvntRc)
    → handle ed e fd s ≡ ok rc u
    → run_batch fd ((ed, e) ∷ a) s ≡ next (run_batch fd a) rc u
unfolding run_batch
run_batch-next fd ed e a s u hdlr_success h = rw h refl
run_batch-next fd ed e a s u hdlr_exit_loop h = rw h refl
run_batch-next fd ed e a s u hdlr_failed h = rw h refl

-- A batch goes on behind a part of it that was handled.
run_batch-append :
    (fd : Fd) (a b : List (EvntDesc × Evnts)) (s t : Sys)
    → run_batch fd a s ≡ ok goes_on t
    → run_batch fd (a ++ b) s ≡ run_batch fd b t
unfolding run_batch
run_batch-append fd [] b s t h = ap (run_batch fd b) (same_state s t h)
run_batch-append fd ((ed, e) ∷ a) b s t h =
    let (rc, u, eq, eq') = and_then-ok (handle ed e fd s) _ goes_on t h in
    let (good, goes) =
      next-goes_on (run_batch fd a) rc u t (sym (run_batch-next fd ed e a s u rc eq) ∙ h) in
    run_batch-next fd ed e (a ++ b) s u rc eq
    ∙ ap (λ x. next (run_batch fd (a ++ b)) x u) good
    ∙ run_batch-append fd a b u t goes

exits :
    (signal : Signal) → In signal term_signals → signal ≢ sigquit → sig_rc signal ≡ hdlr_exit_loop
exits signal m n = elim (sig_rc-term_signals signal m) [
  | inl (e, _) ↦ e
  | inr (_, e) ↦ absurd (n e)
]

-- The signal descriptor is readable in a batch whose events before it are handled and let the
-- loop go on, and the signal read then is one of those blocked, other than SIGQUIT: the loop is
-- left with success, whatever the events behind it and the later rounds are.
pub the_loop-signal :
    (fd : Fd) (before behind : List (EvntDesc × Evnts)) (waits : List Wait) (e : Evnts) (s t : Sys)
    (signal : Signal)
    → run_batch fd before s ≡ ok goes_on t
    → e.ein ≡ true
    → t.env.signal_read t.calls ≡ some signal
    → In signal term_signals
    → signal ≢ sigquit
    → the_loop fd (ready (before ++ ((sig_desc, e) ∷ behind)) ∷ waits) s
      ≡ ok (left true) (record t { calls = signal_read_call ∷ t.calls })
unfolding the_loop run_batch handle sig_event
the_loop-signal fd before behind waits e s t signal h i r m n =
    rw (run_batch-append fd before ((sig_desc, e) ∷ behind) s t h, i, r)
      (rw (exits signal m n) refl)
