-- ===== src/Sig/Terms.antt =====
-- yar.h and main.c: what `sigEvent` does with the signals that `sigAddTermSignals` blocks.
use yar.Base.{◌≡◌, refl, ◌≢◌, ◌⊎◌, inl, inr, [], ◌∷◌, In, first, later, List, Bool, true, false}
use yar.Kernel.{
  Signal, sigalrm, sigterm, sigint, sighup, sigquit, sigkill, sigusr1, sigvtalrm, sigusr2, sigpipe,
  sigio, other_signal,
}
use yar.Evnts.{hdlr_success, hdlr_exit_loop}
use yar.Sig.{term_signals, sig_rc}

-- Told apart from the signals that the code does not name.
named : Signal → Bool
named other_signal = false
named s = true

AllNamed : List Signal → Type 0
AllNamed [] = Unit {0}
AllNamed (s ∷ ss) = (named s ≡ true) × AllNamed ss

In-named : (signal : Signal) (ss : List Signal) → AllNamed ss → In signal ss → named signal ≡ true
unfolding AllNamed
In-named signal [] h m = elim m [ ]
In-named signal (s ∷ ss) (e, es) first = e
In-named signal (s ∷ ss) (e, es) (later m) = In-named signal ss es m

-- A signal that comes by the signal descriptor ends the loop exactly if it is not SIGQUIT, which
-- is blocked with the others but has no case in the handler.
pub sig_rc-term_signals :
    (signal : Signal)
    → In signal term_signals
    → ((sig_rc signal ≡ hdlr_exit_loop) × (signal ≢ sigquit))
      ⊎ ((sig_rc signal ≡ hdlr_success) × (signal ≡ sigquit))
unfolding sig_rc term_signals named AllNamed
sig_rc-term_signals sigquit m = inr (refl, refl)
sig_rc-term_signals sigalrm m = inl (refl, λ e. cc)
sig_rc-term_signals sigterm m = inl (refl, λ e. cc)
sig_rc-term_signals sigint m = inl (refl, λ e. cc)
sig_rc-term_signals sighup m = inl (refl, λ e. cc)
sig_rc-term_signals sigusr1 m = inl (refl, λ e. cc)
sig_rc-term_signals sigvtalrm m = inl (refl, λ e. cc)
sig_rc-term_signals sigusr2 m = inl (refl, λ e. cc)
sig_rc-term_signals sigpipe m = inl (refl, λ e. cc)
sig_rc-term_signals sigio m = inl (refl, λ e. cc)
sig_rc-term_signals sigkill m = inl (refl, λ e. cc)
sig_rc-term_signals other_signal m = absurd (
    let e =
      In-named other_signal term_signals
        (refl, (refl, (refl, (refl, (refl, (refl, (refl, (refl, (refl, (refl, tt)))))))))) m in
    cc)
