-- ===== src/Sig.antt =====
-- yar.h and main.c: the signals that yar takes as events.
pub mod Terms
use yar.Base.{List, [], ◌∷◌, none, some, if◌then◌else◌}
use yar.Kernel.{
  Env, Signal, sigalrm, sigterm, sigint, sighup, sigquit, sigkill, sigusr1, sigvtalrm, sigusr2,
  sigpipe, sigio, other_signal, signal_read_call,
}
use yar.Monad.{M, aborted, ◌>>=◌, pure, halt, call}
use yar.Evnts.{Evnts, EvntRc, hdlr_success, hdlr_exit_loop}

-- `sigAddTermSignals`: what is blocked, and so comes by the signal descriptor.
unfoldable pub term_signals : List Signal
term_signals =
    sigalrm ∷ sigterm ∷ sigint ∷ sighup ∷ sigquit ∷ sigusr1 ∷ sigvtalrm ∷ sigusr2 ∷ sigpipe ∷ sigio
    ∷ []

-- The `switch` of `sigEvent`.
unfoldable pub sig_rc : Signal → EvntRc
sig_rc sigalrm = hdlr_exit_loop
sig_rc sigterm = hdlr_exit_loop
sig_rc sigint = hdlr_exit_loop
sig_rc sighup = hdlr_exit_loop
sig_rc sigkill = hdlr_exit_loop
sig_rc sigusr1 = hdlr_exit_loop
sig_rc sigvtalrm = hdlr_exit_loop
sig_rc sigusr2 = hdlr_exit_loop
sig_rc sigpipe = hdlr_exit_loop
sig_rc sigio = hdlr_exit_loop
sig_rc sigquit = hdlr_success
sig_rc other_signal = hdlr_success

unfoldable pub sig_event : Evnts → M EvntRc
sig_event evnts =
    if evnts.ein
    then (do
      r ← call signal_read_call (λ (e : Env) h. e.signal_read h)
      elim r [ none ↦ halt aborted | some signo ↦ pure (sig_rc signo) ])
    else pure hdlr_success
