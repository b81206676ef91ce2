-- ===== src/Registry/Cleanup/Result.antt =====
-- main.c: what `cleanup` as a whole leaves.
use yar.Base.{◌≡◌, refl, sym, ap, ◌∙◌, true, false, Bool, none, []}
use yar.State.{Tty, Sys, Globals}
use yar.Monad.{ok, and_then-ok, ◌>>=◌, when, for_each}
use yar.Tty.{tty_cleanup}
use yar.Registry.{addrs, for_cmds, cleanup_cmd, set_bcsttty, cleanup}
use yar.Registry.Table.{cleanup_cmds-empty}
use yar.Registry.Cleanup.{Runs, bind-Runs, Runs-ok, cleared_tty, tty_cleanup-Runs}
use yar.Registry.Cleanup.Strings.{freed, not_freed, finish, finished, finish-ok}

abbrev pub cleared_if : Bool → Tty → Tty
cleared_if true t = cleared_tty
cleared_if false t = t

abbrev pub bcst_cleared : Globals → Globals
bcst_cleared g = record g { bcsttty = cleared_if g.bcstflg g.bcsttty }

pub bcst-Runs :
    (flag : Bool) (s : Sys)
    → Runs
        (when flag (tty_cleanup s.g.bcsttty >>= set_bcsttty))
        s
        tt
        (record s.g { bcsttty = cleared_if flag s.g.bcsttty })
bcst-Runs true s =
    bind-Runs (tty_cleanup s.g.bcsttty) _ s cleared_tty tt s.g _ (tty_cleanup-Runs s.g.bcsttty s)
      (λ cs. (cs, refl))
bcst-Runs false s = (s.calls, refl)

-- The globals `g` after the commands are cleared, and what the rest of `cleanup` makes of them.
pub record Cleaned (s s' : Sys) (g : Globals) : Type 0 where
  pub table : g.cmds ≡ []
  pub bcsttty : g.bcsttty ≡ cleared_if s.g.bcstflg s.g.bcsttty
  pub bcstflg : g.bcstflg ≡ s.g.bcstflg
  pub logdir : g.config.logdir ≡ s.g.config.logdir
  pub live : not_freed s.g.config.logdir ≡ true
  pub final : s'.g ≡ finished g

pub cleanup-Cleaned : (s s' : Sys) → cleanup s ≡ ok tt s' → (g : Globals) × Cleaned s s' g
unfolding cleanup for_cmds
cleanup-Cleaned s s' h =
    let (u1, s1, e1, h1) =
      and_then-ok (when s.g.bcstflg (tty_cleanup s.g.bcsttty >>= set_bcsttty) s) _ tt s' h in
    let (u2, s2, e2, h2) =
      and_then-ok (for_each (addrs s1.g.cmds) cleanup_cmd s1) (λ u. finish) tt s' h1 in
    let g1 =
      Runs-ok (when s.g.bcstflg (tty_cleanup s.g.bcsttty >>= set_bcsttty)) s s1 tt u1 _
        (bcst-Runs s.g.bcstflg s) e1 in
    let (empty, others) = cleanup_cmds-empty (addrs s1.g.cmds) s1 s2 refl e2 in
    let (final, live) = finish-ok s2 s' h2 in
    let dir : s2.g.config.logdir ≡ s.g.config.logdir =
      ap (λ c. c.logdir) others.config ∙ ap (λ (g : Globals). g.config.logdir) g1 in
    (
      s2.g,
      record {
        table = empty;
        bcsttty = others.bcsttty ∙ ap (λ (g : Globals). g.bcsttty) g1;
        bcstflg = others.bcstflg ∙ ap (λ (g : Globals). g.bcstflg) g1;
        logdir = dir;
        live = ap not_freed (sym dir) ∙ live;
        final = final;
      },
    )

-- A `cleanup` that ends leaves no commands and no slowest one, the broadcast tty cleared if there
-- was to be one, the monitor's tty cleared, no log open and no signal descriptor, the ready and
-- stop strings null, and a pointer to the log's directory that is null only if it was.
pub cleanup-clears :
    (s s' : Sys)
    → cleanup s ≡ ok tt s'
    → (s'.g.cmds ≡ [])
      × (s'.g.slowestcmd ≡ none)
      × (s'.g.bcsttty ≡ cleared_if s.g.bcstflg s.g.bcsttty)
      × (s'.g.mon.tty ≡ cleared_tty)
      × (s'.g.config.logfile ≡ false)
      × (s'.g.config.sfd ≡ none)
      × (s'.g.readystr ≡ none)
      × (s'.g.stopstr ≡ none)
      × (s'.g.config.logdir ≡ freed s.g.config.logdir)
cleanup-clears s s' h =
    let (g, c) = cleanup-Cleaned s s' h in
    let f = c.final in
    (
      ap (λ (g : Globals). g.cmds) f ∙ c.table,
      ap (λ (g : Globals). g.slowestcmd) f,
      ap (λ (g : Globals). g.bcsttty) f ∙ c.bcsttty,
      ap (λ (g : Globals). g.mon.tty) f,
      ap (λ (g : Globals). g.config.logfile) f,
      ap (λ (g : Globals). g.config.sfd) f,
      ap (λ (g : Globals). g.readystr) f,
      ap (λ (g : Globals). g.stopstr) f,
      ap (λ (g : Globals). g.config.logdir) f ∙ ap freed c.logdir,
    )
