-- ===== src/Registry/Cleanup/Again.antt =====
-- main.c: `cleanup` run again.
use yar.Base.{
  ◌≡◌, refl, sym, ap, ap₂, ◌∙◌, true, false, ◌&&◌, Bool, Option, some, none, [], is_some,
  if◌then◌else◌,
}
use yar.Kernel.{Str, fs_cleanup_call}
use yar.State.{Tty, Sys, Globals, Ptr, null_ptr, live_ptr, freed_ptr}
use yar.Monad.{M, Res, undefined, ok, stop, and_then, ◌>>=◌, ◌>>◌, when, for_each, call_, modify}
use yar.Tty.{tty_cleanup, close_if_open, unlink_link}
use yar.Registry.{
  addrs, for_cmds, cleanup_cmd, cleanup_fs, mon_cleanup, sigproc_cleanup, close_log, free_logdir,
  cleanup_strings, free_strings, set_bcsttty, set_config, end_log, cleanup,
}
use yar.Registry.Cleanup.{cleared_tty, fs_is_mounted}
use yar.Registry.Cleanup.Strings.{freed, finish, finished}
use yar.Registry.Cleanup.Result.{cleared_if, cleanup-Cleaned}

-- What a second `cleanup` comes to, by the pointer that the first one found.
abbrev pub again : Ptr → Sys → Res (Unit {0})
again null_ptr s = ok tt s
again p s = stop undefined s

pub then-still :
    (m k : M (Unit {0})) (s : Sys) (r : Res (Unit {0})) → m s ≡ ok tt s → k s ≡ r → (m >> k) s ≡ r
then-still m k s r e e' = ap (λ r. and_then r (λ u. k)) e ∙ e'

bcst-still :
    (flag : Bool) (t : Tty) (s : Sys)
    → s.g.bcsttty ≡ cleared_if flag t
    → when flag (tty_cleanup s.g.bcsttty >>= set_bcsttty) s ≡ ok tt s
unfolding tty_cleanup close_if_open unlink_link
bcst-still false t s e = refl
bcst-still true t s e =
    ap (λ t. (tty_cleanup t >>= set_bcsttty) s) e
    ∙ ap (λ t. ok tt (record s { g = record s.g { bcsttty = t } })) (sym e)

cleared-unmounted :
    (p : Option Str) (b : Bool) → (is_some (if is_some p && b then none else p) && b) ≡ false
cleared-unmounted none b = refl
cleared-unmounted (some x) true = refl
cleared-unmounted (some x) false = refl

fs-still : (s : Sys) → fs_is_mounted s.g ≡ false → cleanup_fs s ≡ ok tt s
unfolding cleanup_fs
fs-still s e =
    ap (λ b. when b (call_ fs_cleanup_call >> modify (λ g. record g { fs_mntpt = none })) s) e

abbrev set_mon_tty : Tty → Globals → Globals
set_mon_tty t g = record g { mon = record g.mon { tty = t; n = 0 } }

abbrev no_slowest : Globals → Globals
no_slowest g = record g { slowestcmd = none }

mon-still : (s : Sys) → s.g.mon.tty ≡ cleared_tty → s.g.mon.n ≡ 0 → mon_cleanup s ≡ ok tt s
unfolding mon_cleanup tty_cleanup close_if_open unlink_link
mon-still s e n =
    ap (λ t. (tty_cleanup t >>= λ t. modify (set_mon_tty t)) s) e
    ∙ ap₂ (λ t n. ok tt (record s { g = record s.g { mon = record s.g.mon { tty = t; n = n } } }))
        (sym e) (sym n)

slow-still : (s : Sys) → s.g.slowestcmd ≡ none → modify no_slowest s ≡ ok tt s
slow-still s e = ap (λ p. ok tt (record s { g = record s.g { slowestcmd = p } })) (sym e)

log-still : (s : Sys) → s.g.config.logfile ≡ false → close_log s ≡ ok tt s
unfolding close_log
log-still s e = ap (λ b. when b (end_log s.g.config.keeplog s.g.config.logpath) s) e

sigproc-still : (s : Sys) → s.g.config.sfd ≡ none → sigproc_cleanup s ≡ ok tt s
unfolding sigproc_cleanup close_if_open
sigproc-still s e =
    ap (λ fd. (close_if_open fd >> set_config (λ c. record c { sfd = none })) s) e
    ∙ ap (λ fd. ok tt (record s { g = record s.g { config = record s.g.config { sfd = fd } } }))
        (sym e)

free_logdir-again : (p : Ptr) (s : Sys) → free_logdir (freed p) s ≡ again p s
unfolding free_logdir
free_logdir-again null_ptr s = refl
free_logdir-again (live_ptr d) s = refl
free_logdir-again freed_ptr s = refl

after_again :
    (p : Ptr) (k : M (Unit {0})) (s : Sys)
    → k s ≡ ok tt s
    → and_then (again p s) (λ u. k) ≡ again p s
after_again null_ptr k s e = e
after_again (live_ptr d) k s e = refl
after_again freed_ptr k s e = refl

strings-still :
    (s : Sys)
    → free_strings s.g ≡ s.g
    → s.g.config.sfd ≡ none
    → (modify free_strings >> sigproc_cleanup) s ≡ ok tt s
strings-still s strings sfd =
    ap (λ g. sigproc_cleanup (record s { g = g })) strings ∙ sigproc-still s sfd

strings-again :
    (p : Ptr) (s : Sys)
    → s.g.config.logfile ≡ false
    → s.g.config.logdir ≡ freed p
    → free_strings s.g ≡ s.g
    → s.g.config.sfd ≡ none
    → cleanup_strings s ≡ again p s
unfolding cleanup_strings
strings-again p s log dir strings sfd =
    then-still close_log
      (λ t. (free_logdir t.g.config.logdir >> (modify free_strings >> sigproc_cleanup)) t) s _
      (log-still s log)
      (ap (λ p. and_then (free_logdir p s) (λ u. modify free_strings >> sigproc_cleanup)) dir
        ∙ ap (λ r. and_then r (λ u. modify free_strings >> sigproc_cleanup)) (free_logdir-again p s)
        ∙ after_again p (modify free_strings >> sigproc_cleanup) s (strings-still s strings sfd))

-- The rest of `cleanup` on globals that it has left.
finish-again :
    (p : Ptr) (s : Sys) (g : Globals)
    → s.g ≡ finished g
    → g.config.logdir ≡ p
    → finish s ≡ again p s
finish-again p s g e dir =
    then-still (modify no_slowest) (cleanup_fs >> (mon_cleanup >> cleanup_strings)) s _
      (slow-still s (ap (λ (g : Globals). g.slowestcmd) e))
      (then-still cleanup_fs (mon_cleanup >> cleanup_strings) s _
        (fs-still s (ap fs_is_mounted e ∙ cleared-unmounted g.fs_mntpt g.config.made_dir))
        (then-still mon_cleanup cleanup_strings s _
          (mon-still s (ap (λ (g : Globals). g.mon.tty) e) (ap (λ (g : Globals). g.mon.n) e))
          (strings-again p s (ap (λ (g : Globals). g.config.logfile) e)
            (ap (λ (g : Globals). g.config.logdir) e ∙ ap freed dir) (ap free_strings e ∙ sym e)
            (ap (λ (g : Globals). g.config.sfd) e))))

pub cmds-still : (s : Sys) → s.g.cmds ≡ [] → for_cmds cleanup_cmd s ≡ ok tt s
unfolding for_cmds
cmds-still s e = ap (λ cs. for_each (addrs cs) cleanup_cmd s) e

-- After a `cleanup` that ends, a second one makes no call and changes nothing if there is no
-- directory for the log, and frees that directory again, which is undefined, if there is one.
pub cleanup-again : (s s' : Sys) → cleanup s ≡ ok tt s' → cleanup s' ≡ again s.g.config.logdir s'
unfolding cleanup
cleanup-again s s' h =
    let (g, c) = cleanup-Cleaned s s' h in
    let f = c.final in
    let flag : s'.g.bcstflg ≡ s.g.bcstflg = ap (λ (g : Globals). g.bcstflg) f ∙ c.bcstflg in
    let tty : s'.g.bcsttty ≡ cleared_if s'.g.bcstflg s.g.bcsttty =
      ap (λ (g : Globals). g.bcsttty) f
      ∙ c.bcsttty
      ∙ ap (λ b. cleared_if b s.g.bcsttty) (sym flag) in
    then-still (when s'.g.bcstflg (tty_cleanup s'.g.bcsttty >>= set_bcsttty))
      (for_cmds cleanup_cmd >> finish) s' _ (bcst-still s'.g.bcstflg s.g.bcsttty s' tty)
      (then-still (for_cmds cleanup_cmd) finish s' _
        (cmds-still s' (ap (λ (g : Globals). g.cmds) f ∙ c.table))
        (finish-again s.g.config.logdir s' g f c.logdir))
