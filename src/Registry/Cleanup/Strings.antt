-- ===== src/Registry/Cleanup/Strings.antt =====
-- main.c: the end of `cleanup`: the log, the strings and the signal descriptor.
use yar.Base.{
  ◌≡◌, refl, sym, ap, ◌∙◌, inl, inr, true, false, ◌||◌, not, Bool, Option, some, none, is_some,
  Bool-cases,
}
use yar.Kernel.{Str}
use yar.State.{Sys, Globals, Config, Ptr, null_ptr, live_ptr, freed_ptr}
use yar.Monad.{M, ok, and_then-ok, ◌>>◌, when, modify}
use yar.Tty.{close_if_open}
use yar.Registry.{
  end_log, cleanup_fs, mon_cleanup, sigproc_cleanup, close_log, free_logdir, free_strings,
  cleanup_strings,
}
use yar.Registry.Cleanup.{
  Runs, bind-Runs, Runs-ok, close_if_open-Runs, fs_cleared, cleanup_fs-Runs, mon_cleared,
  mon_cleanup-Runs,
}

-- The path of a log that is to be removed is known.
abbrev pub log_named : Config → Bool
log_named c = not c.logfile || (c.keeplog || is_some c.logpath)

abbrev set_log : Bool → Globals → Globals
set_log b g = record g { config = record g.config { logfile = b } }

abbrev pub log_closed : Globals → Globals
log_closed = set_log false

log-Runs :
    (opened keep : Bool) (path : Option Str) (s : Sys)
    → s.g.config.logfile ≡ opened
    → (not opened || (keep || is_some path)) ≡ true
    → Runs (when opened (end_log keep path)) s tt (log_closed s.g)
log-Runs false keep path s e h = (s.calls, ap (λ b. ok tt (record s { g = set_log b s.g })) e)
log-Runs true true path s e h = (_, refl)
log-Runs true false none s e h = absurd (cc)
log-Runs true false (some p) s e h = (_, refl)

log-stops :
    (opened keep : Bool) (path : Option Str) (s s' : Sys)
    → (not opened || (keep || is_some path)) ≡ false
    → when opened (end_log keep path) s ≡ ok tt s'
    → ⊥
log-stops false keep path s s' n h = cc
log-stops true true path s s' n h = cc
log-stops true false none s s' n h = cc
log-stops true false (some p) s s' n h = cc

close_log-Runs : (s : Sys) → log_named s.g.config ≡ true → Runs close_log s tt (log_closed s.g)
unfolding close_log
close_log-Runs s h = log-Runs s.g.config.logfile s.g.config.keeplog s.g.config.logpath s refl h

close_log-named : (s s' : Sys) → close_log s ≡ ok tt s' → log_named s.g.config ≡ true
unfolding close_log
close_log-named s s' h = elim (Bool-cases (log_named s.g.config)) [
  | inl e ↦ e
  | inr e ↦ absurd (log-stops s.g.config.logfile s.g.config.keeplog s.g.config.logpath s s' e h)
]

-- The pointer to the log's directory, once what it points to is freed.
abbrev pub freed : Ptr → Ptr
freed null_ptr = null_ptr
freed (live_ptr dir) = freed_ptr
freed freed_ptr = freed_ptr

abbrev pub not_freed : Ptr → Bool
not_freed freed_ptr = false
not_freed p = true

-- The path of the log, which is lost with a directory.
abbrev path_after : Ptr → Option Str → Option Str
path_after null_ptr path = path
path_after p path = none

abbrev dir_freed : Ptr → Globals → Globals
dir_freed p g = record g {
  config = record g.config { logdir = freed p; logpath = path_after p g.config.logpath };
}

free_logdir-Runs :
    (p : Ptr) (s : Sys)
    → s.g.config.logdir ≡ p
    → not_freed p ≡ true
    → Runs (free_logdir p) s tt (dir_freed p s.g)
unfolding free_logdir
free_logdir-Runs null_ptr s e h = (
  s.calls,
  ap (λ p. ok tt (record s { g = record s.g { config = record s.g.config { logdir = p } } })) e,
)
free_logdir-Runs (live_ptr d) s e h = (s.calls, refl)
free_logdir-Runs freed_ptr s e h = absurd (cc)

free_logdir-not_freed : (p : Ptr) (s s' : Sys) → free_logdir p s ≡ ok tt s' → not_freed p ≡ true
unfolding free_logdir
free_logdir-not_freed null_ptr s s' h = refl
free_logdir-not_freed (live_ptr d) s s' h = refl
free_logdir-not_freed freed_ptr s s' h = cc

abbrev sigproc_cleared : Globals → Globals
sigproc_cleared g = record g { config = record g.config { sfd = none } }

sigproc_cleanup-Runs : (s : Sys) → Runs sigproc_cleanup s tt (sigproc_cleared s.g)
unfolding sigproc_cleanup
sigproc_cleanup-Runs s =
    bind-Runs (close_if_open s.g.config.sfd) _ s tt tt s.g _ (close_if_open-Runs s.g.config.sfd s)
      (λ cs. (cs, refl))

-- The globals after the log, the strings and the signal descriptor are cleared.
abbrev pub strings_cleared : Globals → Globals
strings_cleared g = sigproc_cleared (free_strings (dir_freed g.config.logdir (log_closed g)))

cleanup_strings-Runs :
    (s : Sys)
    → log_named s.g.config ≡ true
    → not_freed s.g.config.logdir ≡ true
    → Runs cleanup_strings s tt (strings_cleared s.g)
unfolding cleanup_strings
cleanup_strings-Runs s named live =
    bind-Runs close_log _ s tt tt _ _ (close_log-Runs s named) (λ cs.
      bind-Runs (free_logdir s.g.config.logdir) _ _ tt tt _ _
        (free_logdir-Runs s.g.config.logdir _ refl live) (λ cs. sigproc_cleanup-Runs _))

cleanup_strings-live :
    (s s' : Sys)
    → cleanup_strings s ≡ ok tt s'
    → (log_named s.g.config ≡ true) × (not_freed s.g.config.logdir ≡ true)
unfolding cleanup_strings
cleanup_strings-live s s' h =
    let (u, s1, e1, h1) = and_then-ok (close_log s) _ tt s' h in
    let named = close_log-named s s1 e1 in
    let g1 = Runs-ok close_log s s1 tt tt _ (close_log-Runs s named) e1 in
    let (v, s2, e2, h2) = and_then-ok (free_logdir s1.g.config.logdir s1) _ tt s' h1 in
    (
      named,
      ap (λ (g : Globals). not_freed g.config.logdir) (sym g1)
          ∙ free_logdir-not_freed s1.g.config.logdir s1 s2 e2,
    )

-- `cleanup` from the commands on.
abbrev pub finish : M (Unit {0})
finish =
    modify (λ g. record g { slowestcmd = none }) >> (cleanup_fs >> (mon_cleanup >> cleanup_strings))

abbrev pub finished : Globals → Globals
finished g = strings_cleared (mon_cleared (fs_cleared (record g { slowestcmd = none })))

pub finish-Runs :
    (s : Sys)
    → log_named s.g.config ≡ true
    → not_freed s.g.config.logdir ≡ true
    → Runs finish s tt (finished s.g)
finish-Runs s named live = bind-Runs cleanup_fs _ _ tt tt _ _ (cleanup_fs-Runs _) (λ cs.
    bind-Runs mon_cleanup _ _ tt tt _ _ (mon_cleanup-Runs _)
      (λ cs. cleanup_strings-Runs _ named live))

-- What a `cleanup` that ends finds and leaves.
pub finish-ok :
    (s s' : Sys)
    → finish s ≡ ok tt s'
    → (s'.g ≡ finished s.g) × (not_freed s.g.config.logdir ≡ true)
finish-ok s s' h =
    let s0 : Sys = record s { g = record s.g { slowestcmd = none } } in
    let (u1, s1, e1, h1) = and_then-ok (cleanup_fs s0) _ tt s' h in
    let (u2, s2, e2, h2) = and_then-ok (mon_cleanup s1) _ tt s' h1 in
    let g1 = Runs-ok cleanup_fs s0 s1 tt u1 _ (cleanup_fs-Runs s0) e1 in
    let g2 = Runs-ok mon_cleanup s1 s2 tt u2 _ (mon_cleanup-Runs s1) e2 in
    let all = g2 ∙ ap mon_cleared g1 in
    let (named, live) = cleanup_strings-live s2 s' h2 in
    let named' = ap (λ (g : Globals). log_named g.config) (sym all) ∙ named in
    let live' = ap (λ (g : Globals). not_freed g.config.logdir) (sym all) ∙ live in
    (Runs-ok finish s s' tt tt _ (finish-Runs s named' live') h, live')
