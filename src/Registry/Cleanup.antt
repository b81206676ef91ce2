-- ===== src/Registry/Cleanup.antt =====
-- main.c: the stages of `cleanup`, and what they leave.
pub mod Strings
pub mod Result
pub mod Again
pub mod Idle
use yar.Base.{
  ℕ, ◌≡◌, refl, sym, ap, subst, ◌∙◌, inl, inr, true, false, ◌&&◌, ◌||◌, not, Bool, Option, some,
  none, List, [], ◌∷◌, is_some, if◌then◌else◌, Bool-cases,
}
use yar.Kernel.{Str, Fd, History, fclose_call, remove_call}
use yar.State.{Tty, Sys, Globals, Config, Ptr, null_ptr, live_ptr, freed_ptr}
use yar.Monad.{M, Res, ok, stop, and_then, and_then-ok, ◌>>=◌, ◌>>◌, pure, when, modify, deref}
use yar.Tty.{zeroed_tty, tty_cleanup, close_if_open, unlink_link}
use yar.Registry.{
  end_log, cleanup_fs, mon_cleanup, sigproc_cleanup, close_log, free_logdir, free_strings,
  set_bcsttty, cleanup_strings,
}

-- A run of `m` from `s` ends with `a`, and all it changes is the calls made and the globals, now
-- `g`.
abbrev pub Runs : {A : Type 0} → M A → Sys → A → Globals → Type 0
Runs m s a g = (cs : History) × (m s ≡ ok a (record s { calls = cs; g = g }))

pub bind-Runs :
    {A B : Type 0} (m : M A) (f : A → M B) (s : Sys) (a : A) (b : B) (g g' : Globals)
    → Runs m s a g
    → ((cs : History) → Runs (f a) (record s { calls = cs; g = g }) b g')
    → Runs (m >>= f) s b g'
bind-Runs m f s a b g g' (cs, e) next =
    let (cs', e') = next cs in (cs', ap (λ r. and_then r f) e ∙ e')

-- What a run that ends has left in the globals.
pub Runs-ok :
    {A : Type 0} (m : M A) (s s' : Sys) (a b : A) (g : Globals)
    → Runs m s a g
    → m s ≡ ok b s'
    → s'.g ≡ g
Runs-ok m s s' a b g (cs, e) h = last (record s { calls = cs; g = g }) s' (sym e ∙ h)
  where
    last : (t t' : Sys) → ok a t ≡ ok b t' → t'.g ≡ t.g
    last t t' e = let same : t ≡ t' = cc in ap (λ (x : Sys). x.g) (sym same)

-- A tty of which nothing is open or linked.
abbrev pub cleared_tty : Tty
cleared_tty = record zeroed_tty { dfd = none; sfd = none; iwd = none; ifd = none }

pub close_if_open-Runs : (fd : Fd) (s : Sys) → Runs (close_if_open fd) s tt s.g
unfolding close_if_open
close_if_open-Runs none s = (s.calls, refl)
close_if_open-Runs (some d) s = (_, refl)

unlink_link-Runs : (l : Option Str) (s : Sys) → Runs (unlink_link l) s tt s.g
unfolding unlink_link
unlink_link-Runs none s = (s.calls, refl)
unlink_link-Runs (some []) s = (s.calls, refl)
unlink_link-Runs (some (c ∷ cs)) s = (_, refl)

then-Runs :
    {B : Type 0} (m : M (Unit {0})) (k : M B) (s : Sys) (b : B)
    → ((t : Sys) → Runs m t tt t.g)
    → ((t : Sys) → Runs k t b t.g)
    → Runs (m >> k) s b s.g
then-Runs m k s b hm hk = bind-Runs m (λ u. k) s tt b s.g s.g (hm s) (λ cs. hk _)

-- `tty_cleanup` always ends, with a cleared tty.
pub tty_cleanup-Runs : (t : Tty) (s : Sys) → Runs (tty_cleanup t) s cleared_tty s.g
unfolding tty_cleanup
tty_cleanup-Runs t s = then-Runs _ _ s _ (close_if_open-Runs t.ifd) (λ s.
    then-Runs _ _ s _ (close_if_open-Runs t.dfd) (λ s.
      then-Runs _ _ s _ (close_if_open-Runs t.sfd) (λ s.
        then-Runs _ _ s _ (unlink_link-Runs t.link) (λ s.
          then-Runs _ _ s _ (unlink_link-Runs t.extralink1_src)
            (λ s. then-Runs _ _ s _ (unlink_link-Runs t.extralink2_src) (λ s. (s.calls, refl)))))))

abbrev pub fs_is_mounted : Globals → Bool
fs_is_mounted g = is_some g.fs_mntpt && g.config.made_dir

abbrev pub fs_cleared : Globals → Globals
fs_cleared g = record g { fs_mntpt = if fs_is_mounted g then none else g.fs_mntpt }

pub cleanup_fs-Runs : (s : Sys) → Runs cleanup_fs s tt (fs_cleared s.g)
unfolding cleanup_fs
cleanup_fs-Runs s = elim (Bool-cases (fs_is_mounted s.g)) [
  | inl e ↦ rw e (_, refl)
  | inr e ↦ rw e (s.calls, refl)
]

abbrev pub mon_cleared : Globals → Globals
mon_cleared g = record g { mon = record g.mon { tty = cleared_tty; n = 0 } }

pub mon_cleanup-Runs : (s : Sys) → Runs mon_cleanup s tt (mon_cleared s.g)
unfolding mon_cleanup
mon_cleanup-Runs s =
    bind-Runs (tty_cleanup s.g.mon.tty) _ s cleared_tty tt s.g _ (tty_cleanup-Runs s.g.mon.tty s)
      (λ cs. (cs, refl))
