-- ===== src/Startup/Plans.antt =====
-- main.c: rules for the steps of the start that leave the table of commands and the specifications
-- of the commands to be made as they are.
pub mod Steps
use yar.Base.{
  ℕ, ◌≡◌, refl, subst, ap, ◌∙◌, Bool, true, false, not, Option, none, some, List, [], ◌∷◌,
  if◌then◌else◌,
}
use yar.Kernel.{Str, Env, Fd, Call, History}
use yar.State.{
  Tty, EvntDesc, Sys, Globals, Config, Ptr, null_ptr, live_ptr, freed_ptr, mon_desc, mon_ifd_desc,
  mon_notify_desc,
}
use yar.Monad.{
  M, Res, Halt, ok, stop, ◌>>=◌, ◌>>◌, pure, halt, assert, get, modify, when, call, call_, and_then,
  exit,
}
use yar.Tty.{tty_init, tty_create}
use yar.Fs.{FsRes, done, fault}
use yar.Fs.Session.{Answers}
use yar.Args.{initial_globals}
use yar.Frame.{Keeps, Same, kept, keeping, After, bind-Keeps}
use yar.Frame.Create.{tty_init-Keeps, tty_create-Keeps}
use yar.Registry.{set_config, set_bcsttty, cleanup, eexit}
use yar.Bcst.{bcst_create}
use yar.Startup.{
  copy_cwd, cwd_dir, dir_or_cwd, or_empty, identify, log_dir, start_log, start_mon, on_fs,
  session_of, create_fs, start_fs, start_bcst,
}
use yar.Startup.Init.{
  init_mon_tty, clear_mon, or_eexit, mon_init, mon_create, fs_set_mnt_pt, clear_fs, fs_init,
  sigproc_init, gbls_init,
}
use yar.Startup.Log.{store_log_path, set_log_path, freopen, log_open}

pub record Planned (s s' : Sys) : Type 0 where
  pub cmds : s'.g.cmds ≡ s.g.cmds
  pub specs : s'.g.config.initialcmdspecs ≡ s.g.config.initialcmdspecs

pub Planned-refl : (s : Sys) → Planned s s
Planned-refl s = record { cmds = refl; specs = refl }

pub Planned-trans : (s t u : Sys) → Planned s t → Planned t u → Planned s u
Planned-trans s t u a b = record { cmds = b.cmds ∙ a.cmds; specs = b.specs ∙ a.specs }

pub record Plans {A : Type 0} (m : M A) : Type 0 where
  pub run : (s : Sys) → After (Planned s) (m s)

After-Planned :
    {A : Type 0} (s t : Sys) (r : Res A) → Planned s t → After (Planned t) r → After (Planned s) r
After-Planned s t (ok a u) st tu = Planned-trans s t u st tu
After-Planned s t (stop h u) st tu = tt

After-next :
    {A B : Type 0} (s : Sys) (r : Res A) (f : A → M B)
    → After (Planned s) r
    → ((a : A) → Plans (f a))
    → After (Planned s) (and_then r f)
After-next s (ok a t) f st kf = After-Planned s t (f a t) st ((kf a).run t)
After-next s (stop h t) f st kf = tt

pub bind-Plans :
    {A B : Type 0} (m : M A) (f : A → M B) → Plans m → ((a : A) → Plans (f a)) → Plans (m >>= f)
bind-Plans m f km kf = record { run = λ s. After-next s (m s) f (km.run s) kf }

After-Same : {A : Type 0} (s : Sys) (r : Res A) → After (Same s) r → After (Planned s) r
After-Same s (ok a t) same = record {
  cmds = same.cmds;
  specs = ap (λ (c : Config). c.initialcmdspecs) same.config;
}
After-Same s (stop h t) same = tt

pub Keeps-Plans : {A : Type 0} (m : M A) → Keeps m → Plans m
Keeps-Plans m k = record { run = λ s. After-Same s (m s) (k.run s) }

pub pure-Plans : {A : Type 0} (a : A) → Plans (pure a)
pure-Plans a = record { run = Planned-refl }

pub halt-Plans : {A : Type 0} (h : Halt) → Plans (halt {A = A} h)
halt-Plans h = record { run = λ s. tt }

pub assert-Plans : (b : Bool) → Plans (assert b)
assert-Plans true = pure-Plans tt
assert-Plans false = record { run = λ s. tt }

pub get-Plans : Plans get
get-Plans = record { run = Planned-refl }

pub call-Plans : {A : Type 0} (c : Call) (f : Env → History → A) → Plans (call c f)
call-Plans c f = record { run = λ s. record { cmds = refl; specs = refl } }

pub call_-Plans : (c : Call) → Plans (call_ c)
call_-Plans c = record { run = λ s. record { cmds = refl; specs = refl } }

pub when-Plans : (b : Bool) (m : M (Unit {0})) → Plans m → Plans (when b m)
when-Plans true m k = k
when-Plans false m k = pure-Plans tt

pub if-Plans : {A : Type 0} (b : Bool) (m n : M A) → Plans m → Plans n → Plans (if b then m else n)
if-Plans true m n km kn = km
if-Plans false m n km kn = kn

pub set-Plans :
    (f : Globals → Globals)
    → ((g : Globals) → (f g).cmds ≡ g.cmds)
    → ((g : Globals) → (f g).config.initialcmdspecs ≡ g.config.initialcmdspecs)
    → Plans (modify f)
set-Plans f c n = record { run = λ s. record { cmds = c s.g; specs = n s.g } }

-- A run that ends in `exit` does not go on, whatever it does before.
After-exit :
    {A : Type 0} (B : Type 0) (s : Sys) (r : Res A)
    → After (Planned s) (and_then {B = B} r (λ u. exit))
After-exit B s (ok a t) = tt
After-exit B s (stop h t) = tt

pub exit-Plans : {A B : Type 0} (m : M A) → Plans (m >> exit {A = B})
exit-Plans {B = B} m = record { run = λ s. After-exit B s (m s) }

pub eexit-Plans : {A : Type 0} → Plans (eexit {A = A})
unfolding eexit
eexit-Plans {A = A} = record { run = λ s. After-exit A s (when s.g.config.at_exit cleanup s) }

pub ruleset planning = (
  bind-Plans, pure-Plans, halt-Plans, assert-Plans, get-Plans, call-Plans, call_-Plans, when-Plans,
  if-Plans, eexit-Plans, set-Plans, refl,
)

-- What a run that has ended kept.
pub planned : {A : Type 0} {m : M A} → Plans m → (s s' : Sys) (a : A) → m s ≡ ok a s' → Planned s s'
planned k s s' a h = subst (After (Planned s)) h (k.run s)
