-- ===== src/Startup/Plans/Steps.antt =====
-- main.c: the steps of the start that leave the table of commands and the specifications alone.
use yar.Base.{◌≡◌, Bool, true, false, not, Option, none, some, [], ◌∷◌}
use yar.Kernel.{Str}
use yar.State.{Tty, EvntDesc, Sys, Ptr, null_ptr, live_ptr, freed_ptr}
use yar.Monad.{M, ok, ◌>>=◌, ◌>>◌, get, when, exit}
use yar.Tty.{tty_init, tty_create}
use yar.Fs.{Fs, FsRes, done, fault}
use yar.Fs.Session.{Answers, Session}
use yar.Args.{initial_globals}
use yar.Frame.{After}
use yar.Frame.Create.{tty_init-Keeps, tty_create-Keeps}
use yar.Registry.{set_bcsttty, cleanup}
use yar.Bcst.{bcst_create}
use yar.Startup.{
  copy_cwd, cwd_dir, dir_or_cwd, identify, log_dir, start_log, start_mon, on_fs, take_fs, create_fs,
  start_fs, start_bcst,
}
use yar.Startup.Init.{
  init_mon_tty, or_eexit, mon_init, mon_create, fs_set_mnt_pt, fs_init, sigproc_init, gbls_init,
}
use yar.Startup.Log.{store_log_path, set_log_path, log_open}
use yar.Startup.Plans.{
  Planned-refl, Planned, Plans, planned, planning, Keeps-Plans, pure-Plans, halt-Plans, when-Plans,
  exit-Plans, eexit-Plans,
}

cwd_dir-Plans : Plans cwd_dir
unfolding cwd_dir
cwd_dir-Plans = record { run = λ s. copied s.g.cwd s }
  where
    copied : (cwd : Str) (s : Sys) → After (Planned s) (copy_cwd cwd s)
    copied [] s = tt
    copied (c ∷ cs) s = Planned-refl s

dir_or_cwd-Plans : (o : Option Str) → Plans (dir_or_cwd o)
unfolding dir_or_cwd
dir_or_cwd-Plans none = cwd_dir-Plans
dir_or_cwd-Plans (some d) = pure-Plans d

pub identify-Plans : Plans identify
unfolding identify
identify-Plans = search planning depth 24

log_dir-Plans : (p : Ptr) → Plans (log_dir p)
log_dir-Plans null_ptr = cwd_dir-Plans
log_dir-Plans (live_ptr d) = pure-Plans d
log_dir-Plans freed_ptr = halt-Plans _

store_log_path-Plans : (o : Option Str) → Plans (store_log_path o)
store_log_path-Plans none = pure-Plans false
store_log_path-Plans (some path) = search planning

log_open-Plans : (dir : Option Str) → Plans (log_open dir)
unfolding log_open set_log_path
log_open-Plans dir = search (planning, store_log_path-Plans) depth 24

pub start_log-Plans : Plans start_log
unfolding start_log
start_log-Plans = search (planning, log_dir-Plans, log_open-Plans) depth 24

or_eexit-Plans :
    (m : Str → M (Unit {0})) (o : Option Str)
    → ((path : Str) → Plans (m path))
    → Plans (or_eexit m o)
or_eexit-Plans m none k = eexit-Plans
or_eexit-Plans m (some path) k = k path

tty_init-Plans : (t : Tty) (a b c d e : Option Str) (z : Bool) → Plans (tty_init t a b c d e z)
tty_init-Plans t a b c d e z = Keeps-Plans _ (tty_init-Keeps t a b c d e z)

tty_create-Plans : (t : Tty) (a b c : EvntDesc) (raw : Bool) → Plans (tty_create t a b c raw)
tty_create-Plans t a b c raw = Keeps-Plans _ (tty_create-Keeps t a b c raw)

init_mon_tty-Plans : (l : Option Str) → Plans (init_mon_tty l)
unfolding init_mon_tty
init_mon_tty-Plans l = search (planning, tty_init-Plans) depth 12

mon_init-Plans : (b : Bool) (dir : Option Str) → Plans (mon_init b dir)
unfolding mon_init
mon_init-Plans true dir = search (planning, or_eexit-Plans, init_mon_tty-Plans) depth 12
mon_init-Plans false dir = search (planning, init_mon_tty-Plans) depth 12

mon_create-Plans : Plans mon_create
unfolding mon_create
mon_create-Plans = search (planning, tty_create-Plans) depth 24

pub start_mon-Plans : Plans start_mon
unfolding start_mon
start_mon-Plans = search (planning, dir_or_cwd-Plans, mon_init-Plans, mon_create-Plans) depth 16

fs_set_mnt_pt-Plans : (o : Option Str) → Plans (fs_set_mnt_pt o)
unfolding fs_set_mnt_pt
fs_set_mnt_pt-Plans o = search planning depth 10

fs_init-Plans : (b : Bool) (dir : Option Str) → Plans (fs_init b dir)
unfolding fs_init
fs_init-Plans true dir = search (planning, or_eexit-Plans, fs_set_mnt_pt-Plans) depth 12
fs_init-Plans false dir = search planning

on_fs-Plans : {A : Type 0} (r : FsRes A) → Plans (on_fs r)
unfolding on_fs
on_fs-Plans (done a s) = pure-Plans (a, s)
on_fs-Plans (fault h) = halt-Plans h

take_fs-Plans : (r : (Bool × Session) × Fs) → Plans (take_fs r)
take_fs-Plans ((created, this), fs) = search planning depth 8

create_fs-Plans : (w : Answers) → Plans (create_fs w)
unfolding create_fs
create_fs-Plans w = search (planning, on_fs-Plans, take_fs-Plans) depth 16

pub start_fs-Plans : (w : Answers) → Plans (start_fs w)
unfolding start_fs
start_fs-Plans w = search (planning, dir_or_cwd-Plans, fs_init-Plans, create_fs-Plans) depth 16

exit_unless : (created : Bool) → Plans (when (not created) (cleanup >> exit))
exit_unless created = when-Plans (not created) (cleanup >> exit) (exit-Plans cleanup)

bcst_create-Plans : Plans bcst_create
unfolding bcst_create
bcst_create-Plans = search (planning, tty_create-Plans, exit_unless) depth 16

pub start_bcst-Plans : Plans start_bcst
unfolding start_bcst
start_bcst-Plans = search (planning, tty_init-Plans, bcst_create-Plans) depth 16

-- `gbls_init` behind its first assignment.
sigproc_init-Plans : Plans sigproc_init
unfolding sigproc_init
sigproc_init-Plans = search planning depth 16

abbrev behind_first : M (Unit {0})
behind_first = do
  g ← get
  t ← tty_init g.bcsttty none none none none none true
  set_bcsttty t
  fs_init false none
  mon_init false none
  sigproc_init

behind_first-Plans : Plans behind_first
behind_first-Plans =
    search (planning, tty_init-Plans, fs_init-Plans, mon_init-Plans, sigproc_init-Plans) depth 16

-- The globals begin with no command, and none to be made.
pub gbls_init-fresh :
    (s s' : Sys) (u : Unit {0})
    → gbls_init s ≡ ok u s'
    → (s'.g.cmds ≡ []) × (s'.g.config.initialcmdspecs ≡ [])
unfolding gbls_init initial_globals
gbls_init-fresh s s' u h =
    let p = planned behind_first-Plans (record s { g = initial_globals }) s' u h in
    (p.cmds, p.specs)
