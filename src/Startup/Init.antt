-- ===== src/Startup/Init.antt =====
-- main.c and fs.c: the first values of the parts of `GBLS`, the making of the monitor, and the
-- registrations of events.
use yar.Base.{
  ℕ, Bool, true, false, not, Option, none, some, ◌++◌, is_some, codes, decimal, replicate,
}
use yar.Kernel.{Str, Env, sigmask_call, signalfd_call, fdopen_call, epoll_add_call}
use yar.State.{Globals, mon_desc, mon_ifd_desc, mon_notify_desc}
use yar.Monad.{M, ◌>>=◌, ◌>>◌, assert, get, modify, when, call}
use yar.Tty.{zeroed_tty, tty_init, tty_create}
use yar.Registry.{set_config, set_bcsttty, eexit}
use yar.Mon.Table.{mon_linelen}
use yar.Args.{initial_globals}
use yar.Fs.Session.{path_max, fs_mount_point}
use yar.Startup.Log.{fitted}

unfoldable pub mon_tty_link : (n pid : ℕ) → (dir : Option Str) → Option Str
mon_tty_link n pid none = fitted n (decimal pid ++ codes ".mon")
mon_tty_link n pid (some dir) = fitted n (dir ++ (codes "/" ++ (decimal pid ++ codes ".mon")))

abbrev pub clear_mon : Globals → Globals
clear_mon g = record g {
  mon = record { line = replicate mon_linelen 0; tty = zeroed_tty; n = 0; silent = true };
}

unfoldable pub init_mon_tty : Option Str → M (Unit {0})
init_mon_tty link = do
  g ← get
  t ← tty_init g.mon.tty link none none none none true
  modify (λ g. record g { mon = record g.mon { tty = t } })

abbrev pub or_eexit : (Str → M (Unit {0})) → Option Str → M (Unit {0})
or_eexit m none = eexit
or_eexit m (some path) = m path

-- `monInit`, which is always called with `iszeroed`.
unfoldable pub mon_init : (initdir : Bool) → Option Str → M (Unit {0})
mon_init true dir =
    modify clear_mon
    >> (get >>= λ g. or_eexit (λ tmp. init_mon_tty (some tmp)) (mon_tty_link path_max g.pid dir))
mon_init false dir = modify clear_mon >> init_mon_tty none

-- `monttyCreate`
unfoldable pub mon_create : M (Unit {0})
mon_create = do
  g ← get
  (created, t) ← tty_create g.mon.tty mon_desc mon_ifd_desc mon_notify_desc true
  modify (λ g. record g { mon = record g.mon { tty = t } })
  when (not created) eexit
  stream ← call (fdopen_call t.dfd) (λ (e : Env) h. e.fdopen h t.dfd)
  when (not stream) eexit

unfoldable pub fs_set_mnt_pt : Option Str → M (Unit {0})
fs_set_mnt_pt mntpt = do
  g ← get
  assert (not (is_some g.fs_mntpt))
  modify (λ g. record g { fs_mntpt = mntpt })

abbrev pub clear_fs : Globals → Globals
clear_fs g = record g {
  fs_mntpt = none;
  config = record g.config { fuse_fd = none; made_dir = false };
}

-- `fsInit`, which is always called with `iszeroed`.
unfoldable pub fs_init : (initmntpt : Bool) → Option Str → M (Unit {0})
fs_init true dir =
    modify clear_fs
    >> (get >>= λ g. or_eexit (λ tmp. fs_set_mnt_pt (some tmp)) (fs_mount_point path_max g.pid dir))
fs_init false dir = modify clear_fs

unfoldable pub sigproc_init : M (Unit {0})
sigproc_init = do
  set_config (λ c. record c { sfd = none })
  blocked ← call sigmask_call (λ (e : Env) h. e.sigmask h)
  assert blocked
  sfd ← call signalfd_call (λ (e : Env) h. e.signalfd h)
  set_config (λ c. record c { sfd = sfd })
  assert (is_some sfd)

unfoldable pub gbls_init : M (Unit {0})
gbls_init = do
  modify (λ g. initial_globals)
  g ← get
  t ← tty_init g.bcsttty none none none none none true
  set_bcsttty t
  fs_init false none
  mon_init false none
  sigproc_init

unfoldable pub sigproc_register_events : M (Unit {0})
sigproc_register_events = do
  g ← get
  assert (is_some g.config.sfd)
  added ← call (epoll_add_call g.config.sfd) (λ (e : Env) h. e.epoll_add h g.config.sfd)
  assert added

unfoldable pub fs_register_events : M Bool
fs_register_events = do
  g ← get
  assert (is_some g.config.fuse_fd)
  call (epoll_add_call g.config.fuse_fd) (λ (e : Env) h. e.epoll_add h g.config.fuse_fd)
