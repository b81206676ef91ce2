-- ===== src/Startup.antt =====
-- main.c: `main`: the start of yar, its run and its end. `main` is split where the comments of the
-- source split it. What `daemon` prints and the messages of errors are left out.
pub mod Init
pub mod Log
pub mod Plans
pub mod Specs
pub mod Table
pub mod Serves
use yar.Base.{
  ℕ, Bool, true, false, ◌||◌, not, Option, none, some, List, [], ◌∷◌, ◌++◌, is_some, codes,
}
use yar.Kernel.{Str, Fd, Env, daemon_call, getpid_call, getcwd_call, report_call, epoll_create_call}
use yar.State.{Globals, Ptr, null_ptr, live_ptr, freed_ptr}
use yar.Monad.{
  M, Res, undefined, ◌>>=◌, ◌>>◌, pure, halt, assert, get, modify, when, call, call_, exit,
}
use yar.Tty.{tty_init, tty_register_events}
use yar.Cmd.Life.{cwd_prefix, snprintf_path, mon_suffix, fs_suffix, cmd_register_tty_events}
use yar.Registry.{load_cmd, for_cmds, set_config, set_bcsttty, cleanup, eexit}
use yar.Bcst.{gbls_add_cmd, bcst_create, bcst_register_events}
use yar.Args.{Opt, args_parse}
use yar.Loop.{Wait, Left, left, goes_on, the_loop}
use yar.Fs.{Fs, FsRes, done, fault}
use yar.Fs.Session.{Answers, Session, fs_create, yarfs_create}
use yar.Fs.Session.Tree.{zeroed_fs}
use yar.Startup.Init.{
  gbls_init, mon_init, mon_create, fs_init, sigproc_register_events, fs_register_events,
}
use yar.Startup.Log.{log_open}

-- `cwdPrefix(NULL)`, a copy of `GBLS.cwd`; of a null one it is undefined.
abbrev pub copy_cwd : Str → M Str
copy_cwd [] = halt undefined
copy_cwd (c ∷ cs) = pure (c ∷ cs)

unfoldable pub cwd_dir : M Str
cwd_dir = do g ← get; copy_cwd g.cwd

-- A directory that was given, or the working directory.
unfoldable pub dir_or_cwd : Option Str → M Str
dir_or_cwd none = cwd_dir
dir_or_cwd (some dir) = pure dir

abbrev pub or_empty : Option Str → Str
or_empty none = []
or_empty (some s) = s

-- `daemon`, `getpid`, `getcwd`, and the report of the pid.
unfoldable pub identify : M (Unit {0})
identify = do
  g ← get
  when g.config.daemonize (call daemon_call (λ (e : Env) h. e.daemon h) >>= assert)
  pid ← call getpid_call (λ (e : Env) h. e.getpid h)
  cwd ← call getcwd_call (λ (e : Env) h. e.getcwd h)
  modify (λ g. record g { pid = pid; cwd = or_empty cwd })
  call_ (report_call pid)

abbrev pub log_dir : Ptr → M Str
log_dir null_ptr = cwd_dir
log_dir (live_ptr dir) = pure dir
log_dir freed_ptr = halt undefined

unfoldable pub start_log : M (Unit {0})
start_log = do
  g ← get
  when (g.config.uselog || g.config.daemonize) (do
    dir ← log_dir g.config.logdir
    set_config (λ c. record c { logdir = live_ptr dir })
    opened ← log_open (some dir)
    when (not opened) eexit)

unfoldable pub start_mon : M (Unit {0})
start_mon = do
  g ← get
  dir ← dir_or_cwd g.config.monttylinkdir
  set_config (λ c. record c { monttylinkdir = some dir })
  mon_init true (some dir)
  mon_create

-- A function of `fs_t` run on the file system's own state, which is part of the result.
unfoldable pub on_fs : {A : Type 0} → FsRes A → M (A × Fs)
on_fs (done a s) = pure (a, s)
on_fs (fault h) = halt h

-- The object `GBLS.fs` before `fsCreate`.
abbrev pub session_of : Globals → Session
session_of g = record {
  mntpt = g.fs_mntpt;
  made_dir = g.config.made_dir;
  fuse_se = false;
  fuse_fd = g.config.fuse_fd;
}

-- `GBLS.fs` takes what `fsCreate` has set in it; without success yar exits.
abbrev pub take_fs : (Bool × Session) × Fs → M Fs
take_fs ((created, this), fs) =
    set_config (λ c. record c { made_dir = this.made_dir; fuse_fd = this.fuse_fd })
    >> (when (not created) eexit >> pure fs)

-- `fsCreate(&(GBLS.fs), argv[0], yarfsCreate)`
unfoldable pub create_fs : Answers → M Fs
create_fs w = get >>= λ g. on_fs (fs_create w yarfs_create (session_of g) zeroed_fs) >>= take_fs

unfoldable pub start_fs : Answers → M Fs
start_fs w = do
  g ← get
  dir ← dir_or_cwd g.config.fsmntptdir
  set_config (λ c. record c { fsmntptdir = some dir })
  fs_init true (some dir)
  create_fs w

-- The loop over the specifications, each under `assert(GBLSAddCmd(...))`.
unfoldable pub create_cmds : List Str → M (Unit {0})
create_cmds [] = pure tt
create_cmds (spec ∷ specs) = gbls_add_cmd spec >>= λ p. assert (is_some p) >> create_cmds specs

abbrev pub default_bcsttty_link : Str
default_bcsttty_link = codes "bcsttty"

abbrev pub bcst_link : Globals → Option Str → Str
bcst_link g none = cwd_prefix g.cwd (default_bcsttty_link)
bcst_link g (some link) = link

unfoldable pub start_bcst : M (Unit {0})
start_bcst = do
  g ← get
  let link = bcst_link g g.config.bcstttylink
  set_config (λ c. record c { bcstttylink = some link })
  t ←
      tty_init g.bcsttty (some link) (some (snprintf_path (link ++ mon_suffix))) g.mon.tty.link
        (some (snprintf_path (link ++ fs_suffix))) g.fs_mntpt true
  set_bcsttty t
  bcst_create

-- `main` from the accepted arguments to the file system.
unfoldable pub start_resources : Answers → M Fs
start_resources w = do
  identify
  start_log
  set_config (λ c. record c { at_exit = true })
  start_mon
  start_fs w

unfoldable pub start_cmds : Fs → M Fs
start_cmds fs = do g ← get; create_cmds g.config.initialcmdspecs; start_bcst; pure fs

-- `main` up to the call of `theLoop`.
unfoldable pub start_up : Answers → List Opt → List Str → M Fs
start_up w opts args = do
  gbls_init
  parsed ← args_parse opts args
  when (not parsed) eexit
  fs ← start_resources w
  start_cmds fs

-- `theLoop` up to its first round; the results of the registrations of the monitor, the file
-- system and the broadcast tty are not looked at.
unfoldable pub register_all : Fd → M (Unit {0})
register_all epollfd = do
  sigproc_register_events
  g ← get
  tty_register_events g.mon.tty
  fs_register_events
  bcst_register_events
  for_cmds (λ p. load_cmd p >>= cmd_register_tty_events >>= λ registered. pure tt)

abbrev pub loop_on : List Wait → Fd → M Left
loop_on waits none = pure (left false)
loop_on waits (some epollfd) = register_all (some epollfd) >> the_loop (some epollfd) waits

unfoldable pub run_loop : List Wait → M Left
run_loop waits = call epoll_create_call (λ (e : Env) h. e.epoll_create h) >>= loop_on waits

-- The end of `main`: the return from it runs `cleanup`.
abbrev pub leave : Left → M (Unit {0})
leave goes_on = pure tt
leave (left true) = cleanup >> exit
leave (left false) = eexit

-- A `main` that has not ended after the rounds in the list is still in its loop.
unfoldable pub main : Answers → List Opt → List Str → List Wait → M (Unit {0})
main w opts args waits = start_up w opts args >>= λ fs. run_loop waits >>= leave
