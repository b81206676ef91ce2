-- ===== src/Cmd/Life.antt =====
-- cmd.c and cmd.h: making and starting a command.
pub mod Start
use yar.Base.{
  ℕ, ◌+◌, Bool, true, false, ◌&&◌, not, Option, none, some, [], ◌∷◌, ◌++◌, if◌then◌else◌, is_some,
  length, replicate, take, ◌==◌,
}
use yar.Kernel.{Str, Fd, ℤ, pos, Env, set_cloexec_call, epoll_add_call, fork_call, pidfd_open_call}
use yar.State.{
  Cmd, EvntDesc, no_desc, cmd_pid_desc, cmd_cmdtty_desc, cmd_clttty_desc, cmd_clttty_notify_desc,
  cmd_cmdtty_ifd_desc, cmd_clttty_ifd_desc,
}
use yar.Monad.{M, ◌>>=◌, ◌>>◌, pure, assert, get, call, call_, deref}
use yar.Tty.{zeroed_tty, tty_init, tty_create, tty_register_events}

abbrev pub is_running : Cmd → Bool
is_running this = is_some this.pid

-- `bzero(this, sizeof(cmd_t))` on the object at `addr`.
abbrev pub zeroed_cmd : ℕ → Cmd
zeroed_cmd addr = record {
  addr = addr;
  buf = replicate 4096 0;
  cmdtty = zeroed_tty;
  clttty = zeroed_tty;
  pidfded = no_desc;
  lastwrite = 0;
  cmdstr = none;
  name = none;
  bcstprefix = none;
  cmdline = none;
  log = none;
  stopstr = none;
  delay = pos 0;
  pid = some 0;
  bufn = 0;
  bufstart = 0;
  bufof = 0;
  bcstprefixlen = 0;
  pidfd = some 0;
  exitstatus = some 0;
  readycnt = 0;
  restartcnt = 0;
  restart = false;
  deleteonexit = false;
}

-- `snprintf` into an array of PATH_MAX bytes.
abbrev pub path_max : ℕ
path_max = 4096

abbrev pub snprintf_path : Str → Str
snprintf_path s = take 4095 s

-- `cwdPrefix` of a path.
unfoldable pub cwd_prefix : Str → Str → Str
cwd_prefix cwd path = snprintf_path (cwd ++ (b'/' ∷ path))

abbrev pub mon_suffix : Str
mon_suffix = b'.' ∷ b'm' ∷ b'o' ∷ b'n' ∷ []

abbrev pub fs_suffix : Str
fs_suffix = b'.' ∷ b'f' ∷ b's' ∷ []

-- The link of the client tty: the one given, or the command's name in the working directory.
abbrev pub tty_link : Str → Option Str → Str → Str
tty_link cwd (some l) name = l
tty_link cwd none name = cwd_prefix cwd name

-- `cmdInit` on a zeroed object; the fields that it sets to zero or null are so already.
unfoldable pub cmd_init : ℕ → (cmdstr name cmdline : Str) → ℤ → (ttylink log : Option Str) → M Cmd
cmd_init addr cmdstr name cmdline delay ttylink log = do
  assert (not (is_some log))
  g ← get
  let z = zeroed_cmd addr
  let link = tty_link g.cwd ttylink name
  cmdtty ← tty_init z.cmdtty none none none none none true
  clttty ←
      tty_init z.clttty (some link) (some (snprintf_path (link ++ mon_suffix))) g.mon.tty.link
        (some (snprintf_path (link ++ fs_suffix))) g.fs_mntpt true
  pure (record z {
    cmdtty = cmdtty;
    clttty = clttty;
    cmdstr = some cmdstr;
    name = some name;
    bcstprefixlen = length name + 2;
    bcstprefix = some (name ++ (b':' ∷ b' ' ∷ []));
    cmdline = some cmdline;
    delay = delay;
    pid = none;
    pidfd = none;
    exitstatus = none;
    restart = true;
    deleteonexit = g.cmddelonexit;
  })

abbrev pub is_pid_desc_of : EvntDesc → ℕ → Bool
is_pid_desc_of (cmd_pid_desc p) q = p == q
is_pid_desc_of no_desc q = false
is_pid_desc_of d q = false

unfoldable pub cmd_register_process_events : Cmd → Fd → M Bool
cmd_register_process_events this epollfd = do
  assert (is_some epollfd)
  assert (is_some this.pidfd && is_pid_desc_of this.pidfded this.addr)
  call (epoll_add_call this.pidfd) (λ (e : Env) h. e.epoll_add h this.pidfd)

-- `cmdStart` in the parent. The child runs the shell on `cmdline`, after `startdelay`.
unfoldable pub cmd_start : Cmd → Fd → ℤ → M (Bool × Cmd)
cmd_start this epollfd startdelay = do
  assert (is_some this.cmdtty.dfd && is_some this.cmdtty.sfd)
  if is_running this then pure (false, this) else do
    cmdline ← deref this.cmdline
    cpid ← call (fork_call cmdline startdelay) (λ (e : Env) h. e.fork h)
    assert (is_some cpid)
    pid ← deref cpid
    pidfd ← call (pidfd_open_call pid) (λ (e : Env) h. e.pidfd_open h pid)
    call_ (set_cloexec_call pidfd)
    let t = record this {
      pidfd = pidfd;
      pid = some pid;
      pidfded = cmd_pid_desc this.addr;
      readycnt = 0;
    }
    cmd_register_process_events t epollfd
    pure (true, t)

unfoldable pub cmd_create : Cmd → M (Bool × Cmd)
cmd_create this = do
  assert (is_some this.cmdline)
  (done, clttty) ←
      tty_create this.clttty (cmd_clttty_desc this.addr) (cmd_clttty_ifd_desc this.addr)
        (cmd_clttty_notify_desc this.addr) true
  let t = record this { clttty = clttty }
  if not done then pure (false, t) else do
    (done, cmdtty) ←
        tty_create t.cmdtty (cmd_cmdtty_desc t.addr) (cmd_cmdtty_ifd_desc t.addr) no_desc true
    pure (done, record t { cmdtty = cmdtty })

unfoldable pub cmd_register_tty_events : Cmd → M Bool
cmd_register_tty_events this = do
  a ← tty_register_events this.clttty
  assert a
  b ← tty_register_events this.cmdtty
  assert b
  pure true
