-- ===== src/Tests.antt =====
-- Concrete values for the tests.
pub mod Ttys
pub mod Output
pub mod Commands
pub mod Files
pub mod Startup
pub mod Cleanup
pub mod Main
pub mod Relay
pub mod Dump
use yar.Base.{[], ℕ, true, false, some, none, ◌∷◌, length, if◌then◌else◌, ◌==◌}
use yar.Kernel.{Env, wrote, got, poll_ready, poll_timeout, pos, sigterm}
use yar.State.{Tty, Cmd, Globals, Config, null_ptr, Sys, cmd_pid_desc}
use yar.Tty.{zeroed_tty}
use yar.Cmd.Life.{zeroed_cmd}

-- Every call succeeds: a write takes all it is given, a read gives an `a`.
abbrev pub willing : Env
willing = record {
  write = λ h fd bs. wrote (length bs);
  read = λ h fd. got b'a';
  gettime = λ h. some (length h);
  close = λ h fd. true;
  access = λ h p. false;
  stat = λ h p. false;
  symlink = λ h a b. true;
  pty_open = λ h. some (7, b'p' ∷ []);
  open_file = λ h p. some 8;
  fcntl = λ h fd. true;
  inotify_init = λ h. some 9;
  inotify_add_watch = λ h fd p. some 1;
  inotify_read = λ h fd. some (some 1, 32);
  epoll_add = λ h fd. true;
  epoll_del = λ h fd. true;
  fork = λ h. some 42;
  pidfd_open = λ h pid. some 10;
  kill = λ h pid sig. true;
  poll = λ h fd. if length h == 0 then poll_timeout else poll_ready;
  waitid = λ h fd. some 0;
  inq = λ h fd. some 0;
  outq = λ h fd. true;
  signal_read = λ h. some sigterm;
  strtod = λ h s. some (pos 5);
  malloc = λ h. 1;
  fuse_receive = λ h. true;
  daemon = λ h. true;
  getpid = λ h. 77;
  getcwd = λ h. some (b'/' ∷ b'w' ∷ []);
  freopen = λ h p. true;
  fdopen = λ h fd. true;
  sigmask = λ h. true;
  signalfd = λ h. some 12;
  epoll_create = λ h. some 13;
  rounds = 3;
  garbage = λ h. 0;
}

-- A tty that is open, with its descriptor; one that is closed.
abbrev pub open_tty : ℕ → Tty
open_tty fd = record zeroed_tty { dfd = some fd; opens = 1; link = some (b'l' ∷ []) }

abbrev pub closed_tty : Tty
closed_tty = record zeroed_tty { dfd = some 3 }

abbrev pub no_config : Config
no_config = record {
  logdir = null_ptr;
  logpath = none;
  bcstttylink = none;
  monttylinkdir = none;
  fsmntptdir = none;
  initialcmdspecs = [];
  fuse_fd = none;
  sfd = none;
  made_dir = false;
  logfile = false;
  daemonize = false;
  keeplog = false;
  uselog = false;
  at_exit = true;
}

abbrev pub quiet : Globals
quiet = record {
  bcsttty = open_tty 4;
  mon = record { line = []; tty = zeroed_tty; n = 0; silent = false };
  config = no_config;
  fs_mntpt = none;
  cmds = [];
  slowestcmd = none;
  readystr = none;
  stopstr = none;
  cwd = b'/' ∷ [];
  pid = 1;
  defaultcmddelay = pos 0;
  restartcmddelay = pos 0;
  errrestartcmddelay = pos 0;
  readystrlen = 0;
  cmdsreadycnt = 0;
  verbose = 0;
  linebufferbcst = true;
  prefixbcst = true;
  bcstflg = true;
  restart = false;
  exitonidle = false;
  cmddelonexit = false;
}

abbrev pub start : Sys
start = record { env = willing; calls = []; g = quiet }

-- A command that runs, with its client tty open.
abbrev pub talker : Cmd
talker = record (zeroed_cmd 1) {
  clttty = open_tty 5;
  cmdtty = record zeroed_tty { dfd = some 6; opens = 1 };
  bcstprefix = some (b'>' ∷ []);
  bcstprefixlen = 1;
  pid = some 42;
  pidfd = some 11;
  cmdline = some (b'x' ∷ []);
}

-- A state that waits for the ready string "$", with one command in the table.
abbrev pub waiting : Sys
waiting = record start {
  g = record quiet { cmds = talker ∷ []; readystr = some (b'$' ∷ []); readystrlen = 1 };
}

abbrev pub one_ready : Sys
one_ready = record waiting { g = record waiting.g { cmdsreadycnt = 1 } }

abbrev pub ready_talker : Cmd
ready_talker = record talker { readycnt = 1 }

-- A command that does not run and has no client yet.
abbrev pub no_tty : Tty
no_tty = record zeroed_tty { dfd = none; sfd = none; ifd = none; iwd = none }

abbrev pub idle_cmd : Cmd
idle_cmd = record talker {
  pid = none;
  pidfd = none;
  clttty = no_tty;
  cmdtty = record no_tty { dfd = some 6; sfd = some 7 };
}

abbrev pub running_cmd : Cmd
running_cmd = record idle_cmd {
  pid = some 42;
  pidfd = some 10;
  pidfded = cmd_pid_desc 1;
  readycnt = 0;
}
