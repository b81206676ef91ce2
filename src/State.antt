-- ===== src/State.antt =====
-- The data of yar: `tty_t` of tty.h, `cmd_t` of cmd.h, `mon_t` and `globals_t` of yar.h,
-- `evntdesc_t` of event.h.
-- A pointer to a `cmd_t` is the number `addr` in the record; null is `none` of an option.
use yar.Base.{ℕ, Bool, Option, List}
use yar.Kernel.{Str, Fd, ℤ, Env, History}

-- A handler with its object: the function, and for a command its address.
pub data EvntDesc : Type 0 where
  no_desc : EvntDesc
  cmd_pid_desc cmd_cmdtty_desc cmd_clttty_desc cmd_clttty_notify_desc : ℕ → EvntDesc
  cmd_cmdtty_ifd_desc cmd_clttty_ifd_desc : ℕ → EvntDesc
  bcst_desc bcst_notify_desc bcst_ifd_desc : EvntDesc
  mon_desc mon_notify_desc mon_ifd_desc sig_desc fs_desc : EvntDesc

pub record Tty : Type 0 where
  pub path : Str
  pub discards : List ℕ
  pub link : Option Str
  pub extralink1_src : Option Str
  pub extralink1_dst : Option Str
  pub extralink2_src : Option Str
  pub extralink2_dst : Option Str
  pub rbytes : ℕ
  pub wbytes : ℕ
  pub wdbytes : ℕ
  pub delaycnt : ℕ
  pub dfd : Fd
  pub sfd : Fd
  pub ifd : Fd
  pub iwd : Fd
  pub opens : ℕ
  pub dfded : EvntDesc
  pub ifded : EvntDesc
  pub ned : EvntDesc

-- `lastwrite` is in nanoseconds; `exitstatus` is `none` for -1.
-- The int `bufof` stays below 2 ^ 31: `count_overflow` of Cmd/Output stops where it would not.
pub record Cmd : Type 0 where
  pub addr : ℕ
  pub buf : List ℕ
  pub cmdtty : Tty
  pub clttty : Tty
  pub pidfded : EvntDesc
  pub lastwrite : ℕ
  pub cmdstr : Option Str
  pub name : Option Str
  pub bcstprefix : Option Str
  pub cmdline : Option Str
  pub log : Option Str
  pub stopstr : Option Str
  pub delay : ℤ
  pub pid : Fd
  pub bufn : ℕ
  pub bufstart : ℕ
  pub bufof : ℕ
  pub bcstprefixlen : ℕ
  pub pidfd : Fd
  pub exitstatus : Fd
  pub readycnt : ℕ
  pub restartcnt : ℕ
  pub restart : Bool
  pub deleteonexit : Bool

pub record Mon : Type 0 where
  pub line : List ℕ
  pub tty : Tty
  pub n : ℕ
  pub silent : Bool

-- A pointer that may have been freed and kept.
pub data Ptr : Type 0 where
  null_ptr freed_ptr : Ptr
  live_ptr : Str → Ptr

-- The fields of `globals_t` that only the start and the end of yar use, with three of others'
-- parts: `fs.mkdir`, `fs.fuse_fd` and `sigproc.sfd`. `at_exit` says whether `atexit(cleanup)` has
-- been called, `logfile` whether the pointer of that name is set.
pub record Config : Type 0 where
  pub logdir : Ptr
  pub logpath : Option Str
  pub bcstttylink : Option Str
  pub monttylinkdir : Option Str
  pub fsmntptdir : Option Str
  pub initialcmdspecs : List Str
  pub fuse_fd : Fd
  pub sfd : Fd
  pub made_dir : Bool
  pub logfile : Bool
  pub daemonize : Bool
  pub keeplog : Bool
  pub uselog : Bool
  pub at_exit : Bool

-- `cmdsreadycnt` is an int, and each decrement of it is followed by `assert(cmdsreadycnt >= 0)`:
-- it is a natural number here, and a decrement at 0 aborts. A path is never empty: `cwd` is empty for null.
pub record Globals : Type 0 where
  pub bcsttty : Tty
  pub mon : Mon
  pub config : Config
  pub fs_mntpt : Option Str
  pub cmds : List Cmd
  pub slowestcmd : Option ℕ
  pub readystr : Option Str
  pub stopstr : Option Str
  pub cwd : Str
  pub pid : ℕ
  pub defaultcmddelay : ℤ
  pub restartcmddelay : ℤ
  pub errrestartcmddelay : ℤ
  pub readystrlen : ℕ
  pub cmdsreadycnt : ℕ
  pub verbose : ℕ
  pub linebufferbcst : Bool
  pub prefixbcst : Bool
  pub bcstflg : Bool
  pub restart : Bool
  pub exitonidle : Bool
  pub cmddelonexit : Bool

pub record Sys : Type 0 where
  pub env : Env
  pub calls : History
  pub g : Globals
