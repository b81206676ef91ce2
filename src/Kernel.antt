-- ===== src/Kernel.antt =====
-- What yar asks of the kernel and the C library, and how they answer.
-- A run keeps the list of the calls made, latest first. An answer is an arbitrary function of
-- that history and of the call, so every behaviour of the outside world is some `Env`.
use yar.Base.{ℕ, Bool, Option, List}

-- A byte string, without its terminating null.
abbrev pub Str : Type 0
Str = List ℕ

-- A file descriptor, or another int that the code sets to -1 for none.
abbrev pub Fd : Type 0
Fd = Option ℕ

-- A double. Delays are scaled to whole nanoseconds; `negsuc n` is -(n + 1).
pub data ℤ : Type 0 where
  pos : ℕ → ℤ
  negsuc : ℕ → ℤ

-- What the monitor prints (`monprintf`), by its kind.
pub data Msg : Type 0 where
  ok_msg failed_msg greeting usage_msg : Msg
  toggle_msg : Bool → Msg
  verbosity : ℕ → Msg
  not_found not_current add_failed : Str → Msg
  add_usage del_usage : Msg
  listed : Str → Msg
  long_listed : ℕ → Msg

pub data Call : Type 0 where
  write_call : Fd → List ℕ → Call
  read_call : Fd → Call
  gettime_call : Call
  close_call : Fd → Call
  unlink_call : Str → Call
  access_call : Str → Call
  stat_call : Option Str → Call
  symlink_call : Str → Str → Call
  pty_open_call : Call
  open_call : Str → Call
  get_flags_call set_nonblock_call set_cloexec_call set_raw_call : Fd → Call
  inotify_init_call : Call
  inotify_add_watch_call : Fd → Str → Call
  inotify_read_call : Fd → Call
  epoll_add_call : Fd → Call
  epoll_del_call : Fd → Call
  fork_call : Str → ℤ → Call
  pidfd_open_call : ℕ → Call
  kill_call : Fd → ℕ → Call
  poll_call : Fd → Call
  waitid_call : Fd → Call
  inq_call outq_call : Fd → Call
  dump_call : List ℕ → Call
  flush_call : Fd → Call
  delay_call : ℤ → Call
  strtod_call : Str → Call
  malloc_call : Call
  print_call : Msg → Call
  exit_call signal_read_call fuse_receive_call fuse_process_call : Call
  fclose_call fs_cleanup_call daemon_call getpid_call getcwd_call sigmask_call signalfd_call : Call
  epoll_create_call : Call
  remove_call : Str → Call
  freopen_call : Option Str → Call
  report_call : ℕ → Call
  fdopen_call : Fd → Call

abbrev pub History : Type 0
History = List Call

-- The signals that the source names.
pub data Signal : Type 0 where
  sigalrm sigterm sigint sighup sigquit sigkill sigusr1 sigvtalrm sigusr2 sigpipe sigio : Signal
  other_signal : Signal

-- A read(2) or write(2): what it moved, or EAGAIN, or another error.
pub data WriteRet : Type 0 where
  wrote : ℕ → WriteRet
  write_again write_failed : WriteRet

pub data ReadRet : Type 0 where
  got : ℕ → ReadRet
  at_end read_again read_failed : ReadRet

pub data PollRet : Type 0 where
  poll_ready poll_timeout poll_interrupted poll_failed : PollRet

-- The answers. `none` and `false` are the failing ones.
pub record Env : Type 0 where
  pub write : History → Fd → List ℕ → WriteRet
  pub read : History → Fd → ReadRet
  pub gettime : History → Option ℕ
  pub close : History → Fd → Bool
  pub access : History → Str → Bool
  pub stat : History → Option Str → Bool
  pub symlink : History → Str → Str → Bool
  pub pty_open : History → Option (ℕ × Str)
  pub open_file : History → Str → Fd
  pub fcntl : History → Fd → Bool
  pub inotify_init : History → Fd
  pub inotify_add_watch : History → Fd → Str → Option ℕ
  pub inotify_read : History → Fd → Option (Option ℕ × ℕ)
  pub epoll_add : History → Fd → Bool
  pub epoll_del : History → Fd → Bool
  pub fork : History → Option ℕ
  pub pidfd_open : History → ℕ → Fd
  pub kill : History → Fd → ℕ → Bool
  pub poll : History → Fd → PollRet
  pub waitid : History → Fd → Option ℕ
  pub inq : History → Fd → Option ℕ
  pub outq : History → Fd → Bool
  pub signal_read : History → Option Signal
  pub strtod : History → Str → Option ℤ
  pub malloc : History → ℕ
  -- whether `fuse_session_receive_buf` gives a request
  pub fuse_receive : History → Bool
  pub daemon : History → Bool
  pub getpid : History → ℕ
  pub getcwd : History → Option Str
  pub freopen : History → Option Str → Bool
  pub fdopen : History → Fd → Bool
  pub sigmask : History → Bool
  pub signalfd : History → Fd
  pub epoll_create : History → Fd
  -- how many rounds of a loop that waits for the outside world are run
  pub rounds : ℕ
  -- what an uninitialised `char` variable happens to hold
  pub garbage : History → ℕ
