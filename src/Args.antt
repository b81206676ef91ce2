-- ===== src/Args.antt =====
-- main.c: the initial configuration, and the options and arguments that change it.
pub mod Configured
use yar.Base.{
  ℕ, ◌+◌, ◌*◌, Bool, true, false, Option, none, some, List, [], ◌∷◌, ltb, if◌then◌else◌, length,
  replicate,
}
use yar.Kernel.{Str, ℤ, pos, Env, strtod_call}
use yar.State.{Globals, Mon, Config, null_ptr, live_ptr}
use yar.Monad.{M, ◌>>=◌, ◌>>◌, pure, modify, when, call}
use yar.Tty.{zeroed_tty}
use yar.Registry.{set_config}
use yar.Mon.Table.{mon_linelen}
use yar.Spec.{Spec, cmdspec_parse, check_path}

-- What `getopt` returns for "DKL:R:b:d:e:f:hlm:pr:s:vx", with `optarg`: one constructor for each
-- case of the switch.
pub data Opt : Type 0 where
  opt_daemonize opt_keeplog opt_help opt_linebuffer opt_prefix opt_verbose opt_exitonidle : Opt
  opt_log opt_ready opt_bcst opt_delay opt_errdelay opt_fs opt_mon opt_restartdelay opt_stop :
      Str → Opt
  opt_unknown : Opt

abbrev pub seconds : ℕ → ℤ
seconds n = pos (n * 1000000000)

-- The value that `GBLSInit` gives to `GBLS`, with the rest of it zeroed: 0 stands for the pid's -1,
-- which is replaced later.
unfoldable pub initial_globals : Globals
initial_globals = record {
  bcsttty = zeroed_tty;
  mon = record { line = replicate mon_linelen 0; tty = zeroed_tty; n = 0; silent = false };
  config = record {
    logdir = null_ptr;
    logpath = none;
    bcstttylink = none;
    monttylinkdir = none;
    fsmntptdir = none;
    initialcmdspecs = [];
    fuse_fd = some 0;
    sfd = some 0;
    made_dir = false;
    logfile = false;
    daemonize = false;
    keeplog = false;
    uselog = false;
    at_exit = false;
  };
  fs_mntpt = none;
  cmds = [];
  slowestcmd = none;
  readystr = none;
  stopstr = none;
  cwd = [];
  pid = 0;
  defaultcmddelay = pos 0;
  restartcmddelay = seconds 5;
  errrestartcmddelay = seconds 10;
  readystrlen = 0;
  cmdsreadycnt = 0;
  verbose = 0;
  linebufferbcst = false;
  prefixbcst = false;
  bcstflg = false;
  restart = true;
  exitonidle = false;
  cmddelonexit = false;
}

-- Sets fields and goes on: `argsParse` does not return false here.
abbrev pub set_globals : (Globals → Globals) → M Bool
set_globals f = modify f >> pure true

abbrev pub set_option : (Config → Config) → M Bool
set_option f = set_config f >> pure true

-- A path that exists already is refused; the broadcast tty is asked for by its link.
abbrev pub set_bcst : Bool → M Bool
set_bcst true = pure false
set_bcst false = set_globals (λ g. record g { bcstflg = true })

-- A delay that `strtod` cannot read is refused. What is stored then is not looked at again.
abbrev pub set_delay : (ℤ → Globals → Globals) → Option ℤ → M Bool
set_delay f none = pure false
set_delay f (some d) = set_globals (f d)

abbrev pub strtod : Str → M (Option ℤ)
strtod arg = call (strtod_call arg) (λ (e : Env) h. e.strtod h arg)

-- A case of the switch: whether `argsParse` goes on.
unfoldable pub parse_opt : Opt → M Bool
parse_opt opt_daemonize = set_option (λ c. record c { daemonize = true })
parse_opt opt_keeplog = set_option (λ c. record c { keeplog = true })
parse_opt (opt_log arg) = set_option (λ c. record c { uselog = true; logdir = live_ptr arg })
parse_opt (opt_ready arg) =
    set_globals (λ g. record g { readystr = some arg; readystrlen = length arg; cmdsreadycnt = 0 })
parse_opt (opt_bcst arg) =
    set_config (λ c. record c { bcstttylink = some arg }) >> (check_path (some arg) >>= set_bcst)
parse_opt (opt_delay arg) = strtod arg >>= set_delay (λ d g. record g { defaultcmddelay = d })
parse_opt (opt_errdelay arg) = strtod arg >>= set_delay (λ d g. record g { errrestartcmddelay = d })
parse_opt (opt_fs arg) = set_option (λ c. record c { fsmntptdir = some arg })
parse_opt opt_help = pure false
parse_opt opt_linebuffer = set_globals (λ g. record g { linebufferbcst = true })
parse_opt (opt_mon arg) = set_option (λ c. record c { monttylinkdir = some arg })
parse_opt opt_prefix = set_globals (λ g. record g { prefixbcst = true })
parse_opt (opt_restartdelay arg) =
    strtod arg >>= set_delay (λ d g. record g { restartcmddelay = d })
parse_opt (opt_stop arg) = set_globals (λ g. record g { stopstr = some arg })
parse_opt opt_verbose = set_globals (λ g. record g { verbose = g.verbose + 1 })
parse_opt opt_exitonidle = set_globals (λ g. record g { exitonidle = true })
parse_opt opt_unknown = pure false

abbrev pub unless_refused : M Bool → Bool → M Bool
unless_refused m false = pure false
unless_refused m true = m

unfoldable pub parse_opts : List Opt → M Bool
parse_opts [] = pure true
parse_opts (o ∷ os) = parse_opt o >>= unless_refused (parse_opts os)

abbrev pub if_parsed : M Bool → Option Spec → M Bool
if_parsed m none = pure false
if_parsed m (some spec) = m

-- Every command specification must parse; what they say is not used yet.
unfoldable pub check_specs : List Str → M Bool
check_specs [] = pure true
check_specs (arg ∷ args) = cmdspec_parse arg >>= if_parsed (check_specs args)

abbrev pub take_specs : List Str → M Bool
take_specs args =
    set_config (λ c. record c { initialcmdspecs = args })
    >> (when (ltb 1 (length args)) (modify (λ g. record g { bcstflg = true })) >> pure true)

-- More than one specification asks for a broadcast tty.
unfoldable pub parse_args : List Str → M Bool
parse_args [] = pure true
parse_args (arg ∷ args) = check_specs (arg ∷ args) >>= unless_refused (take_specs (arg ∷ args))

unfoldable pub args_parse : List Opt → List Str → M Bool
args_parse opts args = parse_opts opts >>= unless_refused (parse_args args)
