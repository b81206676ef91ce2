-- ===== src/Startup/Log.antt =====
-- main.c: `setlogpath` and `logopen`.
use yar.Base.{
  ℕ, Bool, true, false, not, Option, none, some, ◌++◌, leb, if◌then◌else◌, length, codes, decimal,
}
use yar.Kernel.{Str, Env, freopen_call}
use yar.Monad.{M, ◌>>=◌, ◌>>◌, pure, get, call}
use yar.Registry.{set_config}
use yar.Fs.Session.{path_max}

-- `snprintf` of a path into `n` bytes: `none` where it does not fit.
abbrev pub fitted : (n : ℕ) → Str → Option Str
fitted n path = if leb n (length path) then none else some path

unfoldable pub log_path : (pid : ℕ) → (dir : Option Str) → Option Str
log_path pid none = fitted path_max (decimal pid ++ codes ".log")
log_path pid (some dir) = fitted path_max (dir ++ (codes "/" ++ (decimal pid ++ codes ".log")))

abbrev pub store_log_path : Option Str → M Bool
store_log_path none = pure false
store_log_path (some path) = set_config (λ c. record c { logpath = some path }) >> pure true

unfoldable pub set_log_path : Option Str → M Bool
set_log_path dir = do g ← get; store_log_path (log_path g.pid dir)

abbrev pub freopen : Option Str → M Bool
freopen path = call (freopen_call path) (λ (e : Env) h. e.freopen h path)

-- The result of `setlogpath` is not looked at. `stdout` stays as the log file when `stderr` cannot
-- be redirected.
unfoldable pub log_open : Option Str → M Bool
log_open dir = do
  set_log_path dir
  g ← get
  stdin ← freopen (some (codes "/dev/null"))
  if not stdin then pure false else do
    stdout ← freopen g.config.logpath
    if not stdout
        then pure false
        else do set_config (λ c. record c { logfile = true }); freopen g.config.logpath
