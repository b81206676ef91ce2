-- ===== src/Registry.antt =====
-- main.c: the table of commands (`GBLS.cmds`), what is done with a command behind a pointer, and
-- the clearing of it all. The table is in the order of insertion, in which uthash walks it.
pub mod Table
pub mod Cleanup
use yar.Base.{
  ℕ, Bool, true, false, Option, none, some, List, [], ◌∷◌, ◌==◌, if◌then◌else◌, str_eq, map, ◌&&◌,
  not, is_some,
}
use yar.Kernel.{Str, fclose_call, fs_cleanup_call, remove_call}
use yar.State.{Tty, Cmd, Globals, Config, Ptr, null_ptr, live_ptr, freed_ptr}
use yar.Monad.{
  M, undefined, ◌>>=◌, ◌>>◌, pure, halt, get, modify, when, call_, deref, for_each, exit,
}
use yar.Tty.{tty_cleanup, close_if_open}
use yar.Cmd.Stop.{cmd_cleanup}

unfoldable pub find_addr : List Cmd → ℕ → Option Cmd
find_addr [] p = none
find_addr (c ∷ cs) p = if c.addr == p then some c else find_addr cs p

abbrev pub has_name : Cmd → Str → Bool
has_name c name = elim c.name [ none ↦ false | some n ↦ str_eq n name ]

-- `HASH_FIND_STR(GBLS.cmds, name, cmd)`
unfoldable pub find_name : List Cmd → Str → Option Cmd
find_name [] name = none
find_name (c ∷ cs) name = if has_name c name then some c else find_name cs name

-- The object at its address takes a new value.
unfoldable pub replace : List Cmd → Cmd → List Cmd
replace [] c = []
replace (d ∷ ds) c = if d.addr == c.addr then c ∷ ds else d ∷ replace ds c

-- `HASH_DEL` of the object at an address.
unfoldable pub remove : List Cmd → ℕ → List Cmd
remove [] p = []
remove (c ∷ cs) p = if c.addr == p then cs else c ∷ remove cs p

abbrev pub addrs : List Cmd → List ℕ
addrs cs = map (λ (c : Cmd). c.addr) cs

-- A pointer to an object that is gone is dangling.
unfoldable pub load_cmd : ℕ → M Cmd
load_cmd p = do g ← get; deref (find_addr g.cmds p)

unfoldable pub save_cmd : Cmd → M (Unit {0})
save_cmd c = modify (λ g. record g { cmds = replace g.cmds c })

unfoldable pub del_cmd : ℕ → M (Unit {0})
del_cmd p = modify (λ g. record g { cmds = remove g.cmds p })

-- Runs a function of a `cmd_t` on the object behind a pointer.
unfoldable pub on_cmd : {A : Type 0} → ℕ → (Cmd → M (A × Cmd)) → M A
on_cmd p f = do c ← load_cmd p; (a, c') ← f c; save_cmd c'; pure a

unfoldable pub on_cmd_ : ℕ → (Cmd → M Cmd) → M (Unit {0})
on_cmd_ p f = do c ← load_cmd p; c' ← f c; save_cmd c'

-- `HASH_ITER` over the commands.
unfoldable pub for_cmds : (ℕ → M (Unit {0})) → M (Unit {0})
for_cmds f = do g ← get; for_each (addrs g.cmds) f

abbrev pub is_empty {ℓ} : {A : Type ℓ} → List A → Bool
is_empty [] = true
is_empty (x ∷ xs) = false

abbrev pub set_config : (Config → Config) → M (Unit {0})
set_config f = modify (λ g. record g { config = f g.config })

-- `fsCleanup` on the object in `GBLS`, whose own work is in Fs/Session.
unfoldable pub cleanup_fs : M (Unit {0})
cleanup_fs = do
  g ← get
  when (is_some g.fs_mntpt && g.config.made_dir)
      (call_ fs_cleanup_call >> modify (λ g. record g { fs_mntpt = none }))

unfoldable pub mon_cleanup : M (Unit {0})
mon_cleanup = do
  g ← get
  t ← tty_cleanup g.mon.tty
  modify (λ g. record g { mon = record g.mon { tty = t; n = 0 } })

unfoldable pub sigproc_cleanup : M (Unit {0})
sigproc_cleanup = do g ← get; close_if_open g.config.sfd; set_config (λ c. record c { sfd = none })

-- The log is removed unless it is to be kept.
abbrev pub remove_log : Bool → Option Str → M (Unit {0})
remove_log true logpath = pure tt
remove_log false logpath = deref logpath >>= λ path. call_ (remove_call path)

abbrev pub end_log : Bool → Option Str → M (Unit {0})
end_log keeplog logpath =
    call_ fclose_call
    >> remove_log keeplog logpath
    >> set_config (λ c. record c { logfile = false })

unfoldable pub close_log : M (Unit {0})
close_log = get >>= λ g. when g.config.logfile (end_log g.config.keeplog g.config.logpath)

-- `if (GBLS.logdir) { free(GBLS.logdir); GBLS.logpath = NULL; }`: the pointer stays.
unfoldable pub free_logdir : Ptr → M (Unit {0})
free_logdir null_ptr = pure tt
free_logdir (live_ptr dir) = set_config (λ c. record c { logdir = freed_ptr; logpath = none })
free_logdir freed_ptr = halt undefined

-- The strings that are freed and set to null.
abbrev pub free_strings : Globals → Globals
free_strings g = record g {
  config = record g.config {
    logpath = none;
    initialcmdspecs = [];
    bcstttylink = none;
    monttylinkdir = none;
    fsmntptdir = none;
  };
  readystr = none;
  readystrlen = elim g.readystr [ none ↦ g.readystrlen | some str ↦ 0 ];
  stopstr = none;
  cwd = [];
}

abbrev pub set_bcsttty : Tty → M (Unit {0})
set_bcsttty t = modify (λ g. record g { bcsttty = t })

abbrev pub cleanup_cmd : ℕ → M (Unit {0})
cleanup_cmd p = on_cmd_ p cmd_cleanup >> del_cmd p

-- From the log on.
unfoldable pub cleanup_strings : M (Unit {0})
cleanup_strings = do
  close_log
  g ← get
  free_logdir g.config.logdir
  modify free_strings
  sigproc_cleanup

unfoldable pub cleanup : M (Unit {0})
cleanup = do
  g ← get
  when g.bcstflg (tty_cleanup g.bcsttty >>= set_bcsttty)
  for_cmds cleanup_cmd
  modify (λ g. record g { slowestcmd = none })
  cleanup_fs
  mon_cleanup
  cleanup_strings

-- After a command is gone: `if (HASH_COUNT(GBLS.cmds) == 0 && GBLS.exitonidle)` clean up and exit.
-- The `exit` runs `cleanup` once more.
unfoldable pub exit_if_idle : M (Unit {0})
exit_if_idle = do
  g ← get
  when (if is_empty g.cmds then g.exitonidle else false) (do cleanup; cleanup; exit)

-- `EEXIT`, and `exit` as it runs `cleanup` once `atexit` has been called with it.
unfoldable pub eexit : {A : Type 0} → M A
eexit = get >>= λ g. when g.config.at_exit cleanup >> exit
