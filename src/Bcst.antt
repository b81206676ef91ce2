-- ===== src/Bcst.antt =====
-- main.c: the broadcast tty, and adding commands to the table.
pub mod Names
pub mod Distinct
pub mod Relay
pub mod Delays
pub mod Slowest
use yar.Base.{
  ℕ, Bool, true, false, ◌&&◌, not, Option, none, some, [], ◌∷◌, ◌++◌, ltb, ◌==◌, if◌then◌else◌,
  is_some, length,
}
use yar.Kernel.{Str, Fd, ℤ, pos, negsuc, Env, malloc_call}
use yar.State.{Cmd, Globals, bcst_desc, bcst_ifd_desc, bcst_notify_desc}
use yar.Monad.{M, aborted, ◌>>=◌, ◌>>◌, pure, halt, assert, get, modify, when, call, deref, exit}
use yar.Tty.{tty_create, tty_register_events}
use yar.Tty.Io.{no_char, char, char_again, char_failed, tty_read_char, in_open, is_close}
use yar.Cmd.Output.{counts}
use yar.Cmd.Life.{cmd_init, cmd_create, cmd_start}
use yar.Cmd.Stop.{cmd_stop, cmd_write_char, cmd_cleanup}
use yar.Cmd.Dump.{cmd_dump}
use yar.Registry.{load_cmd, on_cmd, for_cmds, find_name, cleanup}
use yar.Spec.{Spec, cmdspec_parse}
use yar.Evnts.{Evnts}

-- `a < b` on doubles.
abbrev pub ltℤ : ℤ → ℤ → Bool
ltℤ (pos a) (pos b) = ltb a b
ltℤ (pos a) (negsuc b) = false
ltℤ (negsuc a) (pos b) = true
ltℤ (negsuc a) (negsuc b) = ltb b a

-- The update of `GBLS.slowestcmd` for a new command.
unfoldable pub slower : Option ℕ → ℕ → ℤ → M (Option ℕ)
slower none p delay = pure (some p)
slower (some q) p delay = do
  slowest ← load_cmd q
  pure (some (if ltℤ slowest.delay delay then p else q))

-- A command that could not be created is cleared; else it is entered into the table.
unfoldable pub add_created : ℕ → ℤ → Bool × Cmd → M (Option ℕ)
add_created p delay (false, cmd) = do cmd_dump cmd; cmd_cleanup cmd; pure none
add_created p delay (true, cmd) = do
  g ← get
  slowest ← slower g.slowestcmd p delay
  modify (λ g. record g { slowestcmd = slowest; cmds = g.cmds ++ (cmd ∷ []) })
  pure (some p)

-- A command is made unless there is one of its name. `cmdInit` never returns false.
unfoldable pub add_new : Str → Spec → Option Cmd → M (Option ℕ)
add_new cstr spec (some other) = do cmd_dump other; pure none
add_new cstr spec none = do
  p ← call malloc_call (λ (e : Env) h. e.malloc h)
  cmd ← cmd_init p cstr spec.name spec.cmdline spec.delay spec.ttylink spec.log
  made ← cmd_create cmd
  add_created p spec.delay made

unfoldable pub add_spec : Str → Option Spec → M (Option ℕ)
add_spec cstr none = pure none
add_spec cstr (some spec) = do g ← get; add_new cstr spec (find_name g.cmds spec.name)

-- `GBLSAddCmd`: the address of the new command, `none` for `false`.
unfoldable pub gbls_add_cmd : Str → M (Option ℕ)
gbls_add_cmd cstr = do parsed ← cmdspec_parse cstr; add_spec cstr parsed

-- `GBLSCmdsWriteChar`: the number of commands written to.
unfoldable pub cmds_write_char : ℕ → M ℕ
cmds_write_char c = do
  g ← get
  for_cmds (λ p. do n ← on_cmd p (λ this. cmd_write_char this c); assert (counts n 1))
  pure (length g.cmds)

unfoldable pub bcst_register_events : M (Unit {0})
bcst_register_events = do g ← get; when g.bcstflg (do tty_register_events g.bcsttty; pure tt)

unfoldable pub bcst_notify : ℕ → Fd → M (Unit {0})
bcst_notify mask epollfd =
    if mask == in_open
    then for_cmds (λ p. on_cmd p (λ this. cmd_start this epollfd (pos 0)) >> pure tt)
    else if is_close mask
    then for_cmds (λ p. on_cmd p (λ this. cmd_stop this epollfd false) >> pure tt)
    else halt aborted

-- `GBLS.readystr && GBLS.cmdsreadycnt < HASH_COUNT(GBLS.cmds)`
abbrev pub must_wait : Globals → Bool
must_wait g = is_some g.readystr && ltb g.cmdsreadycnt (length g.cmds)

unfoldable pub bcst_relay : ℕ → M (Unit {0})
bcst_relay c = do n ← cmds_write_char c; pure tt

-- A byte is read at the pace of the slowest command and written to all.
unfoldable pub bcst_read : M (Unit {0})
bcst_read = do
  g ← get
  p ← deref g.slowestcmd
  slowest ← load_cmd p
  (r, t) ← tty_read_char g.bcsttty (some slowest.lastwrite) slowest.delay
  modify (λ g. record g { bcsttty = t })
  elim r [
    | no_char ↦ pure tt
    | char c ↦ bcst_relay c
    | char_again ↦ (λ s. bcst_relay (s.env.garbage s.calls) s)
    | char_failed ↦ (λ s. bcst_relay (s.env.garbage s.calls) s)
  ]

unfoldable pub bcst_event : Evnts → M (Unit {0})
bcst_event evnts = when evnts.ein (do g ← get; if must_wait g then pure tt else bcst_read)

-- `if (!ttyCreate(...)) EEXIT()`
unfoldable pub bcst_create : M (Unit {0})
bcst_create = do
  g ← get
  when g.bcstflg (do
    (created, t) ← tty_create g.bcsttty bcst_desc bcst_ifd_desc bcst_notify_desc true
    modify (λ g. record g { bcsttty = t })
    when (not created) (do cleanup; exit))
