-- ===== src/Spec.antt =====
-- main.c: command specifications, `name,pty,log,delay,command line`.
pub mod RoundTrip
use yar.Base.{Bool, Option, none, some, [], ◌∷◌, ◌==◌, if◌then◌else◌}
use yar.Kernel.{Str, ℤ, Env, stat_call, strtod_call}
use yar.Monad.{M, ◌>>=◌, pure, get, call}

-- Cuts a string at its first comma; there is no rest if there is no comma.
unfoldable pub cut : Str → Str × Option Str
cut [] = ([], none)
cut (c ∷ cs) = if c == b',' then ([], some cs) else (let (tok, rest) = cut cs in (c ∷ tok, rest))

-- `strsep(&cmdstr, ",")`: the token (`none` for a null pointer), and `cmdstr` afterwards.
unfoldable pub strsep : Option Str → Option Str × Option Str
strsep none = (none, none)
strsep (some s) = let (tok, rest) = cut s in (some tok, rest)

abbrev pub both : Option Str × Option Str → Option (Str × Str)
both (none, rest) = none
both (some tok, none) = none
both (some tok, some rest) = some (tok, rest)

-- `strsep`, with `nptr == NULL || cmdstr == NULL` as its failure.
unfoldable pub next_token : Option Str → Option (Str × Str)
next_token s = both (strsep s)

-- `if (*nptr == 0) NULL else nptr`
abbrev pub unless_empty : Str → Option Str
unless_empty [] = none
unless_empty (c ∷ cs) = some (c ∷ cs)

-- `checkpath(path, 0)`; `stat` fails on a null path.
unfoldable pub check_path : Option Str → M Bool
check_path path = call (stat_call path) (λ (e : Env) h. e.stat h path)

unfoldable pub parse_delay : Str → M (Option ℤ)
parse_delay [] = do g ← get; pure (some g.defaultcmddelay)
parse_delay (c ∷ cs) = call (strtod_call (c ∷ cs)) (λ (e : Env) h. e.strtod h (c ∷ cs))

pub record Spec : Type 0 where
  pub name : Str
  pub ttylink : Option Str
  pub log : Option Str
  pub delay : ℤ
  pub cmdline : Str

-- The delay and the command line, once the delay is read: an empty command line is refused.
unfoldable pub build : Str → Option Str → Str → Str → Option ℤ → Option Spec
build name ttylink log cmdline none = none
build name ttylink log [] (some delay) = none
build name ttylink log (c ∷ cs) (some delay) = some (record {
  name = name;
  ttylink = ttylink;
  log = unless_empty log;
  delay = delay;
  cmdline = c ∷ cs;
})

unfoldable pub with_delay : Str → Option Str → Str → Option (Str × Str) → M (Option Spec)
with_delay name ttylink log none = pure none
with_delay name ttylink log (some (delaystr, cmdline)) = do
  d ← parse_delay delaystr
  pure (build name ttylink log cmdline d)

unfoldable pub with_log : Str → Option Str → Option (Str × Str) → M (Option Spec)
with_log name ttylink none = pure none
with_log name ttylink (some (log, s)) = with_delay name ttylink log (next_token (some s))

unfoldable pub with_link : Str → Option (Str × Str) → M (Option Spec)
with_link name none = pure none
with_link name (some (link, s)) = do
  exists ← check_path (unless_empty link)
  if exists then pure none else with_log name (unless_empty link) (next_token (some s))

unfoldable pub with_name : Option (Str × Str) → M (Option Spec)
with_name none = pure none
with_name (some (name, s)) = with_link name (next_token (some s))

-- One step for each token; `none` for a refusal.
unfoldable pub cmdspec_parse : Str → M (Option Spec)
cmdspec_parse cmdstr = with_name (next_token (some cmdstr))
