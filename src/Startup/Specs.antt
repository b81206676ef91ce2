-- ===== src/Startup/Specs.antt =====
-- main.c: the arguments become the specifications of the commands to be made.
use yar.Base.{◌≡◌, ◌∙◌, Bool, true, false, Option, none, some, List, [], ◌∷◌, length, ltb}
use yar.Kernel.{Str, ℤ}
use yar.State.{Sys, Globals}
use yar.Monad.{M, ok, and_then-ok, ◌>>◌, pure, when, modify}
use yar.Frame.{kept}
use yar.Args.{
  Opt, opt_daemonize, opt_keeplog, opt_help, opt_linebuffer, opt_prefix, opt_verbose,
  opt_exitonidle, opt_log, opt_ready, opt_bcst, opt_delay, opt_errdelay, opt_fs, opt_mon,
  opt_restartdelay, opt_stop, opt_unknown, set_bcst, set_delay, parse_opt, unless_refused,
  parse_opts, check_specs, take_specs, parse_args, args_parse,
}
use yar.Args.Configured.{check_specs-Keeps}
use yar.Spec.{check_path}
use yar.Startup.Plans.{Plans, planned, planning, pure-Plans, bind-Plans}

set_bcst-Plans : (b : Bool) → Plans (set_bcst b)
set_bcst-Plans true = pure-Plans false
set_bcst-Plans false = search planning

set_delay-Plans :
    (f : ℤ → Globals → Globals) (o : Option ℤ)
    → ((d : ℤ) → Plans (modify (f d)))
    → Plans (set_delay f o)
set_delay-Plans f none k = pure-Plans false
set_delay-Plans f (some d) k = search (planning, k)

parse_opt-Plans : (o : Opt) → Plans (parse_opt o)
unfolding parse_opt check_path
parse_opt-Plans opt_daemonize = search planning
parse_opt-Plans opt_keeplog = search planning
parse_opt-Plans opt_help = search planning
parse_opt-Plans opt_linebuffer = search planning
parse_opt-Plans opt_prefix = search planning
parse_opt-Plans opt_verbose = search planning
parse_opt-Plans opt_exitonidle = search planning
parse_opt-Plans (opt_log arg) = search planning
parse_opt-Plans (opt_ready arg) = search planning
parse_opt-Plans (opt_bcst arg) = search (planning, set_bcst-Plans) depth 8
parse_opt-Plans (opt_delay arg) = search (planning, set_delay-Plans) depth 8
parse_opt-Plans (opt_errdelay arg) = search (planning, set_delay-Plans) depth 8
parse_opt-Plans (opt_fs arg) = search planning
parse_opt-Plans (opt_mon arg) = search planning
parse_opt-Plans (opt_restartdelay arg) = search (planning, set_delay-Plans) depth 8
parse_opt-Plans (opt_stop arg) = search planning
parse_opt-Plans opt_unknown = search planning

unless_refused-Plans : (m : M Bool) (b : Bool) → Plans m → Plans (unless_refused m b)
unless_refused-Plans m true k = k
unless_refused-Plans m false k = pure-Plans false

parse_opts-Plans : (os : List Opt) → Plans (parse_opts os)
unfolding parse_opts
parse_opts-Plans [] = pure-Plans true
parse_opts-Plans (o ∷ os) =
    bind-Plans (parse_opt o) (unless_refused (parse_opts os)) (parse_opt-Plans o)
      (λ b. unless_refused-Plans (parse_opts os) b (parse_opts-Plans os))

no_true : (s s' : Sys) → ok false s ≡ ok true s' → ⊥
no_true s s' h = cc

-- The arguments, where there are any, become the specifications of the commands to be made.
take_specs-specs :
    (args : List Str) (b : Bool) (s s' : Sys)
    → unless_refused (take_specs args) b s ≡ ok true s'
    → (s'.g.cmds ≡ s.g.cmds) × (s'.g.config.initialcmdspecs ≡ args)
take_specs-specs args false s s' h = absurd (no_true s s' h)
take_specs-specs args true s s' h =
    let t : Sys = record s {
      g = record s.g { config = record s.g.config { initialcmdspecs = args } };
    } in
    let rest : M Bool =
      when (ltb 1 (length args)) (modify (λ g. record g { bcstflg = true })) >> pure true in
    let k : Plans rest = search planning in let p = planned k t s' true h in (p.cmds, p.specs)

parse_args-specs :
    (args : List Str) (s s' : Sys)
    → s.g.config.initialcmdspecs ≡ []
    → parse_args args s ≡ ok true s'
    → (s'.g.cmds ≡ s.g.cmds) × (s'.g.config.initialcmdspecs ≡ args)
unfolding parse_args
parse_args-specs [] s s' none_yet h =
    let p = planned (pure-Plans true) s s' true h in (p.cmds, p.specs ∙ none_yet)
parse_args-specs (arg ∷ args) s s' none_yet h =
    let (b, t, e, h') =
      and_then-ok (check_specs (arg ∷ args) s) (unless_refused (take_specs (arg ∷ args))) true s'
        h in
    let (table, specs) = take_specs-specs (arg ∷ args) b t s' h' in
    (table ∙ (kept (check_specs-Keeps (arg ∷ args)) s t b e).cmds, specs)

pub args_parse-specs :
    (opts : List Opt) (args : List Str) (s s' : Sys)
    → s.g.config.initialcmdspecs ≡ []
    → args_parse opts args s ≡ ok true s'
    → (s'.g.cmds ≡ s.g.cmds) × (s'.g.config.initialcmdspecs ≡ args)
unfolding args_parse
args_parse-specs opts args s s' none_yet h =
    let (b, t, e, h') =
      and_then-ok (parse_opts opts s) (unless_refused (parse_args args)) true s' h in
    let p = planned (parse_opts-Plans opts) s t b e in
    let (table, specs) = parse_args-specs args t s' (p.specs ∙ none_yet) (went_on b t s' h') in
    (table ∙ p.cmds, specs)
  where
    went_on :
        (b : Bool) (t s' : Sys)
        → unless_refused (parse_args args) b t ≡ ok true s'
        → parse_args args t ≡ ok true s'
    went_on true t s' h = h
    went_on false t s' h = absurd (no_true t s' h)
