-- ===== src/Args/Configured.antt =====
-- main.c: what a configuration that is accepted looks like.
use yar.Base.{
  ℕ, ◌≡◌, refl, sym, ap, subst, ◌∙◌, Bool, true, false, ◌||◌, Option, none, some, List, [], ◌∷◌,
  ltb, length,
}
use yar.Kernel.{Str, ℤ}
use yar.State.{Sys, Globals}
use yar.Monad.{M, Res, ok, stop, and_then, ◌>>◌, pure, when, modify}
use yar.Registry.{set_config}
use yar.Frame.{Keeps, bind-Keeps, Same, After, keeping}
use yar.Frame.Specs.{cmdspec_parse-Keeps}
use yar.Spec.{Spec, cmdspec_parse, check_path}
use yar.Args.{
  Opt, opt_daemonize, opt_keeplog, opt_help, opt_linebuffer, opt_prefix, opt_verbose,
  opt_exitonidle, opt_log, opt_ready, opt_bcst, opt_delay, opt_errdelay, opt_fs, opt_mon,
  opt_restartdelay, opt_stop, opt_unknown, set_bcst, set_delay, parse_opt, unless_refused,
  parse_opts, if_parsed, check_specs, take_specs, parse_args, args_parse,
}

-- Whether `-b` is among the options.
abbrev pub is_bcst : Opt → Bool
is_bcst (opt_bcst arg) = true
is_bcst _ = false

abbrev pub asks_bcst : List Opt → Bool
asks_bcst [] = false
asks_bcst (o ∷ os) = is_bcst o || asks_bcst os

abbrev pub ready_length : Option Str → ℕ
ready_length none = 0
ready_length (some s) = length s

-- From `s` to `s'` the broadcast flag is set if `asked`, and only then; the length of the ready
-- string stays the one recorded.
record Configured (asked : Bool) (s s' : Sys) : Type 0 where
  flag : s'.g.bcstflg ≡ (asked || s.g.bcstflg)
  ready :
      s.g.readystrlen ≡ ready_length s.g.readystr → s'.g.readystrlen ≡ ready_length s'.g.readystr

-- `P` holds of the state of a run that was not refused.
abbrev Accepted : (Sys → Type 0) → Res Bool → Type 0
Accepted P (ok false s) = Unit {0}
Accepted P (ok true s) = P s
Accepted P (stop h s) = Unit {0}

delay-Accepted :
    (f : ℤ → Globals → Globals) (s t : Sys) (d : Option ℤ)
    → ((d : ℤ) → Configured false s (record t { g = f d t.g }))
    → Accepted (Configured false s) (set_delay f d t)
delay-Accepted f s t none k = tt
delay-Accepted f s t (some d) k = k d

bcst-Accepted :
    (s t : Sys) (exists : Bool)
    → t.g.readystrlen ≡ s.g.readystrlen
    → t.g.readystr ≡ s.g.readystr
    → Accepted (Configured true s) (set_bcst exists t)
bcst-Accepted s t true l r = tt
bcst-Accepted s t false l r = record { flag = refl; ready = λ h. l ∙ h ∙ sym (ap ready_length r) }

abbrev unchanged :
    (s s' : Sys)
    → s'.g.bcstflg ≡ s.g.bcstflg
    → s'.g.readystrlen ≡ s.g.readystrlen
    → s'.g.readystr ≡ s.g.readystr
    → Configured false s s'
unchanged s s' b l r = record { flag = b; ready = λ h. l ∙ h ∙ sym (ap ready_length r) }

parse_opt-Accepted : (o : Opt) (s : Sys) → Accepted (Configured (is_bcst o) s) (parse_opt o s)
unfolding parse_opt check_path
parse_opt-Accepted opt_daemonize s = unchanged s _ refl refl refl
parse_opt-Accepted opt_keeplog s = unchanged s _ refl refl refl
parse_opt-Accepted opt_help s = tt
parse_opt-Accepted opt_linebuffer s = unchanged s _ refl refl refl
parse_opt-Accepted opt_prefix s = unchanged s _ refl refl refl
parse_opt-Accepted opt_verbose s = unchanged s _ refl refl refl
parse_opt-Accepted opt_exitonidle s = unchanged s _ refl refl refl
parse_opt-Accepted (opt_log arg) s = unchanged s _ refl refl refl
parse_opt-Accepted (opt_ready arg) s = record { flag = refl; ready = λ h. refl }
parse_opt-Accepted (opt_bcst arg) s = bcst-Accepted s _ _ refl refl
parse_opt-Accepted (opt_delay arg) s = delay-Accepted _ s _ _ (λ d. unchanged s _ refl refl refl)
parse_opt-Accepted (opt_errdelay arg) s = delay-Accepted _ s _ _ (λ d. unchanged s _ refl refl refl)
parse_opt-Accepted (opt_fs arg) s = unchanged s _ refl refl refl
parse_opt-Accepted (opt_mon arg) s = unchanged s _ refl refl refl
parse_opt-Accepted (opt_restartdelay arg) s =
    delay-Accepted _ s _ _ (λ d. unchanged s _ refl refl refl)
parse_opt-Accepted (opt_stop arg) s = unchanged s _ refl refl refl
parse_opt-Accepted opt_unknown s = tt

either_assoc : (a b c : Bool) → (b || (a || c)) ≡ ((a || b) || c)
either_assoc true true c = refl
either_assoc true false c = refl
either_assoc false b c = refl

Configured-trans :
    (a b : Bool) (s t u : Sys) → Configured a s t → Configured b t u → Configured (a || b) s u
Configured-trans a b s t u p q = record {
  flag = q.flag ∙ ap (λ x. b || x) p.flag ∙ either_assoc a b s.g.bcstflg;
  ready = λ h. q.ready (p.ready h);
}

Accepted-trans :
    (a b : Bool) (s t : Sys) (r : Res Bool)
    → Configured a s t
    → Accepted (Configured b t) r
    → Accepted (Configured (a || b) s) r
Accepted-trans a b s t (ok false u) p q = tt
Accepted-trans a b s t (ok true u) p q = Configured-trans a b s t u p q
Accepted-trans a b s t (stop h u) p q = tt

bind-Accepted :
    (a b : Bool) (s : Sys) (r : Res Bool) (m : M Bool)
    → Accepted (Configured a s) r
    → ((t : Sys) → Accepted (Configured b t) (m t))
    → Accepted (Configured (a || b) s) (and_then r (unless_refused m))
bind-Accepted a b s (ok false t) m p k = tt
bind-Accepted a b s (ok true t) m p k = Accepted-trans a b s t (m t) p (k t)
bind-Accepted a b s (stop h t) m p k = tt

parse_opts-Accepted :
    (os : List Opt) (s : Sys) → Accepted (Configured (asks_bcst os) s) (parse_opts os s)
unfolding parse_opts
parse_opts-Accepted [] s = unchanged s s refl refl refl
parse_opts-Accepted (o ∷ os) s =
    bind-Accepted (is_bcst o) (asks_bcst os) s (parse_opt o s) (parse_opts os)
      (parse_opt-Accepted o s) (parse_opts-Accepted os)

if_parsed-Keeps : (m : M Bool) (o : Option Spec) → Keeps m → Keeps (if_parsed m o)
if_parsed-Keeps m none k = search keeping
if_parsed-Keeps m (some spec) k = k

pub check_specs-Keeps : (args : List Str) → Keeps (check_specs args)
unfolding check_specs
check_specs-Keeps [] = search keeping
check_specs-Keeps (arg ∷ args) =
    bind-Keeps (cmdspec_parse arg) (if_parsed (check_specs args)) (cmdspec_parse-Keeps arg)
      (λ o. if_parsed-Keeps (check_specs args) o (check_specs-Keeps args))

take_specs-Accepted :
    (args : List Str) (s t : Sys) (parsed : Bool)
    → Same s t
    → Accepted (Configured (ltb 1 (length args)) s) (unless_refused (take_specs args) parsed t)
take_specs-Accepted args s t false same = tt
take_specs-Accepted args s t true same = flagged (ltb 1 (length args))
  where
    flagged :
        (b : Bool)
        → Accepted (Configured b s) (
            (set_config (λ c. record c { initialcmdspecs = args })
                >> (when b (modify (λ g. record g { bcstflg = true })) >> pure true))
              t)
    flagged true = record {
      flag = refl;
      ready = λ h. same.readystrlen ∙ h ∙ sym (ap ready_length same.readystr);
    }
    flagged false = unchanged s _ same.bcstflg same.readystrlen same.readystr

specs-Accepted :
    (args : List Str) (s : Sys) (r : Res Bool)
    → After (Same s) r
    → Accepted (Configured (ltb 1 (length args)) s) (and_then r (unless_refused (take_specs args)))
specs-Accepted args s (ok parsed t) same = take_specs-Accepted args s t parsed same
specs-Accepted args s (stop h t) same = tt

parse_args-Accepted :
    (args : List Str) (s : Sys) → Accepted (Configured (ltb 1 (length args)) s) (parse_args args s)
unfolding parse_args
parse_args-Accepted [] s = unchanged s s refl refl refl
parse_args-Accepted (arg ∷ args) s =
    specs-Accepted (arg ∷ args) s (check_specs (arg ∷ args) s)
      ((check_specs-Keeps (arg ∷ args)).run s)

-- When the options and arguments are accepted, from a state in which the length recorded for the
-- ready string is its length: the broadcast tty is asked for exactly if it was before, the option
-- -b is among them or there is more than one command specification, and the length recorded for
-- the ready string is that of the ready string.
pub args_parse-accepted :
    (opts : List Opt) (args : List Str) (s s' : Sys)
    → s.g.readystrlen ≡ ready_length s.g.readystr
    → args_parse opts args s ≡ ok true s'
    → (s'.g.bcstflg ≡ ((asks_bcst opts || ltb 1 (length args)) || s.g.bcstflg))
      × (s'.g.readystrlen ≡ ready_length s'.g.readystr)
unfolding args_parse
args_parse-accepted opts args s s' r h =
    let done : Configured (asks_bcst opts || ltb 1 (length args)) s s' =
      subst (Accepted (Configured (asks_bcst opts || ltb 1 (length args)) s)) h (
        bind-Accepted (asks_bcst opts) (ltb 1 (length args)) s (parse_opts opts s) (parse_args args)
          (parse_opts-Accepted opts s) (parse_args-Accepted args)) in
    (done.flag, done.ready r)
