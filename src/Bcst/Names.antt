-- ===== src/Bcst/Names.antt =====
-- main.c: commands added by `GBLSAddCmd` have names of their own.
use yar.Base.{
  ℕ, ◌≡◌, refl, sym, ap, subst, ◌∙◌, Bool, true, false, Option, none, some, List, [], ◌∷◌, ◌++◌,
  if◌then◌else◌,
}
use yar.Kernel.{Str, ℤ, Env, malloc_call}
use yar.State.{Sys, Cmd}
use yar.Monad.{M, Res, ok, stop, and_then, ◌>>=◌, pure, call}
use yar.Cmd.Life.{cmd_init, cmd_create}
use yar.Cmd.Stop.{cmd_cleanup}
use yar.Frame.{Keeps, keeping, kept, call-Keeps}
use yar.Cmd.Dump.{cmd_dump}
use yar.Frame.Dumps.{cmd_dump-Keeps}
use yar.Frame.Cmds.{cmd_cleanup-Keeps}
use yar.Frame.Specs.{cmdspec_parse-Keeps}
use yar.Frame.Create.{cmd_init-Keeps, cmd_create-Keeps}
use yar.Registry.{find_name, load_cmd}
use yar.Bcst.{slower, add_created, add_new, add_spec, gbls_add_cmd}
use yar.Spec.{Spec, cmdspec_parse}

-- `P` holds of the result of a run that ends.
abbrev pub Yields : {A : Type 0} → (A → Type 0) → Res A → Type 0
Yields P (ok a s) = P a
Yields P (stop h s) = Unit {0}

pub record Gives {A : Type 0} (P : A → Type 0) (m : M A) : Type 0 where
  pub run : (s : Sys) → Yields P (m s)

pub pure-Gives : {A : Type 0} (P : A → Type 0) (a : A) → P a → Gives P (pure a)
pure-Gives P a h = record { run = λ s. h }

Yields-bind :
    {A B : Type 0} (P : B → Type 0) (r : Res A) (f : A → M B)
    → ((a : A) → Gives P (f a))
    → Yields P (and_then r f)
Yields-bind P (ok a s) f k = (k a).run s
Yields-bind P (stop h s) f k = tt

pub bind-Gives :
    {A B : Type 0} (P : B → Type 0) (m : M A) (f : A → M B)
    → ((a : A) → Gives P (f a))
    → Gives P (m >>= f)
bind-Gives P m f k = record { run = λ s. Yields-bind P (m s) f k }

pub if-Gives :
    {A : Type 0} (P : A → Type 0) (b : Bool) (m n : M A)
    → Gives P m
    → Gives P n
    → Gives P (if b then m else n)
if-Gives P true m n hm hn = hm
if-Gives P false m n hm hn = hn

abbrev Named : Str → Cmd → Type 0
Named n c = c.name ≡ some n

cmd_init-Named :
    (p : ℕ) (a n b : Str) (d : ℤ) (l g : Option Str) → Gives (Named n) (cmd_init p a n b d l g)
unfolding cmd_init
cmd_init-Named p a n b d l g = search (bind-Gives, pure-Gives) depth 12

cmd_create-name :
    (this : Cmd)
    → Gives (λ (made : Bool × Cmd). let (b, c) = made in c.name ≡ this.name) (cmd_create this)
unfolding cmd_create
cmd_create-name this = search (bind-Gives, pure-Gives, if-Gives) depth 12

-- How an addition ends: the table is as it was, or it has at its end a new command, whose name
-- no command had.
abbrev pub Entered : Option ℕ → Sys → Sys → Type 0
Entered none s s' = s'.g.cmds ≡ s.g.cmds
Entered (some p) s s' =
    (cmd : Cmd) × ((n : Str) × ((cmd.name ≡ some n)
        × ((find_name s.g.cmds n ≡ none) × (s'.g.cmds ≡ s.g.cmds ++ (cmd ∷ [])))))

slower-Keeps : (o : Option ℕ) (p : ℕ) (d : ℤ) → Keeps (slower o p d)
unfolding slower load_cmd
slower-Keeps none p d = search keeping
slower-Keeps (some q) p d = search keeping depth 8

-- `P` holds of the result and the state of a run that ends.
abbrev pub Ends : {A : Type 0} → (A → Sys → Type 0) → Res A → Type 0
Ends P (ok a s) = P a s
Ends P (stop h s) = Unit {0}

pub bind-Ends :
    {A B : Type 0} (P : B → Sys → Type 0) (r : Res A) (f : A → M B)
    → ((a : A) (t : Sys) → r ≡ ok a t → Ends P (f a t))
    → Ends P (and_then r f)
bind-Ends P (ok a t) f k = k a t refl
bind-Ends P (stop h t) f k = tt

pub given :
    {A : Type 0} {P : A → Type 0} {m : M A} → Gives P m → (s t : Sys) (a : A) → m s ≡ ok a t → P a
given {P = P} g s t a h = subst (Yields P) h (g.run s)

abbrev table : Sys → List Cmd
table s = s.g.cmds

add_created-Entered :
    (p : ℕ) (d : ℤ) (b : Bool) (cmd : Cmd) (n : Str) (s t : Sys)
    → cmd.name ≡ some n
    → find_name s.g.cmds n ≡ none
    → table t ≡ table s
    → Ends (λ r s'. Entered r s s') (add_created p d (b, cmd) t)
unfolding add_created
add_created-Entered p d false cmd n s t name new same =
    bind-Ends (λ r s'. Entered r s s') (cmd_dump cmd t) _
      λ _ v e.
        bind-Ends (λ r s'. Entered r s s') (cmd_cleanup cmd v) _
          λ c u e'.
            (kept (cmd_cleanup-Keeps cmd) v u c e').cmds
            ∙ (kept (cmd_dump-Keeps cmd) t v tt e).cmds
            ∙ same
add_created-Entered p d true cmd n s t name new same =
    bind-Ends (λ r s'. Entered r s s') (slower t.g.slowestcmd p d t) _
      λ slowest u e. (
        cmd,
        (
          n,
          (
            name,
            (
              new,
              ap (λ cs. cs ++ (cmd ∷ []))
                  ((kept (slower-Keeps t.g.slowestcmd p d) t u slowest e).cmds ∙ same),
            ),
          ),
        ),
      )

add_new-Entered :
    (cstr : Str) (spec : Spec) (other : Option Cmd) (s t : Sys)
    → find_name s.g.cmds spec.name ≡ other
    → table t ≡ table s
    → Ends (λ r s'. Entered r s s') (add_new cstr spec other t)
unfolding add_new
add_new-Entered cstr spec (some other) s t new same =
    bind-Ends (λ r s'. Entered r s s') (cmd_dump other t) _
      λ _ u e. (kept (cmd_dump-Keeps other) t u tt e).cmds ∙ same
add_new-Entered cstr spec none s t new same =
    bind-Ends (λ r s'. Entered r s s') (call malloc_call (λ (e : Env) h. e.malloc h) t) _
      λ p u e.
        bind-Ends (λ r s'. Entered r s s')
          (cmd_init p cstr spec.name spec.cmdline spec.delay spec.ttylink spec.log u) _
          λ cmd v e'.
            bind-Ends (λ r s'. Entered r s s') (cmd_create cmd v) _
              λ made w e''.
                let (b, c) = made in
                add_created-Entered p spec.delay b c spec.name s w
                  (given (cmd_create-name cmd) v w made e''
                    ∙ given
                        (cmd_init-Named p cstr spec.name spec.cmdline spec.delay spec.ttylink
                          spec.log)
                        u v cmd e')
                  new
                  ((kept (cmd_create-Keeps cmd) v w made e'').cmds
                    ∙ (kept
                        (cmd_init-Keeps p cstr spec.name spec.cmdline spec.delay spec.ttylink
                          spec.log)
                        u v cmd e').cmds
                    ∙ (kept (call-Keeps malloc_call (λ (e : Env) h. e.malloc h)) t u p e).cmds
                    ∙ same)

add_spec-Entered :
    (cstr : Str) (spec : Option Spec) (s t : Sys)
    → table t ≡ table s
    → Ends (λ r s'. Entered r s s') (add_spec cstr spec t)
unfolding add_spec
add_spec-Entered cstr none s t same = same
add_spec-Entered cstr (some spec) s t same =
    add_new-Entered cstr spec (find_name t.g.cmds spec.name) s t
      (ap (λ cs. find_name cs spec.name) (sym same)) same

pub gbls_add_cmd-Entered :
    (cstr : Str) (s : Sys) → Ends (λ r s'. Entered r s s') (gbls_add_cmd cstr s)
unfolding gbls_add_cmd
gbls_add_cmd-Entered cstr s =
    bind-Ends (λ r s'. Entered r s s') (cmdspec_parse cstr s) _
      λ parsed t e.
        add_spec-Entered cstr parsed s t (kept (cmdspec_parse-Keeps cstr) s t parsed e).cmds
