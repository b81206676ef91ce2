-- ===== src/Monad.antt =====
-- Running C code: state passing with the ways in which a run can stop.
use yar.Base.{◌≡◌, refl, Bool, true, false, Option, none, some, List, [], ◌∷◌, ◌==◌, if◌then◌else◌}
use yar.Kernel.{Call, History, Env, exit_call, print_call, Msg}
use yar.State.{Sys, Globals}

-- `aborted`: a failed `assert` or an `NYI`. `exited`: a call of `exit`.
-- `undefined`: undefined behaviour, such as a write out of bounds or through a dangling pointer.
-- `out_of_fuel`: a loop that waits for the outside world went on for more than `rounds` rounds.
pub data Halt : Type 0 where
  aborted exited undefined out_of_fuel : Halt

pub data Res (A : Type 0) : Type 0 where
  ok : A → Sys → Res A
  stop : Halt → Sys → Res A

abbrev pub M : Type 0 → Type 0
M A = Sys → Res A

abbrev pub and_then : {A B : Type 0} → Res A → (A → M B) → Res B
and_then (ok a s) f = f a s
and_then (stop h s) f = stop h s

infixl 5 ◌>>=◌ ◌>>◌
abbrev pub ◌>>=◌ : {A B : Type 0} → M A → (A → M B) → M B
◌>>=◌ m f s = and_then (m s) f

abbrev pub ◌>>◌ : {A B : Type 0} → M A → M B → M B
m >> k = m >>= λ _. k

abbrev pub pure : {A : Type 0} → A → M A
pure a s = ok a s

abbrev pub halt : {A : Type 0} → Halt → M A
halt h s = stop h s

abbrev pub assert : Bool → M (Unit {0})
assert true s = ok tt s
assert false s = stop aborted s

abbrev pub get : M Globals
get s = ok s.g s

abbrev pub modify : (Globals → Globals) → M (Unit {0})
modify f s = ok tt (record s { g = f s.g })

-- Makes a call and takes its answer.
abbrev pub call : {A : Type 0} → Call → (Env → History → A) → M A
call c answer s = ok (answer s.env s.calls) (record s { calls = c ∷ s.calls })

-- A call whose result the code does not look at.
abbrev pub call_ : Call → M (Unit {0})
call_ c s = ok tt (record s { calls = c ∷ s.calls })

abbrev pub when : Bool → M (Unit {0}) → M (Unit {0})
when true m = m
when false m = pure tt

-- An option that the code dereferences without a test.
abbrev pub deref : {A : Type 0} → Option A → M A
deref none = halt undefined
deref (some a) = pure a

-- An answer without which the code asserts or gives up.
abbrev pub need : {A : Type 0} → Option A → M A
need none = halt aborted
need (some a) = pure a

abbrev pub for_each : {A : Type 0} → List A → (A → M (Unit {0})) → M (Unit {0})
for_each [] f = pure tt
for_each (x ∷ xs) f = f x >> for_each xs f

-- `exit(EXIT_SUCCESS)` and its kin. What runs at the exit is written where `exit` is used.
abbrev pub exit : {A : Type 0} → M A
exit = call_ exit_call >> halt exited

-- `monprintf`: nothing is printed if the monitor is not open or is silent.
unfoldable pub monprintf : Msg → M (Unit {0})
monprintf m s =
    if s.g.mon.tty.opens == 0
    then ok tt s
    else if s.g.mon.silent
    then ok tt s
    else ok tt (record s { calls = print_call m ∷ s.calls })

-- A run that comes to an end went through its first part.
pub and_then-ok :
    {A B : Type 0} (r : Res A) (f : A → M B) (b : B) (s' : Sys)
    → and_then r f ≡ ok b s'
    → (a : A) × (s : Sys) × (r ≡ ok a s) × (f a s ≡ ok b s')
and_then-ok (ok a s) f b s' h = (a, s, refl, h)
and_then-ok (stop x s) f b s' h = cc
