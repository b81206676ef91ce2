-- ===== src/Frame.antt =====
-- What the functions on ttys and commands leave alone: the table of commands, the slowest command
-- and the configuration. `Keeps m` says it of every run of `m` that ends; the rules below build
-- the proof along a `do` block.
pub mod Ttys
pub mod Dumps
pub mod Cmds
pub mod Create
pub mod Specs
use yar.Base.{ℕ, ◌≡◌, refl, subst, ◌∙◌, Bool, true, false, Option, none, some, List, if◌then◌else◌}
use yar.Kernel.{Call, Env, History}
use yar.State.{Sys, Globals}
use yar.Monad.{
  M, Res, Halt, undefined, aborted, need, ok, stop, ◌>>=◌, ◌>>◌, pure, halt, assert, get, modify,
  when, call, call_, deref, and_then,
}

pub record Same (s s' : Sys) : Type 0 where
  pub env : s'.env ≡ s.env
  pub cmds : s'.g.cmds ≡ s.g.cmds
  pub slowest : s'.g.slowestcmd ≡ s.g.slowestcmd
  pub readystr : s'.g.readystr ≡ s.g.readystr
  pub readystrlen : s'.g.readystrlen ≡ s.g.readystrlen
  pub bcsttty : s'.g.bcsttty ≡ s.g.bcsttty
  pub mon : s'.g.mon ≡ s.g.mon
  pub config : s'.g.config ≡ s.g.config
  pub bcstflg : s'.g.bcstflg ≡ s.g.bcstflg
  pub exitonidle : s'.g.exitonidle ≡ s.g.exitonidle

-- `P` holds of the state of a run that ends.
abbrev pub After : {A : Type 0} → (Sys → Type 0) → Res A → Type 0
After P (ok a s) = P s
After P (stop h s) = Unit {0}

pub record Keeps {A : Type 0} (m : M A) : Type 0 where
  pub run : (s : Sys) → After (Same s) (m s)

pub Same-refl : (s : Sys) → Same s s
Same-refl s = record {
  env = refl;
  cmds = refl;
  slowest = refl;
  readystr = refl;
  readystrlen = refl;
  bcsttty = refl;
  mon = refl;
  config = refl;
  bcstflg = refl;
  exitonidle = refl;
}

pub Same-trans : {s t u : Sys} → Same s t → Same t u → Same s u
Same-trans a b = record {
  env = b.env ∙ a.env;
  cmds = b.cmds ∙ a.cmds;
  slowest = b.slowest ∙ a.slowest;
  readystr = b.readystr ∙ a.readystr;
  readystrlen = b.readystrlen ∙ a.readystrlen;
  bcsttty = b.bcsttty ∙ a.bcsttty;
  mon = b.mon ∙ a.mon;
  config = b.config ∙ a.config;
  bcstflg = b.bcstflg ∙ a.bcstflg;
  exitonidle = b.exitonidle ∙ a.exitonidle;
}

After-trans : {A : Type 0} (s t : Sys) (r : Res A) → Same s t → After (Same t) r → After (Same s) r
After-trans s t (ok a u) st tu = Same-trans st tu
After-trans s t (stop h u) st tu = tt

After-bind :
    {A B : Type 0} (s : Sys) (r : Res A) (f : A → M B)
    → After (Same s) r
    → ((a : A) → Keeps (f a))
    → After (Same s) (and_then r f)
After-bind s (ok a t) f st kf = After-trans s t (f a t) st ((kf a).run t)
After-bind s (stop h t) f st kf = tt

pub bind-Keeps :
    {A B : Type 0} (m : M A) (f : A → M B) → Keeps m → ((a : A) → Keeps (f a)) → Keeps (m >>= f)
bind-Keeps m f km kf = record { run = λ s. After-bind s (m s) f (km.run s) kf }

pub pure-Keeps : {A : Type 0} (a : A) → Keeps (pure a)
pure-Keeps a = record { run = Same-refl }

pub halt-Keeps : {A : Type 0} (h : Halt) → Keeps (halt {A = A} h)
halt-Keeps h = record { run = λ s. tt }

pub assert-Keeps : (b : Bool) → Keeps (assert b)
assert-Keeps true = record { run = Same-refl }
assert-Keeps false = record { run = λ s. tt }

pub get-Keeps : Keeps get
get-Keeps = record { run = Same-refl }

pub call-Keeps : {A : Type 0} (c : Call) (f : Env → History → A) → Keeps (call c f)
call-Keeps c f = record {
  run = λ s. record {
    env = refl;
    cmds = refl;
    slowest = refl;
    readystr = refl;
    readystrlen = refl;
    bcsttty = refl;
    mon = refl;
    config = refl;
    bcstflg = refl;
    exitonidle = refl;
  };
}

pub call_-Keeps : (c : Call) → Keeps (call_ c)
call_-Keeps c = record {
  run = λ s. record {
    env = refl;
    cmds = refl;
    slowest = refl;
    readystr = refl;
    readystrlen = refl;
    bcsttty = refl;
    mon = refl;
    config = refl;
    bcstflg = refl;
    exitonidle = refl;
  };
}

pub when-Keeps : (b : Bool) (m : M (Unit {0})) → Keeps m → Keeps (when b m)
when-Keeps true m k = k
when-Keeps false m k = pure-Keeps tt

pub if-Keeps : {A : Type 0} (b : Bool) (m n : M A) → Keeps m → Keeps n → Keeps (if b then m else n)
if-Keeps true m n km kn = km
if-Keeps false m n km kn = kn

pub deref-Keeps : {A : Type 0} (o : Option A) → Keeps (deref o)
deref-Keeps none = halt-Keeps undefined
deref-Keeps (some a) = pure-Keeps a

pub need-Keeps : {A : Type 0} (o : Option A) → Keeps (need o)
need-Keeps none = halt-Keeps aborted
need-Keeps (some a) = pure-Keeps a

pub ruleset keeping = (
  need-Keeps, bind-Keeps, pure-Keeps, halt-Keeps, assert-Keeps, get-Keeps, call-Keeps, call_-Keeps,
  when-Keeps, if-Keeps, deref-Keeps,
)

-- What a run that has ended kept.
pub kept : {A : Type 0} {m : M A} → Keeps m → (s s' : Sys) (a : A) → m s ≡ ok a s' → Same s s'
kept k s s' a h = subst (After (Same s)) h (k.run s)
