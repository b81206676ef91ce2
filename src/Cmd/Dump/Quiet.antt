-- ===== src/Cmd/Dump/Quiet.antt =====
-- cmd.c: a dump changes none of yar's globals.
use yar.Base.{ℕ, ◌≡◌, refl, ◌∙◌, subst, Bool, true, false, Option, none, some, List, if◌then◌else◌}
use yar.Kernel.{Fd, Call, Env, History}
use yar.State.{Sys, Tty, Cmd}
use yar.Monad.{
  M, Res, Halt, aborted, ok, stop, and_then, ◌>>=◌, pure, halt, assert, call, call_, when, need,
}
use yar.Tty.{in_q_cnt}
use yar.Tty.Dump.{out_q_cnt, tty_port_space, tty_dump}
use yar.Cmd.Dump.{dump_part, dump_wrapped, dump_buf, cmd_dump}

-- A run that ends leaves the globals as they were.
abbrev SameGlobals : {A : Type 0} → Sys → Res A → Type 0
SameGlobals s (ok a t) = t.g ≡ s.g
SameGlobals s (stop h t) = Unit {0}

record Quiet {A : Type 0} (m : M A) : Type 0 where
  run : (s : Sys) → SameGlobals s (m s)

SameGlobals-bind :
    {A B : Type 0} (s : Sys) (r : Res A) (f : A → M B)
    → SameGlobals s r
    → ((a : A) → Quiet (f a))
    → SameGlobals s (and_then r f)
SameGlobals-bind s (ok a t) f e q = through (f a t) ((q a).run t)
  where
    through : {B : Type 0} (r : Res B) → SameGlobals t r → SameGlobals s r
    through (ok b u) e' = e' ∙ e
    through (stop h u) e' = tt
SameGlobals-bind s (stop h t) f e q = tt

bind-Quiet :
    {A B : Type 0} (m : M A) (f : A → M B) → Quiet m → ((a : A) → Quiet (f a)) → Quiet (m >>= f)
bind-Quiet m f q r = record { run = λ s. SameGlobals-bind s (m s) f (q.run s) r }

pure-Quiet : {A : Type 0} (a : A) → Quiet (pure a)
pure-Quiet a = record { run = λ s. refl }

halt-Quiet : {A : Type 0} (h : Halt) → Quiet (halt {A = A} h)
halt-Quiet h = record { run = λ s. tt }

assert-Quiet : (b : Bool) → Quiet (assert b)
assert-Quiet true = record { run = λ s. refl }
assert-Quiet false = record { run = λ s. tt }

call-Quiet : {A : Type 0} (c : Call) (f : Env → History → A) → Quiet (call c f)
call-Quiet c f = record { run = λ s. refl }

call_-Quiet : (c : Call) → Quiet (call_ c)
call_-Quiet c = record { run = λ s. refl }

when-Quiet : (b : Bool) (m : M (Unit {0})) → Quiet m → Quiet (when b m)
when-Quiet true m q = q
when-Quiet false m q = pure-Quiet tt

if-Quiet : {A : Type 0} (b : Bool) (m n : M A) → Quiet m → Quiet n → Quiet (if b then m else n)
if-Quiet true m n q r = q
if-Quiet false m n q r = r

need-Quiet : {A : Type 0} (o : Option A) → Quiet (need o)
need-Quiet none = halt-Quiet aborted
need-Quiet (some a) = pure-Quiet a

ruleset quieting = (
  bind-Quiet, pure-Quiet, halt-Quiet, assert-Quiet, call-Quiet, call_-Quiet, when-Quiet, if-Quiet,
  need-Quiet,
)

in_q_cnt-Quiet : (fd : Fd) → Quiet (in_q_cnt fd)
unfolding in_q_cnt
in_q_cnt-Quiet none = pure-Quiet 0
in_q_cnt-Quiet (some d) = search quieting

out_q_cnt-Quiet : (fd : Fd) → Quiet (out_q_cnt fd)
unfolding out_q_cnt
out_q_cnt-Quiet none = pure-Quiet tt
out_q_cnt-Quiet (some d) = search quieting

tty_port_space-Quiet : (this : Tty) → Quiet (tty_port_space this)
unfolding tty_port_space
tty_port_space-Quiet this = search (quieting, in_q_cnt-Quiet, out_q_cnt-Quiet) depth 12

tty_dump-Quiet : (this : Tty) → Quiet (tty_dump this)
unfolding tty_dump
tty_dump-Quiet this = search (quieting, tty_port_space-Quiet) depth 12

dump_part-Quiet : (buf : List ℕ) (at n : ℕ) → Quiet (dump_part buf at n)
unfolding dump_part
dump_part-Quiet buf at n = search quieting

dump_buf-Quiet : (this : Cmd) → Quiet (dump_buf this)
unfolding dump_buf dump_wrapped
dump_buf-Quiet this = search (quieting, dump_part-Quiet) depth 8

cmd_dump-Quiet : (this : Cmd) → Quiet (cmd_dump this)
unfolding cmd_dump
cmd_dump-Quiet this = search (quieting, dump_buf-Quiet, tty_dump-Quiet) depth 8

pub cmd_dump-same : (this : Cmd) (s s' : Sys) → cmd_dump this s ≡ ok tt s' → s'.g ≡ s.g
cmd_dump-same this s s' h = subst (SameGlobals s) h ((cmd_dump-Quiet this).run s)
