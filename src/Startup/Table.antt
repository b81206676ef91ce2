-- ===== src/Startup/Table.antt =====
-- main.c: the table of commands after the start.
use yar.Base.{
  ℕ, ◌+◌, ◌≡◌, refl, sym, ap, ap₂, subst, ◌∙◌, Bool, true, false, not, Option, none, some, List, [],
  ◌∷◌, is_some, length, arith, length-append,
}
use yar.Kernel.{Str}
use yar.State.{Sys, Cmd}
use yar.Monad.{ok, and_then-ok, ◌>>◌, pure, exit, assert, when}
use yar.Registry.{eexit, cleanup}
use yar.Fs.{Fs}
use yar.Fs.Session.{Answers}
use yar.Args.{Opt, args_parse}
use yar.Bcst.{gbls_add_cmd}
use yar.Bcst.Names.{Entered, Ends, gbls_add_cmd-Entered}
use yar.Bcst.Distinct.{Distinct, gbls_add_cmd-Distinct}
use yar.Startup.{create_cmds, start_up, start_bcst, start_resources, start_cmds}
use yar.Startup.Init.{gbls_init}
use yar.Startup.Plans.{Plans, planned, planning}
use yar.Startup.Plans.Steps.{
  identify-Plans, start_log-Plans, start_mon-Plans, start_fs-Plans, start_bcst-Plans,
  gbls_init-fresh,
}
use yar.Startup.Specs.{args_parse-specs}

-- The table has as many commands more as there are specifications, all with names of their own.
record Added (n : ℕ) (s s' : Sys) : Type 0 where
  size : length s'.g.cmds ≡ length s.g.cmds + n
  distinct : Distinct s'.g.cmds

Entered-size :
    (r : Option ℕ) (s s' : Sys)
    → is_some r ≡ true
    → Entered r s s'
    → length s'.g.cmds ≡ length s.g.cmds + 1
Entered-size none s s' h e = absurd (cc)
Entered-size (some p) s s' h (cmd, (n, (name, (new, e)))) =
    ap length e ∙ length-append s.g.cmds (cmd ∷ [])

assert-ok : (b : Bool) (s s' : Sys) (u : Unit {0}) → assert b s ≡ ok u s' → (b ≡ true) × (s ≡ s')
assert-ok true s s' u h = (refl, cc)
assert-ok false s s' u h = absurd (cc)

create_cmds-Added :
    (specs : List Str) (s s' : Sys)
    → Distinct s.g.cmds
    → create_cmds specs s ≡ ok tt s'
    → Added (length specs) s s'
unfolding create_cmds
create_cmds-Added [] s s' d h =
    let same : s ≡ s' = cc in subst (Added 0 s) same (record { size = omega arith; distinct = d })
create_cmds-Added (spec ∷ specs) s s' d h =
    let (p, t, e, h1) =
      and_then-ok (gbls_add_cmd spec s) (λ p. assert (is_some p) >> create_cmds specs) tt s' h in
    let (u, t', e', h2) = and_then-ok (assert (is_some p) t) (λ u. create_cmds specs) tt s' h1 in
    let (made, same) = assert-ok (is_some p) t t' u e' in
    let entered = subst (Ends (λ r s'. Entered r s s')) e (gbls_add_cmd-Entered spec s) in
    let more =
      create_cmds-Added specs t s' (gbls_add_cmd-Distinct spec s t p d e)
        (ap (create_cmds specs) same ∙ h2) in
    let one = Entered-size p s t made entered in
    record { size = omega (arith, more.size, one); distinct = more.distinct }

-- A run goes on behind `if (!...) EEXIT()` only if the test is true.
pub not_refused :
    (b : Bool) (s s' : Sys) (u : Unit {0}) → when (not b) eexit s ≡ ok u s' → (b ≡ true) × (s ≡ s')
unfolding eexit
not_refused true s s' u h = (refl, cc)
not_refused false s s' u h =
    let (v, t, e, h') = and_then-ok (when s.g.config.at_exit cleanup s) (λ v. exit) u s' h in
    absurd (cc)

start_resources-Plans : (w : Answers) → Plans (start_resources w)
unfolding start_resources
start_resources-Plans w =
    search (planning, identify-Plans, start_log-Plans, start_mon-Plans, start_fs-Plans) depth 12

zero_add : (n : ℕ) → (0 + n) ≡ n
zero_add n = omega arith

start_cmds-Added :
    (fs : Fs) (r : Fs) (args : List Str) (s s' : Sys)
    → s.g.cmds ≡ []
    → s.g.config.initialcmdspecs ≡ args
    → start_cmds fs s ≡ ok r s'
    → (length s'.g.cmds ≡ length args) × Distinct s'.g.cmds
unfolding start_cmds
start_cmds-Added fs r args s s' none_yet specs h =
    let (u, t, e, h1) =
      and_then-ok (create_cmds s.g.config.initialcmdspecs s) (λ u. start_bcst >> pure fs) r s' h in
    let added =
      create_cmds-Added s.g.config.initialcmdspecs s t (subst Distinct (sym none_yet) tt) e in
    let k : Plans (start_bcst >> pure fs) = search (planning, start_bcst-Plans) in
    let p = planned k t s' r h1 in
    (
      ap length p.cmds
          ∙ added.size
          ∙ ap₂ (λ (cs : List Cmd) (a : List Str). length cs + length a) none_yet specs
          ∙ zero_add (length args),
      subst Distinct (sym p.cmds) added.distinct,
    )

-- If yar starts up to its loop, there is one command for each command specification among its
-- arguments, and no two commands have the same name.
pub start_up-cmds :
    (w : Answers) (opts : List Opt) (args : List Str) (s s' : Sys) (fs : Fs)
    → start_up w opts args s ≡ ok fs s'
    → (length s'.g.cmds ≡ length args) × Distinct s'.g.cmds
unfolding start_up
start_up-cmds w opts args s s' fs h =
    let (u1, s1, e1, h1) = and_then-ok (gbls_init s) _ fs s' h in
    let (b, s2, e2, h2) = and_then-ok (args_parse opts args s1) _ fs s' h1 in
    let (u3, s3, e3, h3) = and_then-ok (when (not b) eexit s2) _ fs s' h2 in
    let (parsed, same) = not_refused b s2 s3 u3 e3 in
    let (fs', s4, e4, h4) = and_then-ok (start_resources w s3) start_cmds fs s' h3 in
    let (table, specs) = gbls_init-fresh s s1 u1 e1 in
    let (table', specs') =
      args_parse-specs opts args s1 s2 specs
        (subst (λ b. args_parse opts args s1 ≡ ok b s2) parsed e2) in
    let p = planned (start_resources-Plans w) s3 s4 fs' e4 in
    start_cmds-Added fs' fs args s4 s'
      (p.cmds ∙ ap (λ (x : Sys). x.g.cmds) (sym same) ∙ table' ∙ table)
      (p.specs ∙ ap (λ (x : Sys). x.g.config.initialcmdspecs) (sym same) ∙ specs') h4
