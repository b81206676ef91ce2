-- ===== src/Bcst/Slowest.antt =====
-- main.c: `GBLS.slowestcmd` as `GBLSAddCmd` keeps it.
use yar.Base.{
  ℕ, ◌≡◌, refl, sym, ap, ap₂, subst, ◌∙◌, Bool, true, false, Option, none, some, [], ◌∷◌, ◌++◌,
  if◌then◌else◌,
}
use yar.Kernel.{Str, ℤ, Env, History, malloc_call}
use yar.State.{Sys, Cmd}
use yar.Monad.{ok, and_then, and_then-ok, ◌>>=◌, pure, deref, modify}
use yar.Cmd.Life.{cmd_init, cmd_create}
use yar.Cmd.Stop.{cmd_cleanup}
use yar.Frame.{Same, kept}
use yar.Cmd.Dump.{cmd_dump}
use yar.Frame.Dumps.{cmd_dump-Keeps}
use yar.Frame.Cmds.{cmd_cleanup-Keeps}
use yar.Frame.Specs.{cmdspec_parse-Keeps}
use yar.Frame.Create.{cmd_init-Keeps, cmd_create-Keeps}
use yar.Registry.{find_name, addrs, load_cmd}
use yar.Registry.Table.{absent}
use yar.Bcst.{ltℤ, slower, add_created, add_new, add_spec, gbls_add_cmd}
use yar.Bcst.Names.{Gives, pure-Gives, bind-Gives, if-Gives, Ends, bind-Ends, given}
use yar.Spec.{Spec, cmdspec_parse}
use yar.Bcst.Delays.{
  none_slower, Slowest, ltℤ_irrefl, none_slower-append, find_addr-new, Slowest-append,
}

abbrev Kept : Sys → Type 0
Kept s = Slowest s.g.slowestcmd s.g.cmds

entered-Slowest :
    (o : Option ℕ) (p : ℕ) (cmd : Cmd) (t : Sys)
    → t.g.slowestcmd ≡ o
    → cmd.addr ≡ p
    → absent p (addrs t.g.cmds) ≡ true
    → Slowest o t.g.cmds
    → Ends
        (λ r s'. Kept s')
        ((slower o p cmd.delay >>= λ slowest.
            modify (λ g. record g { slowestcmd = slowest; cmds = g.cmds ++ (cmd ∷ []) }) >>= λ u.
            pure (some p))
          t)
unfolding slower load_cmd
entered-Slowest none p cmd t same e far empty = (
  cmd,
  find_addr-new t.g.cmds cmd p e far,
  none_slower-append cmd.delay t.g.cmds cmd (ap (none_slower cmd.delay) empty)
      (ltℤ_irrefl cmd.delay),
)
entered-Slowest (some q) p cmd t same e far (c, found, top) =
    subst
      (λ o.
        Ends (λ r s'. Kept s')
          (and_then
            (and_then (deref o t)
              (λ slowest. pure (some (if ltℤ slowest.delay cmd.delay then p else q))))
            (λ slowest.
              modify (λ g. record g { slowestcmd = slowest; cmds = g.cmds ++ (cmd ∷ []) }) >>= λ u.
              pure (some p))))
      (sym found) (Slowest-append t.g.cmds cmd c p q e far found top)

-- What `add_created` finds in its command.
abbrev Made : ℕ → ℤ → Cmd → Type 0
Made p d c = (c.addr ≡ p) × (c.delay ≡ d)

cmd_init-Made :
    (p : ℕ) (a n b : Str) (d : ℤ) (l g : Option Str) → Gives (Made p d) (cmd_init p a n b d l g)
unfolding cmd_init
cmd_init-Made p a n b d l g = search (bind-Gives, pure-Gives) depth 12

cmd_create-same :
    (this : Cmd)
    → Gives
        (λ (made : Bool × Cmd). let (b, c) = made in Made this.addr this.delay c)
        (cmd_create this)
unfolding cmd_create
cmd_create-same this = search (bind-Gives, pure-Gives, if-Gives) depth 12

Kept-Same : {s s' : Sys} → Same s s' → Kept s → Kept s'
Kept-Same {s} {s'} same top =
    subst (λ cs. Slowest s'.g.slowestcmd cs) (sym same.cmds)
      (subst (λ o. Slowest o s.g.cmds) (sym same.slowest) top)

add_created-Slowest :
    (p : ℕ) (d : ℤ) (b : Bool) (cmd : Cmd) (t : Sys)
    → Made p d cmd
    → absent p (addrs t.g.cmds) ≡ true
    → Kept t
    → Ends (λ r s'. Kept s') (add_created p d (b, cmd) t)
unfolding add_created
add_created-Slowest p d false cmd t made far top =
    bind-Ends (λ r s'. Kept s') (cmd_dump cmd t) _
      λ _ v e.
        bind-Ends (λ r s'. Kept s') (cmd_cleanup cmd v) _
          λ c u e'.
            Kept-Same (kept (cmd_cleanup-Keeps cmd) v u c e')
              (Kept-Same (kept (cmd_dump-Keeps cmd) t v tt e) top)
add_created-Slowest p d true cmd t (at, delay) far top =
    subst
      (λ d.
        Ends (λ r s'. Kept s')
          ((slower t.g.slowestcmd p d >>= λ slowest.
              modify (λ g. record g { slowestcmd = slowest; cmds = g.cmds ++ (cmd ∷ []) }) >>= λ u.
              pure (some p))
            t))
      delay (entered-Slowest t.g.slowestcmd p cmd t refl at far top)

-- The next object is allocated where no command of the table is.
abbrev pub Fresh : Sys → Type 0
Fresh s = (h : History) → absent (s.env.malloc h) (addrs s.g.cmds) ≡ true

add_new-Slowest :
    (cstr : Str) (spec : Spec) (other : Option Cmd) (s : Sys)
    → Fresh s
    → Kept s
    → Ends (λ r s'. Kept s') (add_new cstr spec other s)
unfolding add_new
add_new-Slowest cstr spec (some other) s fresh top =
    bind-Ends (λ r s'. Kept s') (cmd_dump other s) _
      λ _ u e. Kept-Same (kept (cmd_dump-Keeps other) s u tt e) top
add_new-Slowest cstr spec none s fresh top =
    let p : ℕ = s.env.malloc s.calls in
    let t : Sys = record s { calls = malloc_call ∷ s.calls } in
    bind-Ends (λ r s'. Kept s')
      (cmd_init p cstr spec.name spec.cmdline spec.delay spec.ttylink spec.log t) _
      λ cmd v e.
        bind-Ends (λ r s'. Kept s') (cmd_create cmd v) _
          λ made w e'.
            let (b, c) = made in
            let one =
              kept (cmd_init-Keeps p cstr spec.name spec.cmdline spec.delay spec.ttylink spec.log) t
                v cmd e in
            let two = kept (cmd_create-Keeps cmd) v w made e' in
            let table : w.g.cmds ≡ s.g.cmds = two.cmds ∙ one.cmds in
            let first =
              given (cmd_init-Made p cstr spec.name spec.cmdline spec.delay spec.ttylink spec.log) t
                v cmd e in
            let second = given (cmd_create-same cmd) v w made e' in
            add_created-Slowest p spec.delay b c w (second.0 ∙ first.0, second.1 ∙ first.1)
              (ap (λ cs. absent p (addrs cs)) table ∙ fresh s.calls)
              (subst (λ cs. Slowest w.g.slowestcmd cs) (sym table)
                (subst (λ o. Slowest o s.g.cmds) (sym (two.slowest ∙ one.slowest)) top))

add_spec-Slowest :
    (cstr : Str) (spec : Option Spec) (s : Sys)
    → Fresh s
    → Kept s
    → Ends (λ r s'. Kept s') (add_spec cstr spec s)
unfolding add_spec
add_spec-Slowest cstr none s fresh top = top
add_spec-Slowest cstr (some spec) s fresh top =
    add_new-Slowest cstr spec (find_name s.g.cmds spec.name) s fresh top

-- If the pointer to the slowest command is null for an empty table and else points to a command of
-- the table with the greatest delay, and objects are allocated where no command is, then the
-- pointer is so again after a command has been added, whether the addition is reported to succeed
-- or not.
pub gbls_add_cmd-Slowest :
    (cstr : Str) (s s' : Sys) (r : Option ℕ)
    → ((h : History) → absent (s.env.malloc h) (addrs s.g.cmds) ≡ true)
    → Slowest s.g.slowestcmd s.g.cmds
    → gbls_add_cmd cstr s ≡ ok r s'
    → Slowest s'.g.slowestcmd s'.g.cmds
unfolding gbls_add_cmd
gbls_add_cmd-Slowest cstr s s' r fresh top h =
    let (parsed, t, e, h') = and_then-ok (cmdspec_parse cstr s) (add_spec cstr) r s' h in
    let same = kept (cmdspec_parse-Keeps cstr) s t parsed e in
    let top' =
      subst (λ cs. Slowest t.g.slowestcmd cs) (sym same.cmds)
        (subst (λ o. Slowest o s.g.cmds) (sym same.slowest) top) in
    let fresh' : Fresh t =
      λ h. ap₂ (λ (e : Env) cs. absent (e.malloc h) (addrs cs)) same.env same.cmds ∙ fresh h in
    subst (Ends (λ r s'. Kept s')) h' (add_spec-Slowest cstr parsed t fresh' top')
