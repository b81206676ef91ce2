-- ===== src/Registry/Table.antt =====
-- main.c: what the clearing of one command does to the table of commands and leaves alone.
use yar.Base.{
  ℕ, Bool, ◌≡◌, refl, sym, ap, subst, ◌∙◌, inl, inr, true, Option, some, none, List, [], ◌∷◌, ◌==◌,
  not, ◌&&◌, ==_iff, Bool-cases,
}
use yar.State.{Cmd, Sys}
use yar.Monad.{ok, and_then-ok, ◌>>=◌, deref, for_each}
use yar.Cmd.Stop.{cmd_cleanup}
use yar.Frame.{Same, Same-refl}
use yar.Frame.Cmds.{cmd_cleanup-Same}
use yar.Registry.{
  find_addr, replace, remove, addrs, load_cmd, save_cmd, del_cmd, on_cmd_, cleanup_cmd,
}

-- The address `p` is not in the list; the addresses of the list differ.
unfoldable pub absent : ℕ → List ℕ → Bool
absent p [] = true
absent p (q ∷ qs) = not (q == p) && absent p qs

unfoldable pub apart : List ℕ → Bool
apart [] = true
apart (p ∷ ps) = absent p ps && apart ps

-- What is the same in two states that may differ in the table of commands.
pub record Others (s s' : Sys) : Type 0 where
  pub slowest : s'.g.slowestcmd ≡ s.g.slowestcmd
  pub bcsttty : s'.g.bcsttty ≡ s.g.bcsttty
  pub mon : s'.g.mon ≡ s.g.mon
  pub config : s'.g.config ≡ s.g.config
  pub bcstflg : s'.g.bcstflg ≡ s.g.bcstflg
  pub exitonidle : s'.g.exitonidle ≡ s.g.exitonidle

pub Others-refl : (s : Sys) → Others s s
Others-refl s = record {
  slowest = refl;
  bcsttty = refl;
  mon = refl;
  config = refl;
  bcstflg = refl;
  exitonidle = refl;
}

pub Others-trans : (s t u : Sys) → Others s t → Others t u → Others s u
Others-trans s t u a b = record {
  slowest = b.slowest ∙ a.slowest;
  bcsttty = b.bcsttty ∙ a.bcsttty;
  mon = b.mon ∙ a.mon;
  config = b.config ∙ a.config;
  bcstflg = b.bcstflg ∙ a.bcstflg;
  exitonidle = b.exitonidle ∙ a.exitonidle;
}

-- A new value at its address leaves the addresses.
addrs-replace : (cs : List Cmd) (c : Cmd) → addrs (replace cs c) ≡ addrs cs
unfolding replace
addrs-replace [] c = refl
addrs-replace (d ∷ ds) c = elim (Bool-cases (d.addr == c.addr)) [
  | inl hit ↦ rw hit (ap (λ x. x ∷ addrs ds) (sym ((==_iff d.addr c.addr).0 hit)))
  | inr miss ↦ rw miss (ap (λ x. d.addr ∷ x) (addrs-replace ds c))
]

deref-same : (o : Option Cmd) (c : Cmd) (s s' : Sys) → deref o s ≡ ok c s' → s' ≡ s
deref-same none c s s' h = cc
deref-same (some d) c s s' h = cc

abbrev with_table : Sys → List Cmd → Sys
with_table s cs = record s { g = record s.g { cmds = cs } }

table-Others : (s t : Sys) (cs : List Cmd) → Same s t → Others s (with_table t cs)
table-Others s t cs same = record {
  slowest = same.slowest;
  bcsttty = same.bcsttty;
  mon = same.mon;
  config = same.config;
  bcstflg = same.bcstflg;
  exitonidle = same.exitonidle;
}

-- Clearing an object leaves the addresses of the table, and all but the table.
pub on_cmd_-Others :
    (p : ℕ) (s s' : Sys)
    → on_cmd_ p cmd_cleanup s ≡ ok tt s'
    → (addrs s'.g.cmds ≡ addrs s.g.cmds) × Others s s'
unfolding on_cmd_ load_cmd save_cmd
on_cmd_-Others p s s' h =
    let (c, s1, e1, h1) =
      and_then-ok (deref (find_addr s.g.cmds p) s) (λ x. cmd_cleanup x >>= save_cmd) tt s' h in
    let (t, s2, e2, h2) = and_then-ok (cmd_cleanup c s1) save_cmd tt s' h1 in
    let same = cmd_cleanup-Same c t s1 s2 e2 in
    let i : s1 ≡ s = deref-same (find_addr s.g.cmds p) c s s1 e1 in
    let j : with_table s2 (replace s2.g.cmds t) ≡ s' = cc in
    let same' : Same s s2 = subst (λ x. Same x s2) i same in
    subst (λ (x : Sys). (addrs x.g.cmds ≡ addrs s.g.cmds) × Others s x) j
      (
        addrs-replace s2.g.cmds t ∙ ap addrs same'.cmds,
        table-Others s s2 (replace s2.g.cmds t) same',
      )

addrs-remove : (cs : List Cmd) (p : ℕ) (ps : List ℕ) → addrs cs ≡ p ∷ ps → addrs (remove cs p) ≡ ps
unfolding remove
addrs-remove [] p ps h = absurd (cc)
addrs-remove (c ∷ cs) p ps h =
    let head : c.addr ≡ p = cc in
    let hit : (c.addr == p) ≡ true = (==_iff c.addr p).1 head in rw hit (cc)

addrs-empty : (cs : List Cmd) → addrs cs ≡ [] → cs ≡ []
addrs-empty [] h = refl
addrs-empty (c ∷ cs) h = absurd (cc)

-- Clearing the commands at the addresses of the table, in order, empties the table.
pub cleanup_cmds-empty :
    (ps : List ℕ) (s s' : Sys)
    → addrs s.g.cmds ≡ ps
    → for_each ps cleanup_cmd s ≡ ok tt s'
    → (s'.g.cmds ≡ []) × Others s s'
unfolding del_cmd
cleanup_cmds-empty [] s s' table h =
    let same : s ≡ s' = cc in
    subst (λ (x : Sys). (x.g.cmds ≡ []) × Others s x) same
      (addrs-empty s.g.cmds table, Others-refl s)
cleanup_cmds-empty (p ∷ ps) s s' table h =
    let (u, s1, e1, h1) = and_then-ok (cleanup_cmd p s) (λ u. for_each ps cleanup_cmd) tt s' h in
    let (v, s2, e2, h2) = and_then-ok (on_cmd_ p cmd_cleanup s) (λ u. del_cmd p) u s1 e1 in
    let (kept, others) = on_cmd_-Others p s s2 e2 in
    let next : with_table s2 (remove s2.g.cmds p) ≡ s1 = cc in
    let less : addrs s1.g.cmds ≡ ps =
      ap (λ (x : Sys). addrs x.g.cmds) (sym next) ∙ addrs-remove s2.g.cmds p ps (kept ∙ table) in
    let (empty, more) = cleanup_cmds-empty ps s1 s' less h1 in
    (
      empty,
      Others-trans s s1 s'
          (subst (Others s) next (
            Others-trans s s2 (with_table s2 (remove s2.g.cmds p)) others
              (table-Others s2 s2 (remove s2.g.cmds p) (Same-refl s2))))
          more,
    )
