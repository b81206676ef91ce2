-- ===== src/Mon/Commands/Dangling.antt =====
-- main.c: `monDel` of the slowest command, and the broadcast tty after it.
use yar.Base.{
  ℕ, ◌≡◌, refl, ap, subst, ◌∙◌, inl, inr, Bool, true, false, some, none, List, [], ◌∷◌, arith, ◌==◌,
  if◌then◌else◌, Bool-cases,
}
use yar.Kernel.{Str}
use yar.State.{Cmd, Sys}
use yar.Monad.{ok, stop, undefined, and_then-ok, ◌>>◌, pure}
use yar.Cmd.Stop.{cmd_cleanup}
use yar.Registry.{
  find_addr, find_name, remove, addrs, load_cmd, del_cmd, on_cmd_, exit_if_idle, is_empty,
}
use yar.Registry.Table.{absent, on_cmd_-Others}
use yar.Bcst.{bcst_read}
use yar.Mon.Commands.{delete_found, do_del}

-- The address `p` is at most once in the list.
unfoldable pub at_most_once : ℕ → List ℕ → Bool
at_most_once p [] = true
at_most_once p (q ∷ qs) = if q == p then absent p qs else at_most_once p qs

find_addr-absent : (cs : List Cmd) (p : ℕ) → absent p (addrs cs) ≡ true → find_addr cs p ≡ none
unfolding absent find_addr
find_addr-absent [] p h = refl
find_addr-absent (c ∷ cs) p h =
    let miss : (c.addr == p) ≡ false = ground arith in
    let more : absent p (addrs cs) ≡ true = ground arith in rw miss (find_addr-absent cs p more)

find_addr-remove :
    (cs : List Cmd) (p : ℕ) → at_most_once p (addrs cs) ≡ true → find_addr (remove cs p) p ≡ none
unfolding at_most_once find_addr remove
find_addr-remove [] p h = refl
find_addr-remove (c ∷ cs) p h = elim (Bool-cases (c.addr == p)) [
  | inl hit ↦ rw hit (find_addr-absent cs p (rw hit at h))
  | inr miss ↦ rw miss (rw miss (find_addr-remove cs p (rw miss at h)))
]

exit_if_idle-same : (s s' : Sys) → s.g.exitonidle ≡ false → exit_if_idle s ≡ ok tt s' → s ≡ s'
unfolding exit_if_idle
exit_if_idle-same s s' no_exit h = elim (Bool-cases (is_empty s.g.cmds)) [
  | inl e ↦ let h' = simp (e, no_exit) at h in cc
  | inr e ↦ let h' = simp (e, no_exit) at h in cc
]

ok-state : (a b : Bool) (s s' : Sys) → ok a s ≡ ok b s' → s ≡ s'
ok-state a b s s' h = cc

-- What follows the clearing.
removed-undefined :
    (p : ℕ) (b : Bool) (s s' : Sys)
    → s.g.slowestcmd ≡ some p
    → at_most_once p (addrs s.g.cmds) ≡ true
    → s.g.exitonidle ≡ false
    → (del_cmd p >> (exit_if_idle >> pure true)) s ≡ ok b s'
    → bcst_read s' ≡ stop undefined s'
unfolding del_cmd bcst_read load_cmd
removed-undefined p b s s' slowest once no_exit h =
    let s2 : Sys = record s { g = record s.g { cmds = remove s.g.cmds p } } in
    let (u3, s3, e3, h3) = and_then-ok (exit_if_idle s2) (λ u. pure true) b s' h in
    let same : s2 ≡ s3 = exit_if_idle-same s2 s3 no_exit e3 in
    let last : s3 ≡ s' = ok-state true b s3 s' h3 in
    let gone : find_addr (remove s.g.cmds p) p ≡ none = find_addr-remove s.g.cmds p once in
    subst (λ x. bcst_read x ≡ stop undefined x) (same ∙ last) (simp (slowest, gone))

-- If the monitor deletes the command that is the slowest one, and yar goes on, the pointer to it
-- stays; reading the broadcast tty then goes through that pointer to a command that is freed,
-- which is undefined.
pub do_del-undefined :
    (name : Str) (c : Cmd) (b : Bool) (s s' : Sys)
    → find_name s.g.cmds name ≡ some c
    → s.g.slowestcmd ≡ some c.addr
    → at_most_once c.addr (addrs s.g.cmds) ≡ true
    → s.g.exitonidle ≡ false
    → do_del name s ≡ ok b s'
    → bcst_read s' ≡ stop undefined s'
unfolding do_del delete_found
do_del-undefined name c b s s' found slowest once no_exit h =
    let (u1, s1, e1, h1) =
      and_then-ok (on_cmd_ c.addr cmd_cleanup s)
        (λ u. del_cmd c.addr >> (exit_if_idle >> pure true)) b s' (rw found at h) in
    let (table, rest) = on_cmd_-Others c.addr s s1 e1 in
    removed-undefined c.addr b s1 s' (rest.slowest ∙ slowest)
      (ap (at_most_once c.addr) table ∙ once) (rest.exitonidle ∙ no_exit) h1
