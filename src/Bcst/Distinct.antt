-- ===== src/Bcst/Distinct.antt =====
-- main.c: the names in the table of commands stay distinct when `GBLSAddCmd` adds one.
use yar.Base.{
  ℕ, ◌≡◌, refl, sym, subst, ◌∙◌, Bool, true, false, Option, none, some, List, [], ◌∷◌, ◌++◌,
  is_some, str_eq, str_eq_refl, str_eq→eq, Bool-cases, inl, inr,
}
use yar.Kernel.{Str}
use yar.State.{Sys, Cmd}
use yar.Monad.{ok}
use yar.Registry.{find_name, has_name}
use yar.Bcst.{gbls_add_cmd}
use yar.Bcst.Names.{Entered, Ends, gbls_add_cmd-Entered}

abbrev pub name_taken : Option Str → List Cmd → Bool
name_taken none cs = false
name_taken (some n) cs = is_some (find_name cs n)

-- No two commands of a table have the same name.
abbrev pub Distinct : List Cmd → Type 0
Distinct [] = Unit {0}
Distinct (c ∷ cs) = (name_taken c.name cs ≡ false) × Distinct cs

str_eq_sym_false : (a b : Str) → str_eq a b ≡ false → str_eq b a ≡ false
str_eq_sym_false a b h = elim (Bool-cases (str_eq b a)) [
  | inr e ↦ e
  | inl e ↦ absurd (no (sym (subst (λ x. str_eq x b ≡ true) (str_eq→eq b a e) (str_eq_refl b)) ∙ h))
]
  where
    no : true ≡ false → ⊥
    no e = cc

has_name_lem : (c : Cmd) (n m : Str) → c.name ≡ some n → has_name c m ≡ str_eq n m
has_name_lem c n m h = rw h refl

-- A name that is not found in a table is not that of its first command, nor found behind it.
not_found :
    (c : Cmd) (cs : List Cmd) (n : Str)
    → find_name (c ∷ cs) n ≡ none
    → (has_name c n ≡ false) × (find_name cs n ≡ none)
unfolding find_name
not_found c cs n h = elim (Bool-cases (has_name c n)) [
  | inl e ↦ absurd (no c (rw e at h))
  | inr e ↦ (e, rw e at h)
]
  where
    no : (c : Cmd) → some c ≡ none → ⊥
    no c e = cc

find_name-append :
    (cs : List Cmd) (cmd : Cmd) (m : Str)
    → is_some (find_name cs m) ≡ false
    → has_name cmd m ≡ false
    → is_some (find_name (cs ++ (cmd ∷ [])) m) ≡ false
unfolding find_name
find_name-append [] cmd m h k = rw k refl
find_name-append (c ∷ cs) cmd m h k = elim (Bool-cases (has_name c m)) [
  | inl e ↦ absurd (no (rw e at h))
  | inr e ↦ rw e (find_name-append cs cmd m (rw e at h) k)
]
  where
    no : true ≡ false → ⊥
    no e = cc

name_taken-append :
    (o : Option Str) (cs : List Cmd) (cmd : Cmd) (n : Str)
    → cmd.name ≡ some n
    → name_taken o cs ≡ false
    → ((m : Str) → o ≡ some m → str_eq m n ≡ false)
    → name_taken o (cs ++ (cmd ∷ [])) ≡ false
name_taken-append none cs cmd n name h k = refl
name_taken-append (some m) cs cmd n name h k =
    find_name-append cs cmd m h (has_name_lem cmd n m name ∙ str_eq_sym_false m n (k m refl))

Distinct-append :
    (cs : List Cmd) (cmd : Cmd) (n : Str)
    → Distinct cs
    → cmd.name ≡ some n
    → find_name cs n ≡ none
    → Distinct (cs ++ (cmd ∷ []))
unfolding find_name
Distinct-append [] cmd n d name new = (alone cmd.name, tt)
  where
    alone : (o : Option Str) → name_taken o [] ≡ false
    alone none = refl
    alone (some m) = refl
Distinct-append (c ∷ cs) cmd n (t, d) name new =
    let (other, rest) = not_found c cs n new in
    (
      name_taken-append c.name cs cmd n name t (λ m e. sym (has_name_lem c m n e) ∙ other),
      Distinct-append cs cmd n d name rest,
    )

Entered-Distinct :
    (r : Option ℕ) (s s' : Sys) → Distinct s.g.cmds → Entered r s s' → Distinct s'.g.cmds
Entered-Distinct none s s' d e = subst Distinct (sym e) d
Entered-Distinct (some p) s s' d (cmd, (n, (name, (new, e)))) =
    subst Distinct (sym e) (Distinct-append s.g.cmds cmd n d name new)

-- Adding a command, whether it is reported to succeed or not, keeps the names in the table of
-- commands distinct.
pub gbls_add_cmd-Distinct :
    (cstr : Str) (s s' : Sys) (r : Option ℕ)
    → Distinct s.g.cmds
    → gbls_add_cmd cstr s ≡ ok r s'
    → Distinct s'.g.cmds
gbls_add_cmd-Distinct cstr s s' r d h =
    Entered-Distinct r s s' d
      (subst (Ends (λ r s'. Entered r s s')) h (gbls_add_cmd-Entered cstr s))
