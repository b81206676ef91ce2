-- ===== src/Mon/Table/Words.antt =====
-- main.c: `monProcess` compares whole words.
use yar.Base.{
  suc, ◌+◌, ◌≡◌, ◌≢◌, refl, inl, inr, Bool, true, false, ◌&&◌, ◌||◌, not, Option, none, some, List,
  [], ◌∷◌, ◌++◌, arith, ◌==◌, length, In, first, later, ==_refl, subst, ap₂, Bool-cases,
}
use yar.Kernel.{Str}
use yar.Mon.Table.{MonCmd, strncmp_eq, find_mon_cmd}

-- A string of C has no null in it.
unfoldable pub has_no_null : Str → Bool
has_no_null [] = true
has_no_null (c ∷ cs) = not (c == 0) && has_no_null cs

or_true : (b : Bool) → (b || true) ≡ true
or_true true = refl
or_true false = refl

strncmp_eq_self :
    (word rest : Str)
    → has_no_null word ≡ true
    → strncmp_eq (length word + 1) (word ++ (0 ∷ rest)) word ≡ true
unfolding strncmp_eq has_no_null
strncmp_eq_self [] rest h = refl
strncmp_eq_self (c ∷ cs) rest h =
    let more : has_no_null cs ≡ true = ground arith in
    let e : suc (length cs) + 1 ≡ suc (length cs + 1) = omega arith in
    rw e (rw (==_refl c, strncmp_eq_self cs rest more) (or_true (c == 0)))

strncmp_eq→eq :
    (word name rest : Str)
    → has_no_null word ≡ true
    → has_no_null name ≡ true
    → strncmp_eq (length word + 1) (word ++ (0 ∷ rest)) name ≡ true
    → word ≡ name
unfolding strncmp_eq has_no_null
strncmp_eq→eq [] [] rest hw hn h = refl
strncmp_eq→eq [] (d ∷ ds) rest hw hn h = absurd (ground arith)
strncmp_eq→eq (c ∷ cs) [] rest hw hn h = absurd (ground arith)
strncmp_eq→eq (c ∷ cs) (d ∷ ds) rest hw hn h =
    let e : c ≡ d = ground arith in
    let hw' : has_no_null cs ≡ true = ground arith in
    let hn' : has_no_null ds ≡ true = ground arith in
    let more : strncmp_eq (length cs + 1) (cs ++ (0 ∷ rest)) ds ≡ true = ground arith in
    ap₂ ◌∷◌ e (strncmp_eq→eq cs ds rest hw' hn' more)

-- The names of a table are strings of C.
unfoldable pub named_well : List (Str × MonCmd) → Bool
named_well [] = true
named_well ((name, cmd) ∷ rest) = has_no_null name && named_well rest

-- What the search of a table for a word comes to.
abbrev pub Finds : List (Str × MonCmd) → Str → Option MonCmd → Type 0
Finds table word none = (cmd : MonCmd) → In (word, cmd) table → ⊥
Finds table word (some cmd) = In (word, cmd) table

In-cons_ne :
    (word name : Str) (k cmd : MonCmd) (table : List (Str × MonCmd))
    → word ≢ name
    → (In (word, k) table → ⊥)
    → In (word, k) ((name, cmd) ∷ table)
    → ⊥
In-cons_ne word name k cmd table ne f first = ne refl
In-cons_ne word name k cmd table ne f (later m) = f m

Finds-later :
    (table : List (Str × MonCmd)) (name word : Str) (cmd : MonCmd) (o : Option MonCmd)
    → word ≢ name
    → Finds table word o
    → Finds ((name, cmd) ∷ table) word o
Finds-later table name word cmd none ne f = λ k m. In-cons_ne word name k cmd table ne (f k) m
Finds-later table name word cmd (some k) ne f = later f

-- A word without nulls, which is what stands in front of the first null of the line, is looked up
-- as a whole, in a table whose names have no nulls either: an entry that is found has exactly this
-- name, and if none is found, no entry has it.
pub find_mon_cmd-Finds :
    (table : List (Str × MonCmd)) (word rest : Str)
    → has_no_null word ≡ true
    → named_well table ≡ true
    → Finds table word (find_mon_cmd table (word ++ (0 ∷ rest)) (length word))
unfolding find_mon_cmd named_well
find_mon_cmd-Finds [] word rest hw hn = λ k m. elim m [ ]
find_mon_cmd-Finds ((name, cmd) ∷ table) word rest hw hn =
    let hn1 : has_no_null name ≡ true = ground arith in
    let hn2 : named_well table ≡ true = ground arith in
    elim (Bool-cases (strncmp_eq (length word + 1) (word ++ (0 ∷ rest)) name)) [
      | inl hit ↦ rw hit (
          subst (λ w. In (word, cmd) ((w, cmd) ∷ table)) (strncmp_eq→eq word name rest hw hn1 hit)
            first)
      | inr miss ↦
          let ne : word ≢ name = λ e.
            let same =
              subst (λ w. strncmp_eq (length word + 1) (word ++ (0 ∷ rest)) w ≡ true) e
                (strncmp_eq_self word rest hw) in
            cc in
          rw miss (
            Finds-later table name word cmd (find_mon_cmd table (word ++ (0 ∷ rest)) (length word))
              ne (find_mon_cmd-Finds table word rest hw hn2))
    ]
