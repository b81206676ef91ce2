-- ===== src/Ascii/Names.antt =====
-- yar.h, main.c: which characters have a name, how long it is, and that it tells them apart.
use yar.Base.{
  ℕ, zero, suc, ◌+◌, ◌≤◌, ◌<◌, ◌≡◌, refl, ap, sym, subst, ==_iff, ◌∙◌, Bool, true, false, ◌&&◌,
  Option, none, some, List, [], ◌∷◌, leb, ◌==◌, if◌then◌else◌, is_some, length, arith, inl, inr,
  Bool-cases, leb→le, str_eq,
}
use yar.Kernel.{ℤ, pos, negsuc}
use yar.Ascii.{ascii_isvalid, ascii_isprintable, ascii_nonprintable, ascii_char2str}

-- A test holds of all the numbers below `n`.
abbrev all_below : (ℕ → Bool) → ℕ → Bool
all_below p zero = true
all_below p (suc n) = p n && all_below p n

and_true : (a b : Bool) → (a && b) ≡ true → (a ≡ true) × (b ≡ true)
and_true true b h = (refl, h)
and_true false b h = cc

all_below-lt : (p : ℕ → Bool) (n k : ℕ) → all_below p n ≡ true → k < n → p k ≡ true
all_below-lt p zero k h l = absurd (omega arith)
all_below-lt p (suc n) k h l = elim (Bool-cases (k == n)) [
  | inl e ↦
      subst (λ i. p i ≡ true) (sym (let (to, of) = ==_iff k n in to e))
        (let (a, b) = and_true (p n) (all_below p n) h in a)
  | inr e ↦ all_below-lt p n k (let (a, b) = and_true (p n) (all_below p n) h in b) (ground arith)
]

-- The place of a name in the table, and behind it the one of a character.
abbrev find : List ℕ → List (List ℕ) → ℕ → ℕ
find s [] i = i
find s (x ∷ xs) i = let rest = find s xs (i + 1) in if str_eq s x then i else rest

abbrev str2char : Option (List ℕ) → ℕ
str2char none = 128
str2char (some []) = 128
str2char (some (c ∷ [])) = c
str2char (some (c ∷ d ∷ s)) =
    let i = find (c ∷ d ∷ s) ascii_nonprintable 0 in if i == 32 then 127 else i

abbrev short : Option (List ℕ) → Bool
short none = false
short (some s) = leb (length s) 3

names_ok :
    all_below (λ c. (str2char (ascii_char2str (pos c)) == c) && short (ascii_char2str (pos c))) 128
    ≡ true
unfolding ascii_char2str str_eq
names_ok = refl

named : (c : ℕ) (s : List ℕ) → ascii_char2str (pos c) ≡ some s → c < 128
unfolding ascii_char2str
named c s h = ground (arith, h)

name_ok :
    (c : ℕ) (s : List ℕ)
    → ascii_char2str (pos c) ≡ some s
    → (str2char (some s) ≡ c) × (length s ≤ 3)
name_ok c s h =
    let (back, fits) = and_true _ _ (
      all_below-lt (λ k. (str2char (ascii_char2str (pos k)) == k) && short (ascii_char2str (pos k)))
        128 c names_ok (named c s h)) in
    (
      let (to, of) = ==_iff (str2char (some s)) c in
          to (subst (λ o. (str2char o == c) ≡ true) h back),
      leb→le (length s) 3 (subst (λ o. short o ≡ true) h fits),
    )

not_named : (c : ℕ) (s : List ℕ) → ascii_char2str (negsuc c) ≡ some s → ⊥
unfolding ascii_char2str
not_named c s h = cc

-- Two ints that are given the same name are the same, and a name has at most 3 bytes, so that
-- with its null it fits the array of 4.
ascii_char2str_injective :
    (c d : ℤ) (s : List ℕ)
    → ascii_char2str c ≡ some s
    → ascii_char2str d ≡ some s
    → (c ≡ d) × (length s ≤ 3)
ascii_char2str_injective (pos c) (pos d) s h k =
    let (hc, l) = name_ok c s h in let (hd, _) = name_ok d s k in (ap pos (sym hc ∙ hd), l)
ascii_char2str_injective (pos c) (negsuc d) s h k = absurd (not_named d s k)
ascii_char2str_injective (negsuc c) d s h k = absurd (not_named c s h)

-- An int is given a name exactly if it is in the ASCII range.
pub ascii_char2str-is_some : (c : ℤ) → is_some (ascii_char2str c) ≡ ascii_isvalid c
unfolding ascii_char2str ascii_isvalid
ascii_char2str-is_some (pos c) = ground arith
ascii_char2str-is_some (negsuc c) = refl

-- What is printable has a name.
pub ascii_isprintable-named :
    (c : ℤ) → ascii_isprintable c ≡ true → is_some (ascii_char2str c) ≡ true
unfolding ascii_char2str ascii_isprintable
ascii_isprintable-named (pos c) h = ground arith
ascii_isprintable-named (negsuc c) h = cc
