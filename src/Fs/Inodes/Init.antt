-- ===== src/Fs/Inodes/Init.antt =====
-- fs.c: a table of inodes that has just been made.
use yar.Base.{
  ℕ, zero, suc, ◌+◌, ◌<◌, ◌≡◌, refl, sym, ap, none, some, List, length, get_or, arith, range, ==_of,
}
use yar.Fs.{Fs, done, no_inodesc}
use yar.Fs.Inodes.{linked, init_inotable}
use yar.Fs.Inodes.Stack.{Absent, Chain, FreeList, null_of}

get_or-linked :
    (i n j : ℕ)
    → j < n
    → get_or (linked i n) j no_inodesc ≡ record { file = none; next = some (i + j + 1) }
unfolding linked
get_or-linked i zero j l = absurd (omega arith)
get_or-linked i (suc n) zero l = let e : i + 0 + 1 ≡ i + 1 = omega arith in rw e refl
get_or-linked i (suc n) (suc j) l =
    let e : i + suc j + 1 ≡ i + 1 + j + 1 = omega arith in
    rw e (get_or-linked (i + 1) n j (omega arith))

get_or-linked_last : (i n : ℕ) → get_or (linked i n) n no_inodesc ≡ no_inodesc
unfolding linked
get_or-linked_last i zero = refl
get_or-linked_last i (suc n) = get_or-linked_last (i + 1) n

length-linked : (i n : ℕ) → length (linked i n) ≡ n + 1
unfolding linked
length-linked i zero = omega arith
length-linked i (suc n) = omega (arith, length-linked (i + 1) n)

-- The inodes from `i` on, `n` of them.
abbrev pub inodes : ℕ → ℕ → List ℕ
inodes i n = range (λ k. k) i n

inodes-Absent : (k i n : ℕ) → k < i → Absent k (inodes i n)
inodes-Absent k i zero l = tt
inodes-Absent k i (suc n) l = ((omega arith), inodes-Absent k (i + 1) n (omega arith))

linked-Chain : (n i m : ℕ) → i + m ≡ n → Chain (linked 0 n) (some i) (inodes i (suc m))
linked-Chain n i zero e = (
  refl,
  (
    (omega (arith, length-linked 0 n)),
    (tt, rw (let e' : i ≡ n = omega (arith, e) in e', get_or-linked_last 0 n) refl),
  ),
)
linked-Chain n i (suc m) e = (
  refl,
  (
    (omega (arith, length-linked 0 n)),
    (
      inodes-Absent i (i + 1) (suc m) (omega arith),
      rw (get_or-linked 0 n i (omega arith), let e' : 0 + i + 1 ≡ i + 1 = omega arith in e')
          (linked-Chain n (i + 1) m (omega arith)),
    ),
  ),
)

length-inodes : (i n : ℕ) → length (inodes i n) ≡ n
length-inodes i zero = refl
length-inodes i (suc n) = ap suc (length-inodes (i + 1) n)

-- A file system without a table is given one of 256 inodes, all of them free, the lowest first.
init_inotable-FreeList :
    (s : Fs)
    → s.ino_table ≡ none
    → s.ino_num ≡ 0
    → (s' : Fs) × (init_inotable s ≡ done tt s') × FreeList s' (inodes 0 256)
unfolding init_inotable
init_inotable-FreeList s e n = (
  record s {
    ino_table = some (linked 0 255);
    ino_num = 256;
    ino_freelist = some 0;
    ino_numfree = 256;
  },
  rw (null_of s.ino_table e, ==_of s.ino_num 0 n) refl,
  record {
    made = refl;
    num = sym (length-linked 0 255);
    count = sym (length-inodes 0 256);
    chain = linked-Chain 255 0 255 refl;
  },
)
