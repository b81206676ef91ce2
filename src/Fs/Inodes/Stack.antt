-- ===== src/Fs/Inodes/Stack.antt =====
-- fs.c: the free list is a stack of the inodes that are free.
use yar.Base.{
  ℕ, zero, suc, ◌+◌, ◌-◌, ◌<◌, ◌≡◌, ◌≢◌, refl, sym, ap, ◌∙◌, Bool, true, false, Option, none, some,
  List, [], ◌∷◌, ltb, length, get_or, set, length-set, get_or-set_self, get_or-set_ne, arith,
  lt→ltb, Bool-cases, Option-cases, inl, inr, ==_of,
}
use yar.Monad.{aborted}
use yar.Fs.{Fs, Inodesc, done, fault, no_inodesc, is_null}
use yar.Fs.Inodes.{table, ensure_inotable, take_free, inoalloc, inofree, ino2inodesc, inodesc2ino}

abbrev pub Absent : ℕ → List ℕ → Type 0
Absent i [] = Unit {0}
Absent i (j ∷ l) = (i ≢ j) × Absent i l

abbrev pub desc : List Inodesc → ℕ → Inodesc
desc t i = get_or t i no_inodesc

-- From `o` the descriptors lead through the places `l`, each of them once, to null.
abbrev pub Chain : List Inodesc → Option ℕ → List ℕ → Type 0
Chain t o [] = o ≡ none
Chain t o (i ∷ l) = (o ≡ some i) × ((i < length t) × (Absent i l × Chain t (desc t i).next l))

-- The free inodes of a file system whose table has been made, the one to be taken next first.
pub record FreeList (s : Fs) (free : List ℕ) : Type 0 where
  pub made : is_null s.ino_table ≡ false
  pub num : s.ino_num ≡ length (table s)
  pub count : s.ino_numfree ≡ length free
  pub chain : Chain (table s) s.ino_freelist free

Chain-set :
    (t : List Inodesc) (o : Option ℕ) (l : List ℕ) (i : ℕ) (d : Inodesc)
    → Absent i l
    → Chain t o l
    → Chain (set t i d) o l
Chain-set t o [] i d a c = c
Chain-set t o (j ∷ l) i d (n, a) (e, (b, (f, c))) = (
  e,
  (
    rw (length-set t i d) b,
    (f, rw (get_or-set_ne t i j d no_inodesc n) (Chain-set t (desc t j).next l i d a c)),
  ),
)

-- The state after `id` has been taken from the free list.
abbrev pub taken : ℕ → Fs → Fs
taken i s = record s {
  ino_table = some (set (table s) i (record (desc (table s) i) { next = none }));
  ino_freelist = (desc (table s) i).next;
  ino_numfree = s.ino_numfree - 1;
}

-- The ways in which an allocation ends, for the free inodes it finds.
pub data Alloc (s : Fs) : List ℕ → Type 0 where
  popped :
      {i : ℕ} {l : List ℕ}
      → (desc (table s) i).file ≡ none
      → inoalloc s ≡ done i (taken i s)
      → FreeList (taken i s) l
      → Alloc s (i ∷ l)
  stale :
      {i a : ℕ} {l : List ℕ}
      → (desc (table s) i).file ≡ some a
      → inoalloc s ≡ fault aborted
      → Alloc s (i ∷ l)
  exhausted : inoalloc s ≡ fault aborted → Alloc s []

pub inoalloc-take_free :
    (s : Fs) (o : Option ℕ)
    → is_null s.ino_table ≡ false
    → s.ino_freelist ≡ o
    → inoalloc s ≡ take_free o s
unfolding inoalloc ensure_inotable
inoalloc-take_free s o m e = rw m (ap (λ x. take_free x s) e)

pub take_free-taken :
    (s : Fs) (i : ℕ)
    → ltb i s.ino_num ≡ true
    → ltb 0 s.ino_numfree ≡ true
    → is_null (desc (table s) i).file ≡ true
    → take_free (some i) s ≡ done i (taken i s)
unfolding take_free inodesc2ino
take_free-taken s i l p n = rw (p, n, l) refl

pub take_free-stale :
    (s : Fs) (i : ℕ)
    → ltb 0 s.ino_numfree ≡ true
    → is_null (desc (table s) i).file ≡ false
    → take_free (some i) s ≡ fault aborted
unfolding take_free
take_free-stale s i p n = rw (p, n) refl

pub null_of : {A : Type 0} (o : Option A) → o ≡ none → is_null o ≡ true
null_of none e = refl
null_of (some a) e = cc

pub not_null_of : {A : Type 0} (o : Option A) (a : A) → o ≡ some a → is_null o ≡ false
not_null_of none a e = cc
not_null_of (some b) a e = refl

taken-FreeList : (s : Fs) (i : ℕ) (l : List ℕ) → FreeList s (i ∷ l) → FreeList (taken i s) l
taken-FreeList s i l h =
    let (e, (b, (f, c))) = h.chain in
    record {
      made = refl;
      num = h.num ∙ sym (length-set (table s) i _);
      count = omega (arith, h.count);
      chain = Chain-set (table s) (desc (table s) i).next l i _ f c;
    }

-- The free inodes are a stack: when a list of them is kept from the free list, an allocation
-- takes the first and keeps the rest, unless that inode still has a file or none is left: then
-- it aborts.
pub inoalloc-pops : (s : Fs) (free : List ℕ) → FreeList s free → Alloc s free
unfolding take_free
inoalloc-pops s [] h =
    exhausted (inoalloc-take_free s none h.made h.chain ∙ rw (==_of s.ino_numfree 0 h.count) refl)
inoalloc-pops s (i ∷ l) h =
    let (e, (b, (f, c))) = h.chain in
    let go : inoalloc s ≡ take_free (some i) s = inoalloc-take_free s (some i) h.made e in
    let some_left : ltb 0 s.ino_numfree ≡ true = lt→ltb 0 s.ino_numfree (omega (arith, h.count)) in
    elim (Option-cases (desc (table s) i).file) [
      | inl n ↦
          popped n
            (go
              ∙ take_free-taken s i (lt→ltb i s.ino_num (omega (arith, h.num, b))) some_left
                  (null_of (desc (table s) i).file n))
            (taken-FreeList s i l h)
      | inr (a, y) ↦
          stale y (go ∙ take_free-stale s i some_left (not_null_of (desc (table s) i).file a y))
    ]

-- The state after `i` has been put back.
abbrev pub freed : ℕ → Fs → Fs
freed i s = record s {
  ino_table = some (set (table s) i (record (desc (table s) i) { next = s.ino_freelist }));
  ino_freelist = some i;
  ino_numfree = s.ino_numfree + 1;
}

pub inofree_lem :
    (s : Fs) (i : ℕ)
    → ltb i s.ino_num ≡ true
    → is_null (desc (table s) i).next ≡ true
    → inofree i s ≡ done true (freed i s)
unfolding inofree ino2inodesc
inofree_lem s i l n = rw (l, n) refl

-- Putting back an inode of the table that is in use, so that it is not in the free list and
-- leads nowhere, pushes it.
pub inofree-pushes :
    (s : Fs) (free : List ℕ) (i : ℕ)
    → FreeList s free
    → i < length (table s)
    → Absent i free
    → (desc (table s) i).next ≡ none
    → (inofree i s ≡ done true (freed i s)) × FreeList (freed i s) (i ∷ free)
inofree-pushes s free i h b a n = (
  inofree_lem s i (lt→ltb i s.ino_num (omega (arith, h.num))) (null_of (desc (table s) i).next n),
  record {
    made = refl;
    num = h.num ∙ sym (length-set (table s) i _);
    count = omega (arith, h.count);
    chain = (
      refl,
      (
        rw (length-set (table s) i (record (desc (table s) i) { next = s.ino_freelist })) b,
        (
          a,
          rw
              (get_or-set_self (table s) i (record (desc (table s) i) { next = s.ino_freelist })
                no_inodesc b)
              (Chain-set (table s) s.ino_freelist free i _ a h.chain),
        ),
      ),
    );
  },
)

pub inofree-freed : (s s' : Fs) (i : ℕ) (b : Bool) → inofree i s ≡ done b s' → s' ≡ freed i s
unfolding inofree ino2inodesc
inofree-freed s s' i b h = elim (Bool-cases (ltb i s.ino_num)) [
  | inl l ↦ elim (Bool-cases (is_null (desc (table s) i).next)) [
    | inl n ↦ same true b (freed i s) s' (sym (inofree_lem s i l n) ∙ h)
    | inr n ↦ absurd (no (rw (l, n) at h))
  ]
  | inr l ↦ absurd (no (rw l at h))
]
  where
    same : (a b : Bool) (x y : Fs) → done a x ≡ done b y → y ≡ x
    same a b x y e = cc

    no : fault aborted ≡ done b s' → ⊥
    no e = cc

pub in_table : (t : List Inodesc) (i a : ℕ) → (desc t i).file ≡ some a → i < length t
in_table [] i a e = absurd (nothing_there e)
  where
    nothing_there : none ≡ some a → ⊥
    nothing_there e = cc
in_table (d ∷ t) zero a e = omega arith
in_table (d ∷ t) (suc i) a e = omega (arith, in_table t i a e)

-- When an inode is put back that still has its file, the next allocation aborts.
pub inoalloc-inofree :
    (s s' : Fs) (i a : ℕ) (b : Bool)
    → (desc (table s) i).file ≡ some a
    → inofree i s ≡ done b s'
    → inoalloc s' ≡ fault aborted
inoalloc-inofree s s' i a b y h =
    ap inoalloc (inofree-freed s s' i b h)
    ∙ inoalloc-take_free (freed i s) (some i) refl refl
    ∙ take_free-stale (freed i s) i (lt→ltb 0 (s.ino_numfree + 1) (omega arith)) (
        rw
          (get_or-set_self (table s) i (record (desc (table s) i) { next = s.ino_freelist })
            no_inodesc (in_table (table s) i a y))
          (not_null_of (desc (table s) i).file a y))
