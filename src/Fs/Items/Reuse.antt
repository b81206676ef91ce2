-- ===== src/Fs/Items/Reuse.antt =====
-- fs.c: the inode of an item that has been removed still has its file.
use yar.Base.{
  ℕ, zero, suc, ◌+◌, ◌≡◌, refl, sym, ap, subst, ◌∙◌, Bool, true, false, ◌&&◌, Option, none, some,
  List, if◌then◌else◌, get_or, set, get_or-set_self, lt→ltb, arith,
}
use yar.Monad.{aborted}
use yar.Fs.{
  bind-done, same_state, Fs, FsFile, FsRes, done, fault, F, bind, ◌>>=◌, ◌>>◌, pure, assert, get,
  deref, file_at, set_file, no_inodesc,
}
use yar.Fs.Inodes.{table, entries, inodesc_at, ino2inodesc, inoalloc, inofree}
use yar.Fs.Inodes.Stack.{
  desc, freed, inofree-freed, inoalloc-take_free, take_free-stale, in_table, not_null_of,
}
use yar.Fs.Items.{
  fs_removeitem, is_occupied, containing_dir, remove_entry, remove_from, discard_item, purge_dir,
  unless_occupied,
}

-- `P` holds of the state of a run that ends.
abbrev Ends : {A : Type 0} → (Fs → Type 0) → FsRes A → Type 0
Ends P (done a s) = P s
Ends P (fault h) = Unit {0}

-- A run that ends leaves the table of inodes as it is.
record Leaves {A : Type 0} (m : F A) : Type 0 where
  leaves : (s : Fs) → Ends (λ t. t.ino_table ≡ s.ino_table) (m s)

pure-Leaves : {A : Type 0} (a : A) → Leaves (pure a)
pure-Leaves a = record { leaves = λ s. refl }

get-Leaves : Leaves get
get-Leaves = record { leaves = λ s. refl }

assert-Leaves : (b : Bool) → Leaves (assert b)
assert-Leaves true = record { leaves = λ s. refl }
assert-Leaves false = record { leaves = λ s. tt }

deref-Leaves : {A : Type 0} (o : Option A) → Leaves (deref o)
deref-Leaves none = record { leaves = λ s. tt }
deref-Leaves (some a) = record { leaves = λ s. refl }

file_at-Leaves : (a : ℕ) → Leaves (file_at a)
file_at-Leaves a = record { leaves = λ s. (deref-Leaves (get_or s.files a none)).leaves s }

inodesc_at-Leaves : (i : ℕ) → Leaves (inodesc_at i)
inodesc_at-Leaves i = record { leaves = λ s. refl }

set_file-Leaves : (a : ℕ) (f : Option FsFile) → Leaves (set_file a f)
set_file-Leaves a f = record { leaves = λ s. refl }

Ends-trans :
    {B : Type 0} (s t : Fs) (r : FsRes B)
    → t.ino_table ≡ s.ino_table
    → Ends (λ u. u.ino_table ≡ t.ino_table) r
    → Ends (λ u. u.ino_table ≡ s.ino_table) r
Ends-trans s t (done b u) p q = q ∙ p
Ends-trans s t (fault h) p q = tt

Ends-bind :
    {A B : Type 0} (s : Fs) (r : FsRes A) (f : A → F B)
    → Ends (λ t. t.ino_table ≡ s.ino_table) r
    → ((a : A) → Leaves (f a))
    → Ends (λ t. t.ino_table ≡ s.ino_table) (bind r f)
Ends-bind s (done a t) f e k = Ends-trans s t (f a t) e ((k a).leaves t)
Ends-bind s (fault h) f e k = tt

bind-Leaves :
    {A B : Type 0} (m : F A) (f : A → F B) → Leaves m → ((a : A) → Leaves (f a)) → Leaves (m >>= f)
bind-Leaves m f hm hf = record { leaves = λ s. Ends-bind s (m s) f (hm.leaves s) hf }

if-Leaves : {A : Type 0} (b : Bool) (m n : F A) → Leaves m → Leaves n → Leaves (if b then m else n)
if-Leaves true m n hm hn = hm
if-Leaves false m n hm hn = hn

ruleset leaving = (
  pure-Leaves, get-Leaves, assert-Leaves, deref-Leaves, file_at-Leaves, inodesc_at-Leaves,
  set_file-Leaves, bind-Leaves, if-Leaves,
)

left_alone :
    {A : Type 0} {m : F A}
    → Leaves m
    → (s s' : Fs) (a : A) → m s ≡ done a s'
    → s'.ino_table ≡ s.ino_table
left_alone k s s' a h = subst (Ends (λ t. t.ino_table ≡ s.ino_table)) h (k.leaves s)

ino2inodesc-Leaves : (i : ℕ) → Leaves (ino2inodesc i)
unfolding ino2inodesc
ino2inodesc-Leaves i = search leaving depth 8

is_occupied-Leaves : (f : FsFile) → Leaves (is_occupied f)
unfolding is_occupied
is_occupied-Leaves f = search leaving depth 12

containing_dir-Leaves : (f : FsFile) → Leaves (containing_dir f)
unfolding containing_dir
containing_dir-Leaves f = search (leaving, ino2inodesc-Leaves) depth 14

remove_entry-Leaves : (dir item : ℕ) (f : FsFile) → Leaves (remove_entry dir item f)
unfolding remove_entry
remove_entry-Leaves dir item f = search leaving depth 20

remove_from-Leaves : (dir : Option ℕ) (item : ℕ) (f : FsFile) → Leaves (remove_from dir item f)
remove_from-Leaves none item f = pure-Leaves false
remove_from-Leaves (some dir) item f = remove_entry-Leaves dir item f

abbrev with_files : Fs → List (Option FsFile) → Fs
with_files s files = record s { files = files }

-- The state after the inode `i` has been put back and some file freed.
inoalloc-discarded :
    (t : Fs) (i a : ℕ) (files : List (Option FsFile))
    → (desc (table t) i).file ≡ some a
    → inoalloc (record (freed i t) { files = files }) ≡ fault aborted
inoalloc-discarded t i a files y =
    inoalloc-take_free (record (freed i t) { files = files }) (some i) refl refl
    ∙ take_free-stale (record (freed i t) { files = files }) i
        (lt→ltb 0 (t.ino_numfree + 1) (omega arith))
        (rw
          (get_or-set_self (table t) i (record (desc (table t) i) { next = t.ino_freelist })
            no_inodesc (in_table (table t) i a y))
          (not_null_of (desc (table t) i).file a y))

discard_item-inoalloc :
    (t t' : Fs) (item a : ℕ) (f : FsFile) (b : Bool)
    → (desc (table t) f.ino).file ≡ some a
    → discard_item item f t ≡ done b t'
    → inoalloc t' ≡ fault aborted
discard_item-inoalloc t t' item a f b y h =
    let (b', u, e, e') =
      bind-done (inofree f.ino t) (λ freed. set_file item none >> pure true) b t' h in
    ap inoalloc (
      same_state true b (with_files u (set u.files item none)) t' e'
      ∙ ap (λ x. with_files x (set u.files item none)) (inofree-freed t u f.ino b' e))
    ∙ inoalloc-discarded t f.ino a (set u.files item none) y

purge_dir-no :
    (dir : Option ℕ) (e : Bool) (k : ℕ → F Bool) (t : Fs)
    → purge_dir dir (e && false) k t ≡ done true t
purge_dir-no none e k t = refl
purge_dir-no (some d) true k t = refl
purge_dir-no (some d) false k t = refl

-- The part of a removal behind the test for a directory that is not empty.
removal-inoalloc :
    (t s' : Fs) (fuel item a : ℕ) (f : FsFile) (occupied : Bool)
    → (desc (table t) f.ino).file ≡ some a
    → unless_occupied occupied
        (containing_dir f >>= λ dir. remove_from dir item f >>= λ empty.
          discard_item item f >>= λ discarded.
          purge_dir dir (empty && false) (λ d. fs_removeitem fuel d false))
        t
      ≡ done true s'
    → inoalloc s' ≡ fault aborted
removal-inoalloc t s' fuel item a f true y h = absurd (no h)
  where
    no : done false t ≡ done true s' → ⊥
    no e = cc
removal-inoalloc t s' fuel item a f false y h =
    let (dir, u, e, h1) = bind-done (containing_dir f t) _ true s' h in
    let (empty, v, e', h2) = bind-done (remove_from dir item f u) _ true s' h1 in
    let (b, w, e'', h3) = bind-done (discard_item item f v) _ true s' h2 in
    let same : v.ino_table ≡ t.ino_table =
      left_alone (remove_from-Leaves dir item f) u v empty e'
      ∙ left_alone (containing_dir-Leaves f) t u dir e in
    ap inoalloc (same_state true true w s' (sym (purge_dir-no dir empty _ w) ∙ h3))
    ∙ discard_item-inoalloc v w item a f b (ap (λ o. (desc (entries o) f.ino).file) same ∙ y) e''

-- Once an item whose inode holds its file has been removed, with no empty directory purged, the
-- next allocation of an inode aborts, whatever the file system holds.
pub inoalloc-fs_removeitem :
    (s s' : Fs) (fuel item a : ℕ) (f : FsFile)
    → get_or s.files item none ≡ some f
    → (desc (table s) f.ino).file ≡ some a
    → fs_removeitem fuel item false s ≡ done true s'
    → inoalloc s' ≡ fault aborted
unfolding fs_removeitem
inoalloc-fs_removeitem s s' zero item a f e y h = cc
inoalloc-fs_removeitem s s' (suc fuel) item a f e y h =
    let h0 = rw e at h in
    let (occupied, t, o, h1) = bind-done (is_occupied f s) _ true s' h0 in
    removal-inoalloc t s' fuel item a f occupied
      (ap (λ o. (desc (entries o) f.ino).file) (left_alone (is_occupied-Leaves f) s t occupied o)
        ∙ y)
      h1
