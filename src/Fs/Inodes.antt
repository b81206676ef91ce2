-- ===== src/Fs/Inodes.antt =====
-- fs.c: the table of inodes and its free list.
pub mod Stack
pub mod Init
use yar.Base.{
  ℕ, zero, suc, ◌+◌, ◌-◌, ◌≡◌, Bool, true, false, ◌&&◌, Option, none, some, List, [], ◌∷◌, ◌++◌,
  ltb, ◌==◌, if◌then◌else◌, length, get_or, set,
}
use yar.Monad.{aborted}
use yar.Fs.{
  Fs, Inodesc, FsRes, done, fault, F, bind, ◌>>=◌, ◌>>◌, pure, assert, abort, get, put, deref,
  no_inodesc, is_null,
}

-- An inode descriptor is at its place of the table: `ino2inodesc` and `inodesc2ino` change
-- nothing, and both assert that the place is in the table.
unfoldable pub ino2inodesc : ℕ → F ℕ
ino2inodesc ino = get >>= λ s. assert (ltb ino s.ino_num) >> pure ino

unfoldable pub inodesc2ino : ℕ → F ℕ
inodesc2ino id = get >>= λ s. assert (ltb id s.ino_num) >> pure id

abbrev pub entries : Option (List Inodesc) → List Inodesc
entries none = []
entries (some t) = t

abbrev pub table : Fs → List Inodesc
table s = entries s.ino_table

-- `*id`
abbrev pub inodesc_at : ℕ → F Inodesc
inodesc_at id s = done (get_or (table s) id no_inodesc) s

abbrev pub set_inodesc : ℕ → Inodesc → F (Unit {0})
set_inodesc id d s = done tt (record s { ino_table = some (set (table s) id d) })

-- The descriptors from `i` on, `n` of them before the last: each one leads to the next.
unfoldable pub linked : (i n : ℕ) → List Inodesc
linked i zero = no_inodesc ∷ []
linked i (suc n) = record { file = none; next = some (i + 1) } ∷ linked (i + 1) n

-- 4096 bytes hold 256 descriptors of two pointers.
unfoldable pub init_inotable : F (Unit {0})
init_inotable = get >>= λ s.
    assert (is_null s.ino_table && (s.ino_num == 0))
    >> put (record s {
      ino_table = some (linked 0 255);
      ino_num = 256;
      ino_freelist = some 0;
      ino_numfree = 256;
    })

-- `if (this->ino_table == NULL) init_inotable(this);`
unfoldable pub ensure_inotable : F (Unit {0})
ensure_inotable s = if is_null s.ino_table then init_inotable s else done tt s

-- `grow_inotable` is not yet implemented: it aborts.
abbrev pub grow_inotable : {A : Type 0} → F A
grow_inotable = abort

unfoldable pub take_free : Option ℕ → F ℕ
take_free none = get >>= λ s. assert (s.ino_numfree == 0) >> grow_inotable
take_free (some id) = inodesc_at id >>= λ d. get >>= λ s.
    put (record s { ino_freelist = d.next })
    >> set_inodesc id (record d { next = none })
    >> get
    >>= λ s.
        assert (ltb 0 s.ino_numfree)
        >> put (record s { ino_numfree = s.ino_numfree - 1 })
        >> assert (is_null d.file)
        >> inodesc2ino id

unfoldable pub inoalloc : F ℕ
inoalloc = ensure_inotable >> get >>= λ s. take_free s.ino_freelist

unfoldable pub inofree : ℕ → F Bool
inofree ino = ino2inodesc ino >>= λ id. inodesc_at id >>= λ d.
    assert (is_null d.next) >> get >>= λ s.
    set_inodesc id (record d { next = s.ino_freelist }) >> get >>= λ s.
    put (record s { ino_freelist = some id; ino_numfree = s.ino_numfree + 1 }) >> pure true
