-- ===== src/Fs/Session/End.antt =====
-- fs.c: what has been started is cleaned up.
use yar.Base.{
  Bool-cases, inl, inr, not, ◌≡◌, refl, sym, ap, Bool, true, false, none, some, [], ◌∷◌, str_eq,
}
use yar.Kernel.{Str}
use yar.Fs.{is_null, Fs, done, assert, bind-done}
use yar.Fs.Inodes.{
  inofree, linked, inoalloc, ensure_inotable, init_inotable, take_free, ino2inodesc, inodesc2ino,
}
use yar.Fs.Items.{
  dir_add, find_ino, lookup_name, fs_createdir, fs_createfile, directory_at, fs_removeitem,
  is_occupied, containing_dir, remove_entry, hash_delete,
}
use yar.Fs.Session.{
  create_tree, yarfs_create, Answers, Session, mounted, fs_create, remove_tree, remove_files,
  fs_cleanup,
}
use yar.Fs.Session.Tree.{tree, zeroed_fs, fs_create-tree, no_start, create_tree-tree}

-- The file system with every item freed and no table.
abbrev pub cleaned_fs : Fs
cleaned_fs = record {
  ino_table = none;
  ino_freelist = none;
  ino_num = 0;
  ino_numfree = 0;
  files = none ∷ none ∷ none ∷ none ∷ none ∷ none ∷ [];
}

tree-made : is_null tree.ino_table ≡ false
unfolding remove_tree remove_files inofree fs_removeitem is_occupied containing_dir remove_entry
    hash_delete tree create_tree inoalloc ensure_inotable init_inotable take_free ino2inodesc
    inodesc2ino linked yarfs_create fs_createdir fs_createfile dir_add find_ino lookup_name
    directory_at str_eq
tree-made = refl

remove_tree-tree : remove_tree tree ≡ done tt cleaned_fs
unfolding remove_tree remove_files inofree fs_removeitem is_occupied containing_dir remove_entry
    hash_delete tree create_tree inoalloc ensure_inotable init_inotable take_free ino2inodesc
    inodesc2ino linked yarfs_create fs_createdir fs_createfile dir_add find_ino lookup_name
    directory_at str_eq
remove_tree-tree = refl

same_value : {A : Type 0} (a b : A) (x y : Fs) → done a x ≡ done b y → a ≡ b
same_value a b x y e = cc

second : Bool × Session → Session
second (b, x) = x

-- A session that has been started has the mount point that it was given, and has made it.
record Started (this this' : Session) : Type 0 where
  mntpt : this'.mntpt ≡ this.mntpt
  made : this'.made_dir ≡ true

mounted-Started :
    (w : Answers) (this this' : Session) (t s : Fs)
    → mounted w this t ≡ done (true, this') s
    → Started this this'
unfolding second
mounted-Started w this this' t s h = elim (Bool-cases w.mount) [
  | inl m ↦
      let (u, v, e, h1) =
        bind-done (assert (not (is_null w.session_fd)) t) _ (true, this') s (simp m at h) in
      let same : record this { made_dir = true; fuse_se = true; fuse_fd = w.session_fd } ≡ this' =
        ap second (same_value _ (true, this') v s h1) in
      record { mntpt = ap (λ x. x.mntpt) (sym same); made = ap (λ x. x.made_dir) (sym same) }
  | inr m ↦ absurd (no_start _ this' t s (simp m at h))
]

fs_create-Started :
    (w : Answers) (this this' : Session) (s : Fs)
    → fs_create w yarfs_create this zeroed_fs ≡ done (true, this') s
    → Started this this'
unfolding fs_create
fs_create-Started w this this' s h = elim (Bool-cases w.mkdir) [
  | inl m ↦
      let (u, t, e, h1) =
        bind-done (assert w.session_new tree) (λ x. mounted w this) (true, this') s
          (simp (m, create_tree-tree) at h) in
      mounted-Started w this this' t s h1
  | inr m ↦ absurd (no_start this this' zeroed_fs s (simp m at h))
]

-- Whatever the kernel answered, a file system that has been started with a mount point is
-- cleaned up without a failed assert or a use of freed memory: every item is freed, no inode
-- table is left, and the session has neither mount point nor libfuse session.
pub fs_cleanup-fs_create :
    (w : Answers) (this this' : Session) (s : Fs) (path : Str)
    → this.mntpt ≡ some path
    → fs_create w yarfs_create this zeroed_fs ≡ done (true, this') s
    → fs_cleanup this' s ≡ done (record this' { mntpt = none; fuse_se = false }) cleaned_fs
unfolding fs_cleanup
fs_cleanup-fs_create w this this' s path p h =
    let st = fs_create-Started w this this' s h in
    rw (fs_create-tree w this this' s h)
      (simp (st.mntpt, p, st.made) (rw (tree-made, remove_tree-tree) refl))
