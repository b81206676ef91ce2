-- ===== src/Fs/Session/Tree.antt =====
-- fs.c, yarfs.c: the files that yar shows are found under their names and read.
use yar.Base.{
  Bool-cases, inl, inr, subst, not, ℕ, ◌≡◌, refl, sym, ◌∙◌, Bool, true, false, none, some, List, [],
  str_eq, length,
}
use yar.Kernel.{Str}
use yar.State.{Globals}
use yar.Yarfs.{
  YarFile, pid_file, cmds_file, lcmds_file, ttys_file, bcst_file, file_size, file_read,
  file_content, fs_fuse_reply_buf_limited,
}
use yar.Yarfs.Content.{file_size-file_content}
use yar.Yarfs.Reading.{file_read-content}
use yar.Fs.{is_null, Fs, FsRes, done, fault, assert, ◌>>◌, bind-done, same_state}
use yar.Fs.Inodes.{
  linked, inoalloc, ensure_inotable, init_inotable, take_free, ino2inodesc, inodesc2ino,
}
use yar.Fs.Items.{
  root_ino, dir_add, find_ino, lookup_name, fs_createdir, fs_createfile, directory_at,
}
use yar.Fs.Calls.{
  Stat, file_mode, fs_fuse_lookup, fs_fuse_read, ops_stat, entry_reply, buf_reply, err_reply,
  enoent,
}
use yar.Fs.Session.{create_tree, yarfs_create, file_name, Answers, Session, mounted, fs_create}

-- `fs_t` before the start.
abbrev pub zeroed_fs : Fs
zeroed_fs = record {
  ino_table = none;
  ino_freelist = none;
  ino_num = 0;
  ino_numfree = 0;
  files = [];
}

abbrev pub state_of : FsRes (Unit {0}) → Fs
state_of (done u s) = s
state_of (fault h) = zeroed_fs

-- What the start makes: the five files in the root directory.
unfoldable pub tree : Fs
unfolding create_tree inoalloc ensure_inotable init_inotable take_free ino2inodesc inodesc2ino
    linked yarfs_create fs_createdir fs_createfile dir_add find_ino lookup_name directory_at str_eq
tree = state_of (create_tree yarfs_create zeroed_fs)

pub create_tree-tree : create_tree yarfs_create zeroed_fs ≡ done tt tree
unfolding tree create_tree inoalloc ensure_inotable init_inotable take_free ino2inodesc inodesc2ino
    linked yarfs_create fs_createdir fs_createfile dir_add find_ino lookup_name directory_at str_eq
create_tree-tree = refl

pub no_start :
    (a b : Session) (s t : Fs)
    → ◌≡◌ {A = FsRes (Bool × Session)} (done (false, a) s) (done (true, b) t)
    → ⊥
no_start a b s t e = cc

assert-same : (b : Bool) (u : Unit {0}) (s t : Fs) → assert b s ≡ done u t → t ≡ s
assert-same true u s t h = same_state tt u s t h
assert-same false u s t h = cc

mounted-same :
    (w : Answers) (this this' : Session) (t s : Fs)
    → mounted w this t ≡ done (true, this') s
    → s ≡ t
mounted-same w this this' t s h = elim (Bool-cases w.mount) [
  | inl m ↦
      let (u, v, e, h1) =
        bind-done (assert (not (is_null w.session_fd)) t) _ (true, this') s (simp m at h) in
      same_state _ (true, this') v s h1 ∙ assert-same (not (is_null w.session_fd)) u t v e
  | inr m ↦ absurd (no_start _ this' t s (simp m at h))
]

mounted-tree :
    (w : Answers) (this this' : Session) (s : Fs)
    → (assert w.session_new >> mounted w this) tree ≡ done (true, this') s
    → s ≡ tree
mounted-tree w this this' s h =
    let (u, t, e, h1) =
      bind-done (assert w.session_new tree) (λ x. mounted w this) (true, this') s h in
    mounted-same w this this' t s h1 ∙ assert-same w.session_new u tree t e

pub fs_create-tree :
    (w : Answers) (this this' : Session) (s : Fs)
    → fs_create w yarfs_create this zeroed_fs ≡ done (true, this') s
    → s ≡ tree
unfolding fs_create
fs_create-tree w this this' s h = elim (Bool-cases w.mkdir) [
  | inl m ↦ mounted-tree w this this' s (simp (m, create_tree-tree) at h)
  | inr m ↦ absurd (no_start this this' zeroed_fs s (simp m at h))
]

abbrev pub file_ino : YarFile → ℕ
file_ino pid_file = 2
file_ino cmds_file = 3
file_ino lcmds_file = 4
file_ino ttys_file = 5
file_ino bcst_file = 6

abbrev pub attributes : ℕ → ℕ → Stat
attributes ino size = record { st_ino = ino; st_mode = file_mode; st_nlink = 1; st_size = size }

lookup-tree :
    (f : YarFile) (g : Globals) (n : ℕ)
    → file_size f g ≡ some n
    → fs_fuse_lookup g root_ino (file_name f) tree
      ≡ done (entry_reply (file_ino f) (attributes (file_ino f) n)) tree
unfolding file_size fs_fuse_lookup ops_stat tree create_tree inoalloc ensure_inotable init_inotable
    take_free ino2inodesc inodesc2ino linked yarfs_create fs_createdir fs_createfile dir_add
    find_ino lookup_name directory_at str_eq
lookup-tree pid_file g n h = rw h refl
lookup-tree cmds_file g n h = rw h refl
lookup-tree lcmds_file g n h = rw h refl
lookup-tree ttys_file g n h = rw h refl
lookup-tree bcst_file g n h = rw h refl

read-tree :
    (f : YarFile) (g : Globals) (size off : ℕ) (bytes : List ℕ)
    → file_read f g size off ≡ some bytes
    → fs_fuse_read g (file_ino f) size off tree ≡ done (buf_reply bytes) tree
unfolding fs_fuse_read tree create_tree inoalloc ensure_inotable init_inotable take_free ino2inodesc
    inodesc2ino linked yarfs_create fs_createdir fs_createfile dir_add find_ino lookup_name
    directory_at str_eq
read-tree pid_file g size off bytes h = rw h refl
read-tree cmds_file g size off bytes h = rw h refl
read-tree lcmds_file g size off bytes h = rw h refl
read-tree ttys_file g size off bytes h = rw h refl
read-tree bcst_file g size off bytes h = rw h refl

-- Once the file system has been started, each of yar's files that can be read is found under its
-- name in the root directory, with the size of its contents and as a file that is read only, and
-- a read of the inode found sends the part of the contents that is asked for.
pub fs_create-serves :
    (w : Answers) (this this' : Session) (s : Fs) (f : YarFile) (g : Globals) (t : Str)
    (size off : ℕ)
    → fs_create w yarfs_create this zeroed_fs ≡ done (true, this') s
    → file_content f g ≡ some t
    → (fs_fuse_lookup g root_ino (file_name f) s
        ≡ done (entry_reply (file_ino f) (attributes (file_ino f) (length t))) s)
      × (fs_fuse_read g (file_ino f) size off s
          ≡ done (buf_reply (fs_fuse_reply_buf_limited t (length t) off size)) s)
fs_create-serves w this this' s f g t size off h c =
    let e : tree ≡ s = sym (fs_create-tree w this this' s h) in
    (
      subst
          (λ x.
            fs_fuse_lookup g root_ino (file_name f) x
            ≡ done (entry_reply (file_ino f) (attributes (file_ino f) (length t))) x)
          e (lookup-tree f g (length t) (file_size-file_content f g t c)),
      subst
          (λ x.
            fs_fuse_read g (file_ino f) size off x
            ≡ done (buf_reply (fs_fuse_reply_buf_limited t (length t) off size)) x)
          e (read-tree f g size off _ (file_read-content f g t size off c)),
    )

lookup-tree_other :
    (g : Globals) (name : Str)
    → ((f : YarFile) → str_eq (file_name f) name ≡ false)
    → fs_fuse_lookup g root_ino name tree ≡ done (err_reply enoent) tree
unfolding fs_fuse_lookup tree create_tree inoalloc ensure_inotable init_inotable take_free
    ino2inodesc inodesc2ino linked yarfs_create fs_createdir fs_createfile dir_add find_ino
    lookup_name directory_at
lookup-tree_other g name h =
    rw (h pid_file, h cmds_file, h lcmds_file, h ttys_file, h bcst_file) refl

-- Once the file system has been started, a name that none of yar's files has is not found.
fs_create-hides :
    (w : Answers) (this this' : Session) (s : Fs) (g : Globals) (name : Str)
    → fs_create w yarfs_create this zeroed_fs ≡ done (true, this') s
    → ((f : YarFile) → str_eq (file_name f) name ≡ false)
    → fs_fuse_lookup g root_ino name s ≡ done (err_reply enoent) s
fs_create-hides w this this' s g name h n =
    subst (λ x. fs_fuse_lookup g root_ino name x ≡ done (err_reply enoent) x)
      (sym (fs_create-tree w this this' s h)) (lookup-tree_other g name n)
