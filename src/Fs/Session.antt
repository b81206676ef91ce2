-- ===== src/Fs/Session.antt =====
-- fs.c, yarfs.c: the file system from its start to its end. What the kernel and libfuse answer is
-- in `Answers`; the arguments for libfuse, the event descriptor with the assertion on it, and the
-- calls whose results are not looked at (unmount, destroy, rmdir, fcntl) are not followed.
pub mod Tree
pub mod End
use yar.Base.{
  ℕ, zero, suc, ◌+◌, ◌-◌, Bool, true, false, ◌&&◌, not, Option, none, some, List, [], ◌∷◌, ◌++◌,
  ltb, leb, ◌==◌, if◌then◌else◌, length, codes, decimal,
}
use yar.Kernel.{Str, Fd}
use yar.Yarfs.{YarFile, pid_file, cmds_file, lcmds_file, ttys_file, bcst_file}
use yar.Fs.{
  Fs, fs_dir_ops, yar_ops, FsRes, done, fault, F, bind, ◌>>=◌, ◌>>◌, pure, assert, get, put,
  file_at, is_null,
}
use yar.Fs.Inodes.{inoalloc, inofree, inodesc_at}
use yar.Fs.Items.{fs_createdir, fs_createfile, fs_removeitem, invalid_ino, root_ino}

-- Whether `mkdir` and `fuse_session_mount` succeed, whether `fuse_session_new` gives a session,
-- and the result of `fuse_session_fd`.
pub record Answers : Type 0 where
  pub mkdir : Bool
  pub session_new : Bool
  pub mount : Bool
  pub session_fd : Fd

-- The parts of `fs_t` that are not in `Fs`.
pub record Session : Type 0 where
  pub mntpt : Option Str
  pub made_dir : Bool
  pub fuse_se : Bool
  pub fuse_fd : Fd

abbrev pub path_max : ℕ
path_max = 4096

-- `none` where `snprintf` does not fit into the `n` bytes and the result is false.
unfoldable pub fs_mount_point : (n pid : ℕ) → (dir : Option Str) → Option Str
fs_mount_point n pid none =
    let path = decimal pid ++ codes ".fs" in if leb n (length path) then none else some path
fs_mount_point n pid (some dir) =
    let path = dir ++ (codes "/" ++ (decimal pid ++ codes ".fs")) in
    if leb n (length path) then none else some path

abbrev pub file_name : YarFile → Str
file_name pid_file = codes "pid"
file_name cmds_file = codes "cmds"
file_name lcmds_file = codes "lcmds"
file_name ttys_file = codes "ttys"
file_name bcst_file = codes "bcst"

abbrev pub create_yar_file : ℕ → YarFile → F (Unit {0})
create_yar_file rootino f = fs_createfile rootino (file_name f) none (yar_ops f) >>= λ item. pure tt

unfoldable pub yarfs_create : ℕ → F (Unit {0})
yarfs_create rootino =
    create_yar_file rootino pid_file
    >> create_yar_file rootino cmds_file
    >> create_yar_file rootino lcmds_file
    >> create_yar_file rootino ttys_file
    >> create_yar_file rootino bcst_file

-- The inode that is reserved as invalid, the root, and what `createfsfunc` makes below it.
unfoldable pub create_tree : (ℕ → F (Unit {0})) → F (Unit {0})
create_tree createfsfunc = inoalloc >>= λ ino.
    assert (ino == invalid_ino) >> fs_createdir invalid_ino (codes ".") fs_dir_ops >>= λ root.
    file_at root >>= λ f. assert (f.ino == root_ino) >> createfsfunc f.ino

abbrev pub mounted : Answers → Session → F (Bool × Session)
mounted w this =
    if w.mount
    then (assert (not (is_null w.session_fd))
        >> pure (true, record this { made_dir = true; fuse_se = true; fuse_fd = w.session_fd }))
    else pure (false, record this { made_dir = true; fuse_se = true })

unfoldable pub fs_create : Answers → (ℕ → F (Unit {0})) → Session → F (Bool × Session)
fs_create w createfsfunc this =
    if w.mkdir
    then (create_tree createfsfunc >> assert w.session_new >> mounted w this)
    else pure (false, this)

abbrev pub remove_file : (fuel : ℕ) → Option ℕ → (next : Option ℕ) → F ℕ
remove_file fuel none next = pure 0
remove_file fuel (some file) next =
    assert (is_null next) >> fs_removeitem fuel file true >>= λ removed. pure 1

-- The scan of the table from `i` on: how many of the `n` descriptors had a file.
unfoldable pub remove_files : (fuel n i : ℕ) → F ℕ
remove_files fuel zero i = pure 0
remove_files fuel (suc n) i = inodesc_at i >>= λ d. remove_file fuel d.file d.next >>= λ here.
    remove_files fuel n (i + 1) >>= λ behind. pure (here + behind)

-- The climb from an emptied directory to its parent removes an item each time: there are fewer
-- of them than inodes.
unfoldable pub remove_tree : F (Unit {0})
remove_tree = get >>= λ s.
    let allocated = s.ino_num - s.ino_numfree in
    assert (not (s.ino_num == 0)) >> remove_files s.ino_num s.ino_num 0 >>= λ removed.
    inofree invalid_ino >>= λ freed. assert (removed + 1 == allocated) >> get >>= λ s.
    assert (s.ino_num == s.ino_numfree)
    >> put (record s { ino_table = none; ino_num = 0; ino_freelist = none; ino_numfree = 0 })

-- `this->ino_table` is tested, then the tree is removed.
unfoldable pub fs_cleanup : Session → F Session
fs_cleanup this =
    if not (is_null this.mntpt) && this.made_dir
    then (get >>= λ s.
        (if is_null s.ino_table then pure tt else remove_tree)
        >> pure (record this { mntpt = none; fuse_se = false }))
    else pure this
