-- ===== src/Fs/Calls.antt =====
-- fs.c: the requests of the kernel, which libfuse passes on, and the replies to them.
-- `add_direntry` is libfuse's `fuse_add_direntry`: the bytes of an entry for a name, an inode and
-- an offset; its number of bytes depends on the name alone.
use yar.Base.{
  ℕ, ◌+◌, Bool, ◌&&◌, not, Option, none, some, List, [], ◌∷◌, ◌++◌, str_eq, if◌then◌else◌, length,
  codes,
}
use yar.Kernel.{Str}
use yar.State.{Globals}
use yar.Yarfs.{
  YarFile, pid_file, cmds_file, lcmds_file, ttys_file, bcst_file, pid_size, cmd_names_size,
  cmds_info_size, ttys_info_size, bcst_size, file_read, fs_fuse_reply_buf_limited,
}
use yar.Fs.{
  FsFile, FsFileops, no_ops, fs_dir_ops, yar_ops, F, ◌>>=◌, ◌>>◌, pure, assert, abort, get, deref,
  file_at, is_null, is_directory,
}
use yar.Fs.Inodes.{ino2inodesc, inodesc_at}
use yar.Fs.Items.{as_dir, lookup_name}

pub record Stat : Type 0 where
  pub st_ino : ℕ
  pub st_mode : ℕ
  pub st_nlink : ℕ
  pub st_size : ℕ

-- The error numbers that the code sends.
pub data Errno : Type 0 where
  no_error enoent eisdir eacces enotsup : Errno

pub data Reply : Type 0 where
  err_reply : Errno → Reply
  entry_reply : (ino : ℕ) → Stat → Reply
  attr_reply : Stat → Reply
  open_reply : Reply
  buf_reply : List ℕ → Reply

-- `S_IFREG | 0444` and `S_IFDIR | 0755`
abbrev pub file_mode : ℕ
file_mode = 33060

abbrev pub dir_mode : ℕ
dir_mode = 16877

-- `file->ops->stat`: the attributes are zero before. A directory's handler sets neither inode
-- nor size.
-- The attributes of a file that is read only and of the size given.
abbrev pub regular_stat : FsFile → Option ℕ → F Stat
regular_stat file size = deref size >>= λ n.
    pure (record { st_ino = file.ino; st_mode = file_mode; st_nlink = 1; st_size = n })

abbrev pub fs_pid_stat : Globals → FsFile → F Stat
fs_pid_stat g file = regular_stat file (pid_size g)

abbrev pub fs_cmds_stat : Globals → FsFile → F Stat
fs_cmds_stat g file = regular_stat file (cmd_names_size g.cmds)

abbrev pub fs_lcmds_stat : Globals → FsFile → F Stat
fs_lcmds_stat g file = regular_stat file (cmds_info_size g)

abbrev pub fs_ttys_stat : Globals → FsFile → F Stat
fs_ttys_stat g file = regular_stat file (ttys_info_size g)

abbrev pub fs_bcst_stat : Globals → FsFile → F Stat
fs_bcst_stat g file = regular_stat file (bcst_size g.bcsttty.link)

-- The `stat` of each table of operations of yarfs.c.
abbrev pub file_stat : YarFile → Globals → FsFile → F Stat
file_stat pid_file = fs_pid_stat
file_stat cmds_file = fs_cmds_stat
file_stat lcmds_file = fs_lcmds_stat
file_stat ttys_file = fs_ttys_stat
file_stat bcst_file = fs_bcst_stat

unfoldable pub ops_stat : Globals → FsFileops → FsFile → F Stat
ops_stat g no_ops file = deref none
ops_stat g fs_dir_ops file =
    pure (record { st_ino = 0; st_mode = dir_mode; st_nlink = 2; st_size = 0 })
ops_stat g (yar_ops f) file = file_stat f g file

abbrev pub reply_err : Errno → F Reply
reply_err e = pure (err_reply e)

abbrev pub reply_entry : Globals → Option ℕ → F Reply
reply_entry g none = reply_err enoent
reply_entry g (some a) =
    file_at a >>= λ file. ops_stat g file.ops file >>= λ attr. pure (entry_reply file.ino attr)

-- `did->next != NULL || did->file->type != DIRECTORY`, and the directory's file if not.
abbrev pub if_directory : ℕ → (FsFile → F Reply) → F Reply
if_directory ino m = ino2inodesc ino >>= λ id. inodesc_at id >>= λ d.
    if not (is_null d.next)
    then reply_err enoent
    else (deref d.file >>= λ a.
        file_at a >>= λ file. if is_directory file.type then m file else reply_err enoent)

unfoldable pub fs_fuse_lookup : Globals → (dirino : ℕ) → Str → F Reply
fs_fuse_lookup g dirino name = if_directory dirino λ dir. deref (as_dir dir.contents) >>= λ dd.
    get >>= λ s. reply_entry g (lookup_name s.files dd.nm_files name)

unfoldable pub fs_fuse_getattr : Globals → (ino : ℕ) → F Reply
fs_fuse_getattr g ino = ino2inodesc ino >>= λ id. inodesc_at id >>= λ d.
    if not (is_null d.next)
    then reply_err enoent
    else (assert (not (is_null d.file)) >> deref d.file >>= λ a.
        file_at a >>= λ file. ops_stat g file.ops file >>= λ attr. pure (attr_reply attr))

-- `assert(id->file != NULL && id->next == NULL)`
abbrev pub used_file : ℕ → F FsFile
used_file ino = ino2inodesc ino >>= λ id. inodesc_at id >>= λ d.
    assert (not (is_null d.file) && is_null d.next) >> deref d.file >>= λ a. file_at a

-- No table of operations has an `open`; `readonly` says that `fi->flags` ask for reading alone.
unfoldable pub fs_fuse_open : (ino : ℕ) → (readonly : Bool) → F Reply
fs_fuse_open ino readonly = used_file ino >>= λ file.
    if is_directory file.type
    then reply_err eisdir
    else if readonly
    then pure open_reply
    else reply_err eacces

-- `assert(file->ops->read)`: a directory has none.
abbrev pub ops_read : Globals → FsFileops → (size off : ℕ) → F Reply
ops_read g no_ops size off = deref none
ops_read g fs_dir_ops size off = abort
ops_read g (yar_ops f) size off = deref (file_read f g size off) >>= λ buf. pure (buf_reply buf)

unfoldable pub fs_fuse_read : Globals → (ino size off : ℕ) → F Reply
fs_fuse_read g ino size off = used_file ino >>= λ file. ops_read g file.ops size off

-- The items of a directory, with their names and inodes.
abbrev pub item_list : List ℕ → F (List (Str × ℕ))
item_list [] = pure []
item_list (a ∷ bs) = file_at a >>= λ file.
    deref file.name >>= λ name. item_list bs >>= λ rest. pure ((name, file.ino) ∷ rest)

module _ (add_direntry : Str → ℕ → ℕ → List ℕ) where
  -- `dirbuf_add`: an entry has the offset of the one behind it.
  unfoldable pub dirbuf_add : List ℕ → Str → ℕ → List ℕ
  dirbuf_add b name ino = b ++ add_direntry name ino (length b + length (add_direntry name 0 0))

  unfoldable pub dirbuf_adds : List ℕ → List (Str × ℕ) → List ℕ
  dirbuf_adds b [] = b
  dirbuf_adds b ((name, ino) ∷ rest) = dirbuf_adds (dirbuf_add b name ino) rest

  unfoldable pub fs_dir_readdir : FsFile → (size off : ℕ) → F Reply
  fs_dir_readdir dir size off = deref (as_dir dir.contents) >>= λ dd.
      item_list dd.ino_files >>= λ items.
      let b = dirbuf_adds [] ((codes ".", dir.ino) ∷ (codes "..", dir.dir) ∷ items) in
      pure (buf_reply (fs_fuse_reply_buf_limited b (length b) off size))

  abbrev pub ops_readdir : FsFileops → FsFile → (size off : ℕ) → F Reply
  ops_readdir no_ops dir size off = deref none
  ops_readdir fs_dir_ops dir size off = fs_dir_readdir dir size off
  ops_readdir (yar_ops f) dir size off = abort

  unfoldable pub fs_fuse_readdir : (dirino size off : ℕ) → F Reply
  fs_fuse_readdir dirino size off = if_directory dirino λ dir. ops_readdir dir.ops dir size off

-- The attributes of the example that the code was made from. `strncmp` with equal sizes.
unfoldable pub fs_fuse_setxattr : (ino : ℕ) → (name value : Str) → F Reply
fs_fuse_setxattr ino name value = used_file ino >>= λ file.
    if str_eq name (codes "fs_ll_setxattr_name") && str_eq value (codes "fs_ll_setxattr_value")
    then reply_err no_error
    else reply_err enotsup

unfoldable pub fs_fuse_getxattr : (ino : ℕ) → (name : Str) → F Reply
fs_fuse_getxattr ino name = used_file ino >>= λ file.
    if str_eq name (codes "fs_ll_getxattr_name")
    then pure (buf_reply (codes "fs_ll_getxattr_value"))
    else reply_err enotsup

unfoldable pub fs_fuse_removexattr : (ino : ℕ) → (name : Str) → F Reply
fs_fuse_removexattr ino name = used_file ino >>= λ file.
    if str_eq name (codes "fs_ll_removexattr_name") then reply_err no_error else reply_err enotsup
