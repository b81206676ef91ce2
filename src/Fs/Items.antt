-- ===== src/Fs/Items.antt =====
-- fs.c: files and directories, made and removed. Memory is there when `malloc` or `strdup` asks
-- for it, and every item is one that `malloc` gave, as all of them are in yar.
pub mod Entries
pub mod Reuse
use yar.Base.{
  ℕ, zero, suc, ◌+◌, ◌≡◌, Bool, true, false, ◌&&◌, not, ◌||◌, Option, none, some, List, [], ◌∷◌,
  ◌++◌, ltb, ◌==◌, str_eq, if◌then◌else◌, length, get_or,
}
use yar.Kernel.{Str}
use yar.Monad.{aborted, out_of_fuel}
use yar.Fs.{
  Fs, FsFile, FsFileops, no_ops, FsFiletype, no_type, regular, symlink, directory, FsDir, FsData,
  no_data, link_data, dir_data, Inodesc, FsRes, done, fault, F, bind, ◌>>=◌, ◌>>◌, pure, assert,
  get, deref, file_at, set_file, new_file, is_null, is_directory,
}
use yar.Fs.Inodes.{ino2inodesc, inodesc_at, set_inodesc, inoalloc, inofree}

abbrev pub invalid_ino : ℕ
invalid_ino = 0

abbrev pub root_ino : ℕ
root_ino = 1

abbrev pub found : {A : Type 0} → Bool → A → Option A → Option A
found true a rest = some a
found false a rest = rest

-- `HASH_FIND(hh_ino, ...)` and `HASH_FIND(hh_name, ...)`: the keys stand in the files.
abbrev pub has_ino : Option FsFile → ℕ → Bool
has_ino none ino = false
has_ino (some f) ino = f.ino == ino

abbrev pub is_named : Option Str → Str → Bool
is_named none name = false
is_named (some s) name = str_eq s name

abbrev pub bears_name : Option FsFile → Str → Bool
bears_name none name = false
bears_name (some f) name = is_named f.name name

unfoldable pub find_ino : List (Option FsFile) → List ℕ → ℕ → Option ℕ
find_ino files [] ino = none
find_ino files (a ∷ bs) ino = found (has_ino (get_or files a none) ino) a (find_ino files bs ino)

unfoldable pub lookup_name : List (Option FsFile) → List ℕ → Str → Option ℕ
lookup_name files [] name = none
lookup_name files (a ∷ bs) name =
    found (bears_name (get_or files a none) name) a (lookup_name files bs name)

-- `HASH_DELETE`
unfoldable pub hash_delete : ℕ → List ℕ → List ℕ
hash_delete a [] = []
hash_delete a (b ∷ bs) = let rest = hash_delete a bs in if a == b then bs else b ∷ rest

-- The data of a directory, which the code takes for an `fs_dir_t`.
abbrev pub as_dir : FsData → Option FsDir
as_dir (dir_data d) = some d
as_dir _ = none

abbrev pub has_data : FsData → Bool
has_data no_data = false
has_data _ = true

abbrev pub set_dir : ℕ → FsFile → FsDir → F (Unit {0})
set_dir a f d = set_file a (some (record f { contents = dir_data d }))

abbrev pub add_entry : (dir : ℕ) → FsFile → FsDir → (item : ℕ) → F Bool
add_entry dir df dd item =
    set_dir dir df
      (record { ino_files = dd.ino_files ++ (item ∷ []); nm_files = dd.nm_files ++ (item ∷ []) })
    >> pure true

-- The name is looked up once the inode is known to be new.
abbrev pub if_absent : Option ℕ → F Bool → F Bool
if_absent none m = m
if_absent (some a) m = pure false

abbrev pub named : Option Str → (Str → F Bool) → F Bool
named none m = pure false
named (some name) m = m name

unfoldable pub dir_add : (dir item : ℕ) → F Bool
dir_add dir item = file_at dir >>= λ df.
    assert (is_directory df.type && has_data df.contents) >> deref (as_dir df.contents) >>= λ dd.
    file_at item >>= λ f. get >>= λ s. named f.name λ name.
      if_absent (find_ino s.files dd.ino_files f.ino)
        (if_absent (lookup_name s.files dd.nm_files name) (add_entry dir df dd item))

-- `&& did->next == NULL && did->file->type == DIRECTORY`: the file of a directory's inode.
unfoldable pub directory_at : ℕ → F ℕ
directory_at ino = ino2inodesc ino >>= λ id. inodesc_at id >>= λ d.
    assert (is_null d.next) >> deref d.file >>= λ a.
    file_at a >>= λ f. assert (is_directory f.type) >> pure a

abbrev pub new_inode : F ℕ
new_inode = inoalloc >>= λ ino. ino2inodesc ino >>= λ id.
    inodesc_at id >>= λ d. assert (is_null d.file && is_null d.next) >> pure id

-- `id->file = file`
abbrev pub set_ino_file : ℕ → ℕ → F (Unit {0})
set_ino_file id a = inodesc_at id >>= λ d. set_inodesc id (record d { file = some a })

-- What becomes of the result of `dir_add`: nothing.
abbrev pub add_to : Option ℕ → ℕ → F (Unit {0})
add_to none item = pure tt
add_to (some dir) item = dir_add dir item >>= λ added. pure tt

abbrev pub parent_at : ℕ → F (Option ℕ)
parent_at ino = if ino == invalid_ino then pure none else (directory_at ino >>= λ a. pure (some a))

unfoldable pub fs_createdir : (parentino : ℕ) → Str → FsFileops → F ℕ
fs_createdir parentino name ops = new_inode >>= λ ino. parent_at parentino >>= λ parent.
    new_file (record {
      ops = ops;
      contents = dir_data (record { ino_files = []; nm_files = [] });
      name = some name;
      ino = ino;
      dir = parentino;
      type = directory;
    })
    >>= λ dir. add_to parent dir >> set_ino_file ino dir >> pure dir

abbrev pub link_type : Option Str → FsFiletype
link_type none = regular
link_type (some target) = symlink

abbrev pub link_contents : Option Str → FsData
link_contents none = no_data
link_contents (some target) = link_data target

unfoldable pub fs_createfile : (dirino : ℕ) → Str → (target : Option Str) → FsFileops → F ℕ
fs_createfile dirino name target ops = new_inode >>= λ ino.
    assert (not (dirino == invalid_ino)) >> directory_at dirino >>= λ dir.
    new_file (record {
      ops = ops;
      contents = link_contents target;
      name = some name;
      ino = ino;
      dir = dirino;
      type = link_type target;
    })
    >>= λ file. add_to (some dir) file >> set_ino_file ino file >> pure file

-- The directory that an item stands in: `none` for the root.
unfoldable pub containing_dir : FsFile → F (Option ℕ)
containing_dir item =
    if is_directory item.type && (item.ino == root_ino)
    then (assert (item.dir == invalid_ino) >> pure none)
    else (assert
          (is_directory item.type || (not (item.ino == root_ino) && not (item.dir == invalid_ino)))
        >> ino2inodesc item.dir
        >>= λ id. inodesc_at id >>= λ d.
            assert (is_null d.next && not (is_null d.file)) >> deref d.file >>= λ a.
            file_at a >>= λ f. assert (is_directory f.type) >> pure (some a))

abbrev pub is_item : Option ℕ → ℕ → Bool
is_item none item = false
is_item (some a) item = a == item

-- Takes an item out of the tables of its directory, and tells whether they are empty then.
unfoldable pub remove_entry : (dir item : ℕ) → FsFile → F Bool
remove_entry dir item f = file_at dir >>= λ df. deref (as_dir df.contents) >>= λ dd.
    assert (length dd.ino_files == length dd.nm_files)
    >> assert (ltb 0 (length dd.ino_files))
    >> get
    >>= λ s. assert (is_item (find_ino s.files dd.ino_files f.ino) item) >> deref f.name >>= λ name.
        assert (is_item (lookup_name s.files dd.nm_files name) item)
        >> let inos = hash_delete item dd.ino_files in
          let names = hash_delete item dd.nm_files in
          set_dir dir df (record { ino_files = inos; nm_files = names })
          >> assert (length inos == length names)
          >> pure (length inos == 0)

abbrev pub remove_from : Option ℕ → (item : ℕ) → FsFile → F Bool
remove_from none item f = pure false
remove_from (some dir) item f = remove_entry dir item f

-- A directory that is not empty is left alone.
unfoldable pub is_occupied : FsFile → F Bool
is_occupied f =
    if is_directory f.type
    then (deref (as_dir f.contents) >>= λ dd.
        assert (length dd.ino_files == length dd.nm_files) >> pure (not (length dd.ino_files == 0)))
    else pure false

-- The item's inode is put back and the item is freed.
abbrev pub discard_item : (item : ℕ) → FsFile → F Bool
discard_item item f = inofree f.ino >>= λ freed. set_file item none >> pure true

-- `if (containingdir && containingdirempty && purgeemptydir)`
abbrev pub purge_dir : Option ℕ → Bool → (ℕ → F Bool) → F Bool
purge_dir none empty remove = pure true
purge_dir (some dir) false remove = pure true
purge_dir (some dir) true remove = remove dir >>= λ removed. pure true

abbrev pub unless_occupied : Bool → F Bool → F Bool
unless_occupied true m = pure false
unless_occupied false m = m

-- The recursion climbs from directory to directory; `fuel` bounds how far.
unfoldable pub fs_removeitem : (fuel item : ℕ) → (purgeemptydir : Bool) → F Bool
fs_removeitem zero item purge s = fault out_of_fuel
fs_removeitem (suc fuel) item purge s =
    (file_at item >>= λ f. is_occupied f >>= λ occupied. unless_occupied occupied (
        containing_dir f >>= λ dir. remove_from dir item f >>= λ empty.
        discard_item item f >>= λ discarded.
        purge_dir dir (empty && purge) (λ d. fs_removeitem fuel d purge)))
      s
