-- ===== src/Fs.antt =====
-- fs.h, fs.c: the state of the file system, and how its code runs.
-- A file is known by its place in the heap `files`, which is `none` once it is freed; an inode by
-- its place in the table. A hash table of files is the list of the files in it, oldest first.
pub mod Inodes
pub mod Items
pub mod Calls
pub mod Session
use yar.Base.{
  ◌≡◌, refl, ℕ, ◌+◌, Bool, true, false, Option, none, some, List, [], ◌∷◌, ◌++◌, ltb, if◌then◌else◌,
  length, get_or, set,
}
use yar.Kernel.{Str}
use yar.Monad.{Halt, aborted, undefined}
use yar.Yarfs.{YarFile}

-- `fs_dir_ops`, or the operations of one of yar's files.
pub data FsFileops : Type 0 where
  no_ops fs_dir_ops : FsFileops
  yar_ops : YarFile → FsFileops

pub data FsFiletype : Type 0 where
  no_type regular symlink directory : FsFiletype

pub record FsDir : Type 0 where
  pub ino_files : List ℕ
  pub nm_files : List ℕ

-- `data`, a `void *`: null, the text of a symlink, or the tables of a directory.
pub data FsData : Type 0 where
  no_data : FsData
  link_data : Str → FsData
  dir_data : FsDir → FsData

pub record FsFile : Type 0 where
  pub ops : FsFileops
  pub contents : FsData
  pub name : Option Str
  pub ino : ℕ
  pub dir : ℕ
  pub type : FsFiletype

pub record Inodesc : Type 0 where
  pub file : Option ℕ
  pub next : Option ℕ

-- The parts of `fs_t` that hold the tree, the heap, and the replies sent, latest first.
pub record Fs : Type 0 where
  pub ino_table : Option (List Inodesc)
  pub ino_freelist : Option ℕ
  pub ino_num : ℕ
  pub ino_numfree : ℕ
  pub files : List (Option FsFile)

pub data FsRes (A : Type 0) : Type 0 where
  done : A → Fs → FsRes A
  fault : Halt → FsRes A

abbrev pub F : Type 0 → Type 0
F A = Fs → FsRes A

abbrev pub bind : {A B : Type 0} → FsRes A → (A → F B) → FsRes B
bind (done a s) f = f a s
bind (fault h) f = fault h

infixl 5 ◌>>=◌ ◌>>◌
abbrev pub ◌>>=◌ : {A B : Type 0} → F A → (A → F B) → F B
◌>>=◌ m f s = bind (m s) f

abbrev pub ◌>>◌ : {A B : Type 0} → F A → F B → F B
m >> k = m >>= λ _. k

abbrev pub pure : {A : Type 0} → A → F A
pure a s = done a s

abbrev pub assert : Bool → F (Unit {0})
assert true s = done tt s
assert false s = fault aborted

abbrev pub abort : {A : Type 0} → F A
abort s = fault aborted

abbrev pub get : F Fs
get s = done s s

abbrev pub put : Fs → F (Unit {0})
put s' s = done tt s'

-- A pointer that is followed without a test.
abbrev pub deref : {A : Type 0} → Option A → F A
deref none s = fault undefined
deref (some a) s = done a s

-- The file at a place of the heap; one that was freed is not to be looked at.
abbrev pub file_at : ℕ → F FsFile
file_at a s = deref (get_or s.files a none) s

abbrev pub set_file : ℕ → Option FsFile → F (Unit {0})
set_file a f s = done tt (record s { files = set s.files a f })

-- `malloc` of a file.
abbrev pub new_file : FsFile → F ℕ
new_file f s = done (length s.files) (record s { files = s.files ++ (some f ∷ []) })

abbrev pub no_inodesc : Inodesc
no_inodesc = record { file = none; next = none }

abbrev pub is_null {ℓ} : {A : Type ℓ} → Option A → Bool
is_null none = true
is_null (some a) = false

abbrev pub is_directory : FsFiletype → Bool
is_directory directory = true
is_directory _ = false

-- A run that comes to an end went through its first part.
pub bind-done :
    {A B : Type 0} (r : FsRes A) (f : A → F B) (b : B) (s' : Fs)
    → bind r f ≡ done b s'
    → (a : A) × (s : Fs) × (r ≡ done a s) × (f a s ≡ done b s')
bind-done (done a s) f b s' h = (a, s, refl, h)
bind-done (fault x) f b s' h = cc

-- A run ends in one state.
pub same_state : {A : Type 0} (a b : A) (x y : Fs) → done a x ≡ done b y → y ≡ x
same_state a b x y e = cc
