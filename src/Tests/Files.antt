-- ===== src/Tests/Files.antt =====
-- The theorems on the file system and the dumps (fs.c, yarfs.c, hexdump.c) at concrete values.
use yar.Base.{
  List, ℕ, ◌≡◌, refl, true, false, some, none, [], ◌∷◌, arith, codes, str_eq, decimal, decimal_from,
}
use yar.Monad.{aborted}
use yar.State.{Globals, Cmd}
use yar.Yarfs.{lcmds_file, ttys_file, file_size, file_content, fs_fuse_reply_buf_limited}
use yar.Yarfs.Content.{file_content-listing, file_size-file_content}
use yar.Yarfs.Writers.{listing}
use yar.Yarfs.Reading.{read_on, read_on-file_content}
use yar.Fs.{
  Fs, FsFile, fs_dir_ops, no_ops, dir_data, no_data, regular, directory, no_inodesc, done, fault,
}
use yar.Fs.Inodes.{inoalloc, inofree, ino2inodesc}
use yar.Fs.Inodes.Stack.{FreeList, Alloc, inoalloc-pops, inofree-pushes, freed}
use yar.Fs.Items.{
  lookup_name, find_ino, fs_removeitem, is_occupied, containing_dir, remove_entry, hash_delete,
  root_ino,
}
use yar.Fs.Items.Entries.{Addition, dir_add-Addition}
use yar.Fs.Items.Reuse.{inoalloc-fs_removeitem}
use yar.Fs.Calls.{fs_fuse_lookup, fs_fuse_read, entry_reply, buf_reply}
use yar.Fs.Session.{Answers, Session, fs_create, fs_cleanup, yarfs_create}
use yar.Fs.Session.Tree.{zeroed_fs, tree, attributes, fs_create-serves, create_tree-tree}
use yar.Fs.Session.End.{cleaned_fs, fs_cleanup-fs_create}
use yar.Hexdump.{hexdump}
use yar.Hexdump.RoundTrip.{read_dump, read_dump-hexdump}
use yar.Tests.{quiet, talker, open_tty}

read_dump-hexdump_example :
    (text : List ℕ) × (hexdump 4096 (codes "hello\n") ≡ some text)
    × (read_dump text ≡ codes "hello\n")
read_dump-hexdump_example =
    read_dump-hexdump 4096 (codes "hello\n")
      (
        (omega arith),
        ((omega arith), ((omega arith), ((omega arith), ((omega arith), ((omega arith), tt))))),
      )
      (omega arith)

abbrev shown_cmd : Cmd
shown_cmd = record talker { name = some (codes "c") }

-- One command, named c, with clients behind links named l.
abbrev shown : Globals
shown = record quiet { cmds = shown_cmd ∷ []; mon = record quiet.mon { tty = open_tty 9 } }

long_list : file_content lcmds_file shown ≡ some (codes "c,l,1,x\n")
unfolding decimal decimal_from
long_list = file_content-listing lcmds_file shown

file_content-listing_example : file_content ttys_file shown ≡ listing ttys_file shown
file_content-listing_example = file_content-listing ttys_file shown

file_size-file_content_example : file_size lcmds_file shown ≡ some 8
file_size-file_content_example =
    file_size-file_content lcmds_file shown (codes "c,l,1,x\n") long_list

read_on-file_content_example : read_on lcmds_file shown 3 9 0 ≡ some (codes "c,l,1,x\n")
read_on-file_content_example =
    read_on-file_content lcmds_file shown (codes "c,l,1,x\n") 3 9 long_list (omega arith)
      (omega arith)

abbrev answers : Answers
answers = record { mkdir = true; session_new = true; mount = true; session_fd = some 12 }

abbrev new_session : Session
new_session = record {
  mntpt = some (codes "1.fs");
  made_dir = false;
  fuse_se = false;
  fuse_fd = none;
}

abbrev started : Session
started = record new_session { made_dir = true; fuse_se = true; fuse_fd = some 12 }

starts : fs_create answers yarfs_create new_session zeroed_fs ≡ done (true, started) tree
unfolding fs_create
starts = rw create_tree-tree refl

fs_create-serves_example :
    (fs_fuse_lookup shown root_ino (codes "lcmds") tree
      ≡ done (entry_reply 4 (attributes 4 8)) tree)
    × (fs_fuse_read shown 4 5 2 tree
        ≡ done (buf_reply (fs_fuse_reply_buf_limited (codes "c,l,1,x\n") 8 2 5)) tree)
fs_create-serves_example =
    fs_create-serves answers new_session started tree lcmds_file shown (codes "c,l,1,x\n") 5 2
      starts long_list

fs_cleanup-fs_create_example :
    fs_cleanup started tree ≡ done (record started { mntpt = none; fuse_se = false }) cleaned_fs
fs_cleanup-fs_create_example =
    fs_cleanup-fs_create answers new_session started tree (codes "1.fs") refl starts

-- The invalid inode, the root with a file in it, and the file.
abbrev root_file : FsFile
root_file = record {
  ops = fs_dir_ops;
  contents = dir_data (record { ino_files = 1 ∷ []; nm_files = 1 ∷ [] });
  name = some (codes ".");
  ino = 1;
  dir = 0;
  type = directory;
}

abbrev plain_file : FsFile
plain_file = record {
  ops = no_ops;
  contents = no_data;
  name = some (codes "a");
  ino = 2;
  dir = 1;
  type = regular;
}

abbrev small_fs : Fs
small_fs = record {
  ino_table = some (
      no_inodesc
      ∷ record { file = some 0; next = none }
      ∷ record { file = some 1; next = none }
      ∷ no_inodesc
      ∷ []);
  ino_freelist = some 3;
  ino_num = 4;
  ino_numfree = 1;
  files =
      some root_file
      ∷ some plain_file
      ∷ some (record plain_file { name = some (codes "b"); ino = 3 })
      ∷ [];
}

small_fs-FreeList : FreeList small_fs (3 ∷ [])
small_fs-FreeList = record {
  made = refl;
  num = refl;
  count = refl;
  chain = (refl, ((omega arith), (tt, refl)));
}

inoalloc-pops_example : Alloc small_fs (3 ∷ [])
inoalloc-pops_example = inoalloc-pops small_fs (3 ∷ []) small_fs-FreeList

inofree-pushes_example :
    (inofree 2 small_fs ≡ done true (freed 2 small_fs)) × FreeList (freed 2 small_fs) (2 ∷ 3 ∷ [])
inofree-pushes_example =
    inofree-pushes small_fs (3 ∷ []) 2 small_fs-FreeList (omega arith) ((omega arith), tt) refl

dir_add-Addition_example : Addition small_fs 0 2 (codes "b") none
unfolding find_ino
dir_add-Addition_example =
    dir_add-Addition small_fs 0 2 root_file (record plain_file { name = some (codes "b"); ino = 3 })
      (record { ino_files = 1 ∷ []; nm_files = 1 ∷ [] }) (codes "b")
      (record { here = refl; type = refl; tables = refl }) refl refl

abbrev emptied : Fs
emptied = record small_fs {
  ino_table = some (
      no_inodesc
      ∷ record { file = some 0; next = none }
      ∷ record { file = some 1; next = some 3 }
      ∷ no_inodesc
      ∷ []);
  ino_freelist = some 2;
  ino_numfree = 2;
  files =
      some (record root_file { contents = dir_data (record { ino_files = []; nm_files = [] }) })
      ∷ none
      ∷ some (record plain_file { name = some (codes "b"); ino = 3 })
      ∷ [];
}

removes : fs_removeitem 1 1 false small_fs ≡ done true emptied
unfolding fs_removeitem is_occupied containing_dir ino2inodesc remove_entry hash_delete find_ino
    lookup_name inofree str_eq
removes = refl

inoalloc-fs_removeitem_example : inoalloc emptied ≡ fault aborted
inoalloc-fs_removeitem_example =
    inoalloc-fs_removeitem small_fs emptied 1 1 1 plain_file refl refl removes
