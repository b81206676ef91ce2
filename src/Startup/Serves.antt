-- ===== src/Startup/Serves.antt =====
-- main.c, fs.c, yarfs.c: the files that yar shows after its start.
use yar.Base.{ℕ, ◌≡◌, ap₂, subst, ◌∙◌, true, not, some, List, length}
use yar.Kernel.{Str}
use yar.State.{Sys}
use yar.Monad.{ok, and_then-ok, ◌>>◌, pure, when}
use yar.Registry.{eexit}
use yar.Args.{Opt, args_parse}
use yar.Yarfs.{YarFile, file_content, fs_fuse_reply_buf_limited}
use yar.Fs.{Fs, FsRes, done, fault}
use yar.Fs.Items.{root_ino}
use yar.Fs.Calls.{fs_fuse_lookup, fs_fuse_read, entry_reply, buf_reply}
use yar.Fs.Session.{Answers, Session, fs_create, yarfs_create, file_name}
use yar.Fs.Session.Tree.{zeroed_fs, fs_create-serves, file_ino, attributes}
use yar.Startup.{
  start_up, start_resources, start_cmds, start_log, start_mon, identify, start_fs, create_fs,
  take_fs, on_fs, start_bcst, create_cmds, session_of, dir_or_cwd,
}
use yar.Startup.Init.{gbls_init, fs_init}
use yar.Startup.Table.{not_refused}

-- `fs` is what a start of the file system that succeeded has made.
Made : Answers → Fs → Type 0
Made w fs =
    (this this' : Session) × (fs_create w yarfs_create this zeroed_fs ≡ done (true, this') fs)

on_fs-done :
    {A : Type 0} (r : FsRes A) (a : A) (fs : Fs) (s s' : Sys)
    → on_fs r s ≡ ok (a, fs) s'
    → r ≡ done a fs
unfolding on_fs
on_fs-done (done b t) a fs s s' h = cc
on_fs-done (fault x) a fs s s' h = cc

ok-same : {A : Type 0} (a b : A) (s s' : Sys) → ok a s ≡ ok b s' → a ≡ b
ok-same a b s s' h = cc

create_fs-Made : (w : Answers) (s s' : Sys) (fs : Fs) → create_fs w s ≡ ok fs s' → Made w fs
unfolding create_fs Made
create_fs-Made w s s' fs h =
    let r = fs_create w yarfs_create (session_of s.g) zeroed_fs in
    let (((created, this), made), s1, e1, h1) = and_then-ok (on_fs r s) take_fs fs s' h in
    let t : Sys = record s1 {
      g = record s1.g {
        config = record s1.g.config { made_dir = this.made_dir; fuse_fd = this.fuse_fd };
      };
    } in
    let (u, s2, e2, h2) = and_then-ok (when (not created) eexit t) (λ u. pure made) fs s' h1 in
    let (yes', same) = not_refused created t s2 u e2 in
    (
      session_of s.g,
      this,
      on_fs-done r (created, this) made s s1 e1
          ∙ ap₂ (λ c fs. done (c, this) fs) yes' (ok-same made fs s2 s' h2),
    )

start_fs-Made : (w : Answers) (s s' : Sys) (fs : Fs) → start_fs w s ≡ ok fs s' → Made w fs
unfolding start_fs
start_fs-Made w s s' fs h =
    let (dir, s1, e1, h1) = and_then-ok (dir_or_cwd s.g.config.fsmntptdir s) _ fs s' h in
    let t : Sys = record s1 {
      g = record s1.g { config = record s1.g.config { fsmntptdir = some dir } };
    } in
    let (u, s2, e2, h2) = and_then-ok (fs_init true (some dir) t) (λ u. create_fs w) fs s' h1 in
    create_fs-Made w s2 s' fs h2

-- The last of the steps that make yar's resources.
start_resources-Made :
    (w : Answers) (s s' : Sys) (fs : Fs) → start_resources w s ≡ ok fs s' → Made w fs
unfolding start_resources
start_resources-Made w s s' fs h =
    let (u1, s1, e1, h1) = and_then-ok (identify s) _ fs s' h in
    let (u2, s2, e2, h2) = and_then-ok (start_log s1) _ fs s' h1 in
    let t : Sys = record s2 {
      g = record s2.g { config = record s2.g.config { at_exit = true } };
    } in
    let (u3, s3, e3, h3) = and_then-ok (start_mon t) (λ u. start_fs w) fs s' h2 in
    start_fs-Made w s3 s' fs h3

start_cmds-same : (fs r : Fs) (s s' : Sys) → start_cmds fs s ≡ ok r s' → fs ≡ r
unfolding start_cmds
start_cmds-same fs r s s' h =
    let (u, s1, e1, h1) =
      and_then-ok (create_cmds s.g.config.initialcmdspecs s) (λ u. start_bcst >> pure fs) r s' h in
    let (u2, s2, e2, h2) = and_then-ok (start_bcst s1) (λ u. pure fs) r s' h1 in
    ok-same fs r s2 s' h2

-- If yar starts up to its loop, each of the files that it shows, if it can be read, is found by
-- the requests of the kernel under its name in the root directory, with the size of its contents,
-- and a read of the inode found sends the part of the contents that is asked for.
pub start_up-serves :
    (w : Answers) (opts : List Opt) (args : List Str) (s s' : Sys) (fs : Fs) (f : YarFile)
    (text : Str) (size off : ℕ)
    → start_up w opts args s ≡ ok fs s'
    → file_content f s'.g ≡ some text
    → (fs_fuse_lookup s'.g root_ino (file_name f) fs
        ≡ done (entry_reply (file_ino f) (attributes (file_ino f) (length text))) fs)
      × (fs_fuse_read s'.g (file_ino f) size off fs
          ≡ done (buf_reply (fs_fuse_reply_buf_limited text (length text) off size)) fs)
unfolding start_up Made
start_up-serves w opts args s s' fs f text size off h shown =
    let (u1, s1, e1, h1) = and_then-ok (gbls_init s) _ fs s' h in
    let (b, s2, e2, h2) = and_then-ok (args_parse opts args s1) _ fs s' h1 in
    let (u3, s3, e3, h3) = and_then-ok (when (not b) eexit s2) _ fs s' h2 in
    let (made, s4, e4, h4) = and_then-ok (start_resources w s3) start_cmds fs s' h3 in
    let (this, this', served) =
      subst (Made w) (start_cmds-same made fs s4 s' h4) (start_resources-Made w s3 s4 made e4) in
    fs_create-serves w this this' fs f s'.g text size off served shown
