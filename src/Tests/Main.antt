-- ===== src/Tests/Main.antt =====
-- The theorems on the start of yar (main.c) at concrete values.
use yar.Base.{codes, decimal, ◌≡◌, refl, true, some, List, [], ◌∷◌, length, str_eq}
use yar.Kernel.{Str}
use yar.State.{Sys}
use yar.Monad.{Res, ok, stop}
use yar.Registry.{find_name, load_cmd, find_addr}
use yar.Spec.{
  with_name, with_link, with_log, with_delay, check_path, next_token, strsep, cut, build,
  cmdspec_parse, parse_delay,
}
use yar.Cmd.Life.{cmd_init, cmd_create, cwd_prefix}
use yar.Tty.{
  tty_init, tty_create, link_clash, path_exists, tty_open_sub, fd_set_nonblocking, make_links,
  make_link, make_extra, tty_watch,
}
use yar.Args.{initial_globals, args_parse, parse_opts, parse_args, check_specs}
use yar.Bcst.{gbls_add_cmd, add_spec, add_new, add_created, slower, bcst_create}
use yar.Bcst.Distinct.{Distinct}
use yar.Yarfs.{pid_file, file_content, fs_fuse_reply_buf_limited}
use yar.Fs.{Fs, done}
use yar.Fs.Inodes.{
  linked, inoalloc, ensure_inotable, init_inotable, take_free, ino2inodesc, inodesc2ino,
}
use yar.Fs.Items.{
  root_ino, dir_add, find_ino, lookup_name, fs_createdir, fs_createfile, directory_at,
}
use yar.Fs.Calls.{fs_fuse_lookup, fs_fuse_read, entry_reply, buf_reply}
use yar.Fs.Session.{Answers, create_tree, fs_create, yarfs_create, fs_mount_point, file_name}
use yar.Fs.Session.Tree.{zeroed_fs, file_ino, attributes}
use yar.Startup.{
  start_up, start_resources, start_cmds, identify, start_log, start_mon, start_fs, create_fs, on_fs,
  dir_or_cwd, cwd_dir, create_cmds, start_bcst,
}
use yar.Startup.Init.{
  gbls_init, fs_init, mon_init, init_mon_tty, sigproc_init, mon_create, mon_tty_link, fs_set_mnt_pt,
}
use yar.Startup.Table.{start_up-cmds}
use yar.Startup.Serves.{start_up-serves}
use yar.Tests.{start, willing}

abbrev two_specs : List Str
two_specs = codes "a,,,,x" ∷ codes "b,,,,y" ∷ []

abbrev mounts : Answers
mounts = record { mkdir = true; session_new = true; mount = true; session_fd = some 20 }

abbrev before : Sys
before = record start { env = record willing { malloc = λ h. length h } }

abbrev state_of_run : {A : Type 0} → Res A → Sys
state_of_run (ok r s) = s
state_of_run (stop h s) = s

abbrev fs_of_run : Res Fs → Fs
fs_of_run (ok r s) = r
fs_of_run (stop h s) = zeroed_fs

started : Sys
unfolding start_up gbls_init initial_globals fs_init mon_init init_mon_tty sigproc_init args_parse
    parse_opts parse_args check_specs cmdspec_parse with_name with_link with_log with_delay
    check_path parse_delay next_token strsep cut build start_resources identify start_log start_mon
    mon_tty_link mon_create dir_or_cwd cwd_dir start_fs fs_mount_point fs_set_mnt_pt create_fs on_fs
    fs_create create_tree inoalloc ensure_inotable init_inotable take_free ino2inodesc inodesc2ino
    linked yarfs_create fs_createdir fs_createfile dir_add find_ino lookup_name directory_at str_eq
    start_cmds create_cmds gbls_add_cmd add_spec add_new add_created slower load_cmd find_addr
    find_name cmd_init tty_init cmd_create tty_create link_clash path_exists tty_open_sub
    fd_set_nonblocking make_links make_link make_extra tty_watch start_bcst cwd_prefix bcst_create
    decimal
started = state_of_run (start_up mounts [] two_specs before)

fs_started : Fs
unfolding start_up gbls_init initial_globals fs_init mon_init init_mon_tty sigproc_init args_parse
    parse_opts parse_args check_specs cmdspec_parse with_name with_link with_log with_delay
    check_path parse_delay next_token strsep cut build start_resources identify start_log start_mon
    mon_tty_link mon_create dir_or_cwd cwd_dir start_fs fs_mount_point fs_set_mnt_pt create_fs on_fs
    fs_create create_tree inoalloc ensure_inotable init_inotable take_free ino2inodesc inodesc2ino
    linked yarfs_create fs_createdir fs_createfile dir_add find_ino lookup_name directory_at str_eq
    start_cmds create_cmds gbls_add_cmd add_spec add_new add_created slower load_cmd find_addr
    find_name cmd_init tty_init cmd_create tty_create link_clash path_exists tty_open_sub
    fd_set_nonblocking make_links make_link make_extra tty_watch start_bcst cwd_prefix bcst_create
    decimal
fs_started = fs_of_run (start_up mounts [] two_specs before)

starts : start_up mounts [] two_specs before ≡ ok fs_started started
unfolding fs_started started start_up gbls_init initial_globals fs_init mon_init init_mon_tty
    sigproc_init args_parse parse_opts parse_args check_specs cmdspec_parse with_name with_link
    with_log with_delay check_path parse_delay next_token strsep cut build start_resources identify
    start_log start_mon mon_tty_link mon_create dir_or_cwd cwd_dir start_fs fs_mount_point
    fs_set_mnt_pt create_fs on_fs fs_create create_tree inoalloc ensure_inotable init_inotable
    take_free ino2inodesc inodesc2ino linked yarfs_create fs_createdir fs_createfile dir_add
    find_ino lookup_name directory_at str_eq start_cmds create_cmds gbls_add_cmd add_spec add_new
    add_created slower load_cmd find_addr find_name cmd_init tty_init cmd_create tty_create
    link_clash path_exists tty_open_sub fd_set_nonblocking make_links make_link make_extra tty_watch
    start_bcst cwd_prefix bcst_create decimal
starts = refl

start_up-cmds_example : (length started.g.cmds ≡ length two_specs) × Distinct started.g.cmds
start_up-cmds_example = start_up-cmds mounts [] two_specs before started fs_started starts

shows_pid : file_content pid_file started.g ≡ some (codes "77")
unfolding file_content started start_up gbls_init initial_globals fs_init mon_init init_mon_tty
    sigproc_init args_parse parse_opts parse_args check_specs cmdspec_parse with_name with_link
    with_log with_delay check_path parse_delay next_token strsep cut build start_resources identify
    start_log start_mon mon_tty_link mon_create dir_or_cwd cwd_dir start_fs fs_mount_point
    fs_set_mnt_pt create_fs on_fs fs_create create_tree inoalloc ensure_inotable init_inotable
    take_free ino2inodesc inodesc2ino linked yarfs_create fs_createdir fs_createfile dir_add
    find_ino lookup_name directory_at str_eq start_cmds create_cmds gbls_add_cmd add_spec add_new
    add_created slower load_cmd find_addr find_name cmd_init tty_init cmd_create tty_create
    link_clash path_exists tty_open_sub fd_set_nonblocking make_links make_link make_extra tty_watch
    start_bcst cwd_prefix bcst_create decimal
shows_pid = refl

start_up-serves_example :
    (fs_fuse_lookup started.g root_ino (file_name pid_file) fs_started
      ≡ done (entry_reply (file_ino pid_file) (attributes (file_ino pid_file) 2)) fs_started)
    × (fs_fuse_read started.g (file_ino pid_file) 10 0 fs_started
        ≡ done (buf_reply (fs_fuse_reply_buf_limited (codes "77") 2 0 10)) fs_started)
start_up-serves_example =
    start_up-serves mounts [] two_specs before started fs_started pid_file (codes "77") 10 0 starts
      shows_pid
