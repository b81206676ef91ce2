-- ===== src/Tests/Startup.antt =====
-- The theorems on the options and on adding commands (main.c) at concrete values.
use yar.Base.{◌||◌, codes, ◌≡◌, refl, true, some, List, [], ◌∷◌}
use yar.State.{Sys}
use yar.Monad.{ok, stop}
use yar.Args.{opt_ready, args_parse, parse_opts, parse_opt, parse_args, check_specs}
use yar.Args.Configured.{args_parse-accepted, ready_length}
use yar.Kernel.{Str, History}
use yar.Spec.{
  with_name, with_link, with_log, with_delay, check_path, next_token, strsep, cut, build,
  cmdspec_parse, parse_delay,
}
use yar.Cmd.Life.{cmd_init, cmd_create}
use yar.Tty.{
  tty_init, tty_create, link_clash, path_exists, tty_open_sub, fd_set_nonblocking, make_links,
  make_link, make_extra, tty_watch,
}
use yar.Spec.{parse_delay}
use yar.Monad.{Res, stop}
use yar.Tests.{open_tty}
use yar.Bcst.{gbls_add_cmd, add_spec, add_new, add_created, slower}
use yar.Bcst.Distinct.{Distinct, gbls_add_cmd-Distinct}
use yar.Registry.{find_name, find_addr, load_cmd, addrs}
use yar.Registry.Table.{absent}
use yar.Bcst.Delays.{Slowest}
use yar.Bcst.Slowest.{gbls_add_cmd-Slowest}
use yar.Tests.{start, waiting, talker, willing}

abbrev two_specs : List Str
two_specs = codes "a,,,,x" ∷ codes "b,,,,y" ∷ []

abbrev state_of_run : {A : Type 0} → Res A → Sys
state_of_run (ok r s) = s
state_of_run (stop h s) = s

configured : Sys
unfolding args_parse parse_opts parse_opt parse_args check_specs cmdspec_parse with_name with_link
    with_log with_delay check_path parse_delay next_token strsep cut build
configured = state_of_run (args_parse (opt_ready (codes "$ ") ∷ []) two_specs start)

accepted : args_parse (opt_ready (codes "$ ") ∷ []) two_specs start ≡ ok true configured
unfolding configured args_parse parse_opts parse_opt parse_args check_specs cmdspec_parse with_name
    with_link with_log with_delay check_path parse_delay next_token strsep cut build
accepted = refl

args_parse-accepted_example :
    (configured.g.bcstflg ≡ (true || start.g.bcstflg))
    × (configured.g.readystrlen ≡ ready_length configured.g.readystr)
args_parse-accepted_example =
    args_parse-accepted (opt_ready (codes "$ ") ∷ []) two_specs start configured refl accepted

abbrev first_spec : Str
first_spec = codes "a,l,,,x"

-- The monitor and the file system are there for the links beside a client tty's.
abbrev with_links : Sys
with_links = record waiting {
  g = record waiting.g {
    fs_mntpt = some (codes "1.fs");
    mon = record waiting.g.mon { tty = open_tty 9 };
  };
}

with_first : Sys
unfolding gbls_add_cmd add_spec add_new add_created slower find_name cmdspec_parse with_name
    with_link with_log with_delay check_path parse_delay build next_token strsep cut cmd_init
    tty_init cmd_create tty_create link_clash path_exists tty_open_sub fd_set_nonblocking make_links
    make_link make_extra tty_watch
with_first = state_of_run (gbls_add_cmd first_spec with_links)

adds_first : gbls_add_cmd first_spec with_links ≡ ok (some 1) with_first
unfolding with_first gbls_add_cmd add_spec add_new add_created slower find_name cmdspec_parse
    with_name with_link with_log with_delay check_path parse_delay build next_token strsep cut
    cmd_init tty_init cmd_create tty_create link_clash path_exists tty_open_sub fd_set_nonblocking
    make_links make_link make_extra tty_watch
adds_first = refl

gbls_add_cmd-Distinct_example : Distinct with_first.g.cmds
gbls_add_cmd-Distinct_example =
    gbls_add_cmd-Distinct first_spec with_links with_first (some 1) (refl, tt) adds_first

-- A command at another address is the slowest.
abbrev two_links : Sys
two_links = record with_links {
  g = record with_links.g { cmds = record talker { addr = 2 } ∷ []; slowestcmd = some 2 };
}

with_second : Sys
unfolding find_addr load_cmd gbls_add_cmd add_spec add_new add_created slower find_name
    cmdspec_parse with_name with_link with_log with_delay check_path parse_delay build next_token
    strsep cut cmd_init tty_init cmd_create tty_create link_clash path_exists tty_open_sub
    fd_set_nonblocking make_links make_link make_extra tty_watch
with_second = state_of_run (gbls_add_cmd first_spec two_links)

adds_second : gbls_add_cmd first_spec two_links ≡ ok (some 1) with_second
unfolding find_addr load_cmd with_second gbls_add_cmd add_spec add_new add_created slower find_name
    cmdspec_parse with_name with_link with_log with_delay check_path parse_delay build next_token
    strsep cut cmd_init tty_init cmd_create tty_create link_clash path_exists tty_open_sub
    fd_set_nonblocking make_links make_link make_extra tty_watch
adds_second = refl

allocates_apart : (h : History) → absent (willing.malloc h) (addrs two_links.g.cmds) ≡ true
unfolding absent
allocates_apart h = refl

two_links-Slowest : Slowest two_links.g.slowestcmd two_links.g.cmds
unfolding find_addr
two_links-Slowest = (record talker { addr = 2 }, refl, refl)

gbls_add_cmd-Slowest_example : Slowest with_second.g.slowestcmd with_second.g.cmds
gbls_add_cmd-Slowest_example =
    gbls_add_cmd-Slowest first_spec two_links with_second (some 1) allocates_apart two_links-Slowest
      adds_second
