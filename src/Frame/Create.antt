-- ===== src/Frame/Create.antt =====
-- What the making of a tty or of a command leaves alone.
use yar.Base.{ℕ, Bool, Option, none, some}
use yar.Kernel.{Fd, Str, ℤ}
use yar.State.{Tty, Cmd, EvntDesc}
use yar.Tty.{
  tty_init, path_exists, link_clash, tty_create_failed, make_link, make_extra, first_link,
  with_master, make_links, fd_set_nonblocking, tty_watch, tty_open_sub, tty_create,
}
use yar.Cmd.Life.{cmd_init, cmd_create}
use yar.Frame.{Keeps, keeping}
use yar.Frame.Ttys.{tty_cleanup-Keeps}

pub tty_init-Keeps : (t : Tty) (a b c d e : Option Str) (z : Bool) → Keeps (tty_init t a b c d e z)
unfolding tty_init
tty_init-Keeps t a b c d e z = search keeping

path_exists-Keeps : (p : Option Str) → Keeps (path_exists p)
unfolding path_exists
path_exists-Keeps none = search keeping
path_exists-Keeps (some p) = search keeping

link_clash-Keeps : (t : Tty) → Keeps (link_clash t)
unfolding link_clash
link_clash-Keeps t = search (keeping, path_exists-Keeps) depth 10

tty_create_failed-Keeps : (t : Tty) → Keeps (tty_create_failed t)
unfolding tty_create_failed
tty_create_failed-Keeps t = search (keeping, tty_cleanup-Keeps)

make_link-Keeps : (d : Option Str) (l : Str) → Keeps (make_link d l)
unfolding make_link
make_link-Keeps none l = search keeping
make_link-Keeps (some d) l = search keeping

make_extra-Keeps : (a b c : Option Str) → Keeps (make_extra a b c)
unfolding make_extra
make_extra-Keeps none b c = search keeping
make_extra-Keeps (some a) b c = search (keeping, make_link-Keeps)

first_link-Keeps : (path : Str) (l : Option Str) → Keeps (first_link path l)
first_link-Keeps path none = search keeping
first_link-Keeps path (some l) = make_link-Keeps (some path) l

make_links-Keeps : (t : Tty) → Keeps (make_links t)
unfolding make_links
make_links-Keeps t = search (keeping, first_link-Keeps, make_extra-Keeps) depth 12

fd_set_nonblocking-Keeps : (fd : Fd) → Keeps (fd_set_nonblocking fd)
unfolding fd_set_nonblocking
fd_set_nonblocking-Keeps fd = search keeping depth 10

tty_watch-Keeps : (t : Tty) (sfd : Fd) (a b c : EvntDesc) → Keeps (tty_watch t sfd a b c)
unfolding tty_watch
tty_watch-Keeps t sfd a b c = search (keeping, tty_create_failed-Keeps) depth 10

tty_open_sub-Keeps : (t : Tty) (a b c : EvntDesc) (raw : Bool) → Keeps (tty_open_sub t a b c raw)
unfolding tty_open_sub
tty_open_sub-Keeps t a b c raw =
    search
      (
        keeping, tty_create_failed-Keeps, fd_set_nonblocking-Keeps, make_links-Keeps,
        tty_watch-Keeps,
      )
      depth 24

with_master-Keeps :
    (t : Tty) (a b c : EvntDesc) (raw : Bool) (m : Option (ℕ × Str))
    → Keeps (with_master t a b c raw m)
with_master-Keeps t a b c raw none = tty_create_failed-Keeps t
with_master-Keeps t a b c raw (some (dfd, path)) =
    tty_open_sub-Keeps (record t { dfd = some dfd; path = path }) a b c raw

pub tty_create-Keeps : (t : Tty) (a b c : EvntDesc) (raw : Bool) → Keeps (tty_create t a b c raw)
unfolding tty_create
tty_create-Keeps t a b c raw =
    search (keeping, link_clash-Keeps, tty_create_failed-Keeps, with_master-Keeps) depth 12

pub cmd_init-Keeps :
    (p : ℕ) (a b c : Str) (d : ℤ) (l g : Option Str) → Keeps (cmd_init p a b c d l g)
unfolding cmd_init
cmd_init-Keeps p a b c d l g = search (keeping, tty_init-Keeps) depth 12

pub cmd_create-Keeps : (this : Cmd) → Keeps (cmd_create this)
unfolding cmd_create
cmd_create-Keeps this = search (keeping, tty_create-Keeps) depth 12
