-- ===== src/Tty.antt =====
-- tty.h and tty.c: the pty pair that yar reads and writes. A function that updates `*this`
-- returns the new value. Debug output is left out, but for the bytes that a dump shows (Tty/Dump).
pub mod Io
pub mod Clash
pub mod Dump
use yar.Base.{
  ℕ, ◌+◌, ◌-◌, ◌%◌, ◌^◌, Bool, true, false, ◌&&◌, ◌||◌, not, Option, none, some, List, [], ◌∷◌,
  ◌++◌, ltb, leb, ◌==◌, if◌then◌else◌, is_some, length, take, drop, replicate,
}
use yar.Kernel.{
  Str, Fd, ℤ, pos, negsuc, Env, WriteRet, wrote, write_again, write_failed, ReadRet, got, at_end,
  read_again, read_failed, write_call, read_call, gettime_call, close_call, unlink_call,
  access_call, symlink_call, pty_open_call, open_call, get_flags_call, set_nonblock_call,
  set_cloexec_call, set_raw_call, inotify_init_call, inotify_add_watch_call, inotify_read_call,
  epoll_add_call, inq_call, flush_call,
}
use yar.State.{Tty, EvntDesc, no_desc}
use yar.Monad.{
  M, aborted, undefined, ◌>>=◌, ◌>>◌, pure, halt, assert, call, call_, when, deref, need,
}

-- `sizeof(this->discards)`
abbrev pub discards_size : ℕ
discards_size = 1024

abbrev pub zeroed_tty : Tty
zeroed_tty = record {
  path = [];
  discards = replicate 1024 0;
  link = none;
  extralink1_src = none;
  extralink1_dst = none;
  extralink2_src = none;
  extralink2_dst = none;
  rbytes = 0;
  wbytes = 0;
  wdbytes = 0;
  delaycnt = 0;
  dfd = some 0;
  sfd = some 0;
  ifd = some 0;
  iwd = some 0;
  opens = 0;
  dfded = no_desc;
  ifded = no_desc;
  ned = no_desc;
}

abbrev pub tty_is_clttty : Tty → Bool
tty_is_clttty this = is_some this.link

abbrev pub tty_is_cmdtty : Tty → Bool
tty_is_cmdtty this = not (tty_is_clttty this)

-- `ioctl(fd, TIOCINQ, &cnt)` under `assert`, for `fd` not -1.
unfoldable pub in_q_cnt : Fd → M ℕ
in_q_cnt none = pure 0
in_q_cnt (some d) = do cnt ← call (inq_call (some d)) (λ (e : Env) h. e.inq h (some d)); need cnt

unfoldable pub dom_in_q_cnt : Tty → M ℕ
dom_in_q_cnt this = in_q_cnt this.dfd

unfoldable pub sub_flush : Tty → M (Unit {0})
sub_flush this = when (is_some this.sfd) (call_ (flush_call this.sfd))

unfoldable pub tty_idle : Tty → M Bool
tty_idle this = do
  assert (tty_is_clttty this)
  if this.opens == 0 then (do cnt ← dom_in_q_cnt this; pure (cnt == 0)) else pure false

-- `ttyInit`: with `iszeroed` false the object is zeroed first.
unfoldable pub tty_init :
    Tty → (ttylink extra1src extra1dst extra2src extra2dst : Option Str) → Bool → M Tty
tty_init this ttylink e1s e1d e2s e2d iszeroed =
    let t : Tty = if iszeroed then this else zeroed_tty in
    do
      assert (not (is_some t.link))
      pure (record t {
        link = ttylink;
        extralink1_src = e1s;
        extralink1_dst = e1d;
        extralink2_src = e2s;
        extralink2_dst = e2d;
        dfd = none;
        sfd = none;
        ifd = none;
        iwd = none;
      })

unfoldable pub close_if_open : Fd → M (Unit {0})
close_if_open none = pure tt
close_if_open (some d) = call_ (close_call (some d))

-- A link's name that is null or empty is not unlinked.
unfoldable pub unlink_link : Option Str → M (Unit {0})
unlink_link none = pure tt
unlink_link (some []) = pure tt
unlink_link (some (c ∷ cs)) = call_ (unlink_call (c ∷ cs))

unfoldable pub tty_cleanup : Tty → M Tty
tty_cleanup this = do
  close_if_open this.ifd
  close_if_open this.dfd
  close_if_open this.sfd
  unlink_link this.link
  unlink_link this.extralink1_src
  unlink_link this.extralink2_src
  pure (record zeroed_tty { dfd = none; sfd = none; iwd = none; ifd = none })

-- `name != NULL && access(name, F_OK) == 0`
unfoldable pub path_exists : Option Str → M Bool
path_exists none = pure false
path_exists (some p) = call (access_call p) (λ (e : Env) h. e.access h p)

-- The three tests at the head of `ttyCreate`, each made only if the ones before it failed.
unfoldable pub link_clash : Tty → M Bool
link_clash this = do
  a ← path_exists this.link
  if a then pure true else do
    b ← path_exists this.extralink1_src
    if b then pure true else path_exists this.extralink2_src

-- `cleanup:` of `ttyCreate`
unfoldable pub tty_create_failed : Tty → M (Bool × Tty)
tty_create_failed this = do t ← tty_cleanup this; pure (false, t)

-- The links to the sub-tty. The assertion before the first extra link is about the second one's
-- destination, as in the source.
unfoldable pub make_link : Option Str → Str → M Bool
make_link none src = halt undefined
make_link (some dst) src = call (symlink_call dst src) (λ (e : Env) h. e.symlink h dst src)

unfoldable pub make_extra : Option Str → Option Str → Option Str → M Bool
make_extra none dst other_dst = pure true
make_extra (some src) dst other_dst = assert (is_some other_dst) >> make_link dst src

abbrev pub first_link : Str → Option Str → M Bool
first_link path none = pure true
first_link path (some l) = make_link (some path) l

unfoldable pub make_links : Tty → M Bool
make_links this = do
  a ← first_link this.path this.link
  if not a then pure false else do
    b ← make_extra this.extralink1_src this.extralink1_dst this.extralink2_dst
    if not b
        then pure false
        else make_extra this.extralink2_src this.extralink2_dst this.extralink2_dst

unfoldable pub fd_set_nonblocking : Fd → M (Unit {0})
fd_set_nonblocking fd = do
  a ← call (get_flags_call fd) (λ (e : Env) h. e.fcntl h fd)
  assert a
  b ← call (set_nonblock_call fd) (λ (e : Env) h. e.fcntl h fd)
  assert b

-- The fields that `ttyCreate` sets once all has succeeded.
abbrev pub tty_live : Tty → Fd → (ed self ned : EvntDesc) → Tty
tty_live t sfd ed self ned = record t {
  sfd = sfd;
  rbytes = 0;
  wbytes = 0;
  opens = 0;
  dfded = ed;
  ifded = self;
  ned = ned;
}

-- `ttyCreate` from the inotify watch on. `sfd` is the local of that name, which is stored only
-- here; `self` is the descriptor of `ttyNotifyEvent` with this tty as its object.
unfoldable pub tty_watch : Tty → Fd → (ed self ned : EvntDesc) → M (Bool × Tty)
tty_watch this sfd ed self ned = do
  ifd ← call inotify_init_call (λ (e : Env) h. e.inotify_init h)
  let t = record this { ifd = ifd }
  if not (is_some ifd) then tty_create_failed t else do
    iwd ←
        call (inotify_add_watch_call ifd this.path)
          (λ (e : Env) h. e.inotify_add_watch h ifd this.path)
    let t = record t { iwd = iwd }
    if not (is_some iwd) then tty_create_failed t else pure (true, tty_live t sfd ed self ned)

-- `ttyCreate` from the open of the sub-tty on.
unfoldable pub tty_open_sub : Tty → (ed self ned : EvntDesc) → Bool → M (Bool × Tty)
tty_open_sub this ed self ned raw = do
  call_ (set_cloexec_call this.dfd)
  fd_set_nonblocking this.dfd
  sfd ← call (open_call this.path) (λ (e : Env) h. e.open_file h this.path)
  if not (is_some sfd) then tty_create_failed this else do
    cloexec ← call (set_cloexec_call sfd) (λ (e : Env) h. e.fcntl h sfd)
    assert cloexec
    when raw (call_ (set_raw_call sfd))
    fd_set_nonblocking sfd
    linked ← make_links this
    if not linked then tty_create_failed this else tty_watch this sfd ed self ned

abbrev pub with_master : Tty → (ed self ned : EvntDesc) → Bool → Option (ℕ × Str) → M (Bool × Tty)
with_master this ed self ned raw none = tty_create_failed this
with_master this ed self ned raw (some (dfd, path)) =
    tty_open_sub (record this { dfd = some dfd; path = path }) ed self ned raw

unfoldable pub tty_create : Tty → (ed self ned : EvntDesc) → Bool → M (Bool × Tty)
tty_create this ed self ned raw = do
  assert (not (is_some this.dfd))
  clash ← link_clash this
  if clash then tty_create_failed this else do
    master ← call pty_open_call (λ (e : Env) h. e.pty_open h)
    with_master this ed self ned raw master

unfoldable pub tty_register_events : Tty → M Bool
tty_register_events this = do
  assert (is_some this.dfd)
  a ← call (epoll_add_call this.dfd) (λ (e : Env) h. e.epoll_add h this.dfd)
  if not a then pure false else do
    assert (is_some this.ifd && is_some this.iwd)
    call (epoll_add_call this.ifd) (λ (e : Env) h. e.epoll_add h this.ifd)
