-- ===== src/Loop.antt =====
-- main.c and tty.c: `theLoop`, which hands each event to its handler, and the part of
-- `ttyNotifyEvent` that calls the handler which a tty's owner registered.
pub mod Exit
pub mod Signal
use yar.Base.{ℕ, Bool, true, false, List, [], ◌∷◌}
use yar.Kernel.{Fd, Env, fuse_receive_call, fuse_process_call}
use yar.State.{
  Tty, EvntDesc, no_desc, cmd_pid_desc, cmd_cmdtty_desc, cmd_clttty_desc, cmd_clttty_notify_desc,
  cmd_cmdtty_ifd_desc, cmd_clttty_ifd_desc, bcst_desc, bcst_notify_desc, bcst_ifd_desc, mon_desc,
  mon_notify_desc, mon_ifd_desc, sig_desc, fs_desc,
}
use yar.Monad.{M, aborted, ◌>>=◌, ◌>>◌, pure, halt, assert, get, modify, when, call, call_}
use yar.Tty.Io.{tty_notify}
use yar.Cmd.Events.{cmd_pid_event, cmd_cmdtty_event, cmd_clttty_event, cmd_clttty_notify}
use yar.Registry.{load_cmd, save_cmd}
use yar.Bcst.{bcst_event, bcst_notify}
use yar.Mon.Line.{mon_event, mon_notify}
use yar.Sig.{sig_event}
use yar.Evnts.{Evnts, none_left, EvntRc, hdlr_success, hdlr_failed, hdlr_exit_loop}

-- The call through `ned`: nothing for a null handler. Other descriptors are never stored there.
unfoldable pub call_ned : EvntDesc → ℕ → Fd → M (Unit {0})
call_ned (cmd_clttty_notify_desc p) mask epollfd = cmd_clttty_notify p mask epollfd
call_ned bcst_notify_desc mask epollfd = bcst_notify mask epollfd
call_ned mon_notify_desc mask epollfd = mon_notify mask
call_ned no_desc mask epollfd = pure tt
call_ned d mask epollfd = halt aborted

-- `ttyNotifyEvent` for a tty that is read and written in its place.
unfoldable pub tty_notify_event : M Tty → (Tty → M (Unit {0})) → Evnts → Fd → M (Unit {0})
tty_notify_event load save evnts epollfd = do
  when evnts.ein (do t ← load; (mask, t) ← tty_notify t; save t; call_ned t.ned mask epollfd)
  assert (none_left evnts)

unfoldable pub load_cmdtty : ℕ → M Tty
load_cmdtty p = do c ← load_cmd p; pure c.cmdtty

unfoldable pub save_cmdtty : ℕ → Tty → M (Unit {0})
save_cmdtty p t = do c ← load_cmd p; save_cmd (record c { cmdtty = t })

unfoldable pub load_clttty : ℕ → M Tty
load_clttty p = do c ← load_cmd p; pure c.clttty

unfoldable pub save_clttty : ℕ → Tty → M (Unit {0})
save_clttty p t = do c ← load_cmd p; save_cmd (record c { clttty = t })

abbrev pub load_bcst : M Tty
load_bcst = do g ← get; pure g.bcsttty

abbrev pub save_bcst : Tty → M (Unit {0})
save_bcst t = modify (λ g. record g { bcsttty = t })

abbrev pub load_mon : M Tty
load_mon = do g ← get; pure g.mon.tty

abbrev pub save_mon : Tty → M (Unit {0})
save_mon t = modify (λ g. record g { mon = record g.mon { tty = t } })

abbrev pub then_success : M (Unit {0}) → M EvntRc
then_success m = m >> pure hdlr_success

-- `fsEvent`: a request that has come is handed to libfuse.
unfoldable pub fs_event : Evnts → M (Unit {0})
fs_event evnts = when evnts.ein (do
  received ← call fuse_receive_call (λ (e : Env) h. e.fuse_receive h)
  when received (call_ fuse_process_call))

-- `ed->hdlr(ed->obj, evnts, epollfd)`. A null handler fails the assertion.
unfoldable pub handle : EvntDesc → Evnts → Fd → M EvntRc
handle (cmd_pid_desc p) e epollfd = then_success (cmd_pid_event p e epollfd)
handle (cmd_cmdtty_desc p) e epollfd = then_success (cmd_cmdtty_event p e epollfd)
handle (cmd_clttty_desc p) e epollfd = then_success (cmd_clttty_event p e epollfd)
handle (cmd_cmdtty_ifd_desc p) e epollfd =
    then_success (tty_notify_event (load_cmdtty p) (save_cmdtty p) e epollfd)
handle (cmd_clttty_ifd_desc p) e epollfd =
    then_success (tty_notify_event (load_clttty p) (save_clttty p) e epollfd)
handle bcst_desc e epollfd = then_success (bcst_event e)
handle bcst_ifd_desc e epollfd = then_success (tty_notify_event load_bcst save_bcst e epollfd)
handle mon_desc e epollfd = then_success (mon_event e epollfd)
handle mon_ifd_desc e epollfd = then_success (tty_notify_event load_mon save_mon e epollfd)
handle sig_desc e epollfd = sig_event e
handle fs_desc e epollfd = then_success (fs_event e)
handle d e epollfd = halt aborted

-- What `epoll_wait` returns.
pub data Wait : Type 0 where
  ready : List (EvntDesc × Evnts) → Wait
  interrupted invalid wait_failed : Wait

-- The state of the loop after some rounds: left with `rc`, or to go on.
pub data Left : Type 0 where
  left : Bool → Left
  goes_on : Left

unfoldable pub run_batch : Fd → List (EvntDesc × Evnts) → M Left
run_batch epollfd [] = pure goes_on
run_batch epollfd ((ed, e) ∷ rest) = do
  rc ← handle ed e epollfd
  elim rc [
    | hdlr_success ↦ run_batch epollfd rest
    | hdlr_exit_loop ↦ pure (left true)
    | hdlr_failed ↦ pure (left false)
  ]

-- The rounds of `for (;;)`, one for each return of `epoll_wait` in the list.
unfoldable pub the_loop : Fd → List Wait → M Left
the_loop epollfd [] = pure goes_on
the_loop epollfd (ready batch ∷ waits) = do
  l ← run_batch epollfd batch
  elim l [ left rc ↦ pure (left rc) | goes_on ↦ the_loop epollfd waits ]
the_loop epollfd (interrupted ∷ waits) = the_loop epollfd waits
the_loop epollfd (invalid ∷ waits) = the_loop epollfd waits
the_loop epollfd (wait_failed ∷ waits) = pure (left false)
