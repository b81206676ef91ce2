-- ===== src/Frame/Ttys.antt =====
-- The functions of tty.c leave the commands and the configuration alone.
use yar.Base.{ℕ, Option, none, some, List, [], ◌∷◌}
use yar.Kernel.{Fd, Str, WriteRet, wrote, write_again, write_failed}
use yar.State.{Tty}
use yar.Tty.{close_if_open, unlink_link, tty_cleanup, in_q_cnt, dom_in_q_cnt, tty_idle}
use yar.Tty.Io.{gettime, stamp, discard, write_result, tty_write_buf}
use yar.Frame.{Keeps, keeping, pure-Keeps}

pub close_if_open-Keeps : (fd : Fd) → Keeps (close_if_open fd)
unfolding close_if_open
close_if_open-Keeps none = search keeping
close_if_open-Keeps (some d) = search keeping

pub unlink_link-Keeps : (l : Option Str) → Keeps (unlink_link l)
unfolding unlink_link
unlink_link-Keeps none = search keeping
unlink_link-Keeps (some []) = search keeping
unlink_link-Keeps (some (c ∷ cs)) = search keeping

pub tty_cleanup-Keeps : (t : Tty) → Keeps (tty_cleanup t)
unfolding tty_cleanup
tty_cleanup-Keeps t = search (keeping, close_if_open-Keeps, unlink_link-Keeps) depth 12

pub in_q_cnt-Keeps : (fd : Fd) → Keeps (in_q_cnt fd)
unfolding in_q_cnt
in_q_cnt-Keeps none = pure-Keeps 0
in_q_cnt-Keeps (some d) = search keeping

pub tty_idle-Keeps : (t : Tty) → Keeps (tty_idle t)
unfolding tty_idle dom_in_q_cnt
tty_idle-Keeps t = search (keeping, in_q_cnt-Keeps) depth 8

pub gettime-Keeps : Keeps gettime
unfolding gettime
gettime-Keeps = search keeping

stamp-Keeps : (ts : Option ℕ) → Keeps (stamp ts)
unfolding stamp
stamp-Keeps none = pure-Keeps none
stamp-Keeps (some old) = search (keeping, gettime-Keeps)

discard-Keeps : (t : Tty) (buf : List ℕ) → Keeps (discard t buf)
unfolding discard
discard-Keeps t buf = search keeping

write_result-Keeps :
    (t : Tty) (buf : List ℕ) (ts : Option ℕ) (r : WriteRet) → Keeps (write_result t buf ts r)
unfolding write_result
write_result-Keeps t buf ts (wrote n) = search (keeping, stamp-Keeps) depth 8
write_result-Keeps t buf ts write_again = search keeping
write_result-Keeps t buf ts write_failed = search keeping

pub tty_write_buf-Keeps : (t : Tty) (buf : List ℕ) (ts : Option ℕ) → Keeps (tty_write_buf t buf ts)
unfolding tty_write_buf
tty_write_buf-Keeps t buf ts = search (keeping, discard-Keeps, write_result-Keeps) depth 8
