-- ===== src/Tty/Dump.antt =====
-- tty.c: the dump of a tty for debugging. Of what is printed only the bytes that are dumped are
-- kept.
use yar.Base.{none, some, ltb, if◌then◌else◌, take, ◌==◌, not}
use yar.Kernel.{Fd, Env, outq_call, dump_call}
use yar.State.{Tty}
use yar.Monad.{M, ◌>>=◌, ◌>>◌, pure, assert, call, call_, when}
use yar.Tty.{in_q_cnt, discards_size}

-- `if (fd != -1) assert(ioctl(fd, TIOCOUTQ, ...) == 0)`
unfoldable pub out_q_cnt : Fd → M (Unit {0})
out_q_cnt none = pure tt
out_q_cnt (some d) = call (outq_call (some d)) (λ (e : Env) h. e.outq h (some d)) >>= assert

unfoldable pub tty_port_space : Tty → M (Unit {0})
tty_port_space this = do
  in_q_cnt this.dfd
  out_q_cnt this.dfd
  in_q_cnt this.sfd
  out_q_cnt this.sfd

unfoldable pub tty_dump : Tty → M (Unit {0})
tty_dump this = do
  tty_port_space this
  let n = if ltb this.wdbytes discards_size then this.wdbytes else discards_size
  when (not (this.wdbytes == 0)) (call_ (dump_call (take n this.discards)))
