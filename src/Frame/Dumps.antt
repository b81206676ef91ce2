-- ===== src/Frame/Dumps.antt =====
-- The dumps of ttys and commands leave the table and the configuration alone (tty.c, cmd.c).
use yar.Base.{ℕ, none, some, List}
use yar.Kernel.{Fd}
use yar.State.{Tty, Cmd}
use yar.Tty.Dump.{out_q_cnt, tty_port_space, tty_dump}
use yar.Cmd.Dump.{dump_part, dump_wrapped, dump_buf, cmd_dump, dump_if}
use yar.Frame.{Keeps, keeping, pure-Keeps}
use yar.Frame.Ttys.{in_q_cnt-Keeps}

out_q_cnt-Keeps : (fd : Fd) → Keeps (out_q_cnt fd)
unfolding out_q_cnt
out_q_cnt-Keeps none = pure-Keeps tt
out_q_cnt-Keeps (some d) = search keeping

tty_port_space-Keeps : (this : Tty) → Keeps (tty_port_space this)
unfolding tty_port_space
tty_port_space-Keeps this = search (keeping, in_q_cnt-Keeps, out_q_cnt-Keeps) depth 12

tty_dump-Keeps : (this : Tty) → Keeps (tty_dump this)
unfolding tty_dump
tty_dump-Keeps this = search (keeping, tty_port_space-Keeps) depth 12

dump_part-Keeps : (buf : List ℕ) (at n : ℕ) → Keeps (dump_part buf at n)
unfolding dump_part
dump_part-Keeps buf at n = search keeping

dump_buf-Keeps : (this : Cmd) → Keeps (dump_buf this)
unfolding dump_buf dump_wrapped
dump_buf-Keeps this = search (keeping, dump_part-Keeps) depth 8

pub cmd_dump-Keeps : (this : Cmd) → Keeps (cmd_dump this)
unfolding cmd_dump
cmd_dump-Keeps this = search (keeping, dump_buf-Keeps, tty_dump-Keeps) depth 8

pub dump_if-Keeps : (level : ℕ) (this : Cmd) → Keeps (dump_if level this)
unfolding dump_if
dump_if-Keeps level this = search (keeping, cmd_dump-Keeps) depth 8
