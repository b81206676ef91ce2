-- ===== src/Cmd/Dump.antt =====
-- cmd.c: the dump of a command for debugging. Of what is printed only the bytes that are dumped are
-- kept.
pub mod Shown
pub mod Quiet
use yar.Base.{ℕ, ◌+◌, ◌-◌, ◌%◌, ◌^◌, Bool, List, ltb, leb, ◌==◌, if◌then◌else◌}
use yar.Kernel.{dump_call}
use yar.State.{Cmd}
use yar.Monad.{M, undefined, ◌>>=◌, ◌>>◌, pure, halt, call_, get, when}
use yar.Tty.Dump.{tty_dump}
use yar.Cmd.Ring.{bufsize, n_to_i, wrapped, data_start, slice}

-- `hexdump(f, &(this->buf[at]), n)`, which reads no further than the end of the array.
unfoldable pub dump_part : List ℕ → (at n : ℕ) → M (Unit {0})
dump_part buf at n =
    if leb (at + n) bufsize then call_ (dump_call (slice buf at n)) else halt undefined

-- A length that was stored into a `char`, as the `size_t` that it is read as; and the number of
-- bytes that `hexdump` reads for it, which is none for a negative one, as its two counts are ints.
unfoldable pub char_size : ℕ → ℕ
char_size len = if ltb (len % 2 ^ 8) 128 then len % 2 ^ 8 else 2 ^ 64 - (2 ^ 8 - len % 2 ^ 8)

unfoldable pub char_shown : ℕ → ℕ
char_shown len = if ltb (len % 2 ^ 8) 128 then len % 2 ^ 8 else 0

-- The two parts of a buffer that has come round; their lengths are computed in a `size_t`.
unfoldable pub dump_wrapped : List ℕ → (bufn : ℕ) → M (Unit {0})
dump_wrapped buf bufn =
    let start = data_start bufn in
    let len = bufsize - start in
    dump_part buf start (char_shown len)
    >> dump_part buf 0 ((2 ^ 64 + bufsize - char_size len) % 2 ^ 64)

unfoldable pub dump_buf : Cmd → M (Unit {0})
dump_buf this =
    if this.bufn == 0
    then pure tt
    else if wrapped this.bufn
    then dump_wrapped this.buf this.bufn
    else dump_part this.buf 0 this.bufn

unfoldable pub cmd_dump : Cmd → M (Unit {0})
cmd_dump this = do dump_buf this; tty_dump this.cmdtty; tty_dump this.clttty

-- `if (verbose(level)) cmdDump(this, ...)`
unfoldable pub dump_if : (level : ℕ) → Cmd → M (Unit {0})
dump_if level this = do g ← get; when (leb level g.verbose) (cmd_dump this)
