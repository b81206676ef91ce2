-- ===== src/Cmd/Output.antt =====
-- cmd.c: `cmdttyProcessOutput` and `cmdttyDrain`, one byte of a command's output on its way to the
-- client tty and the broadcast tty; with `cmdIsReady` and `decCmdsReadyCnt` of yar.h.
pub mod Lines
pub mod Relay
pub mod Ready
pub mod Stream
pub mod Missed
use yar.Base.{
  ℕ, zero, suc, ◌+◌, ◌-◌, ◌%◌, ◌^◌, Bool, false, ◌&&◌, ◌||◌, not, Option, none, some, List, [], ◌∷◌,
  ltb, leb, ◌==◌, if◌then◌else◌, length, get_or, take,
}
use yar.Kernel.{pos}
use yar.State.{Cmd, Globals}
use yar.Monad.{
  M, aborted, undefined, out_of_fuel, ◌>>=◌, ◌>>◌, pure, halt, assert, get, modify, when, deref,
}
use yar.Tty.Io.{
  tty_write_buf, tty_write_char, no_char, char, char_again, char_failed, tty_read_char,
}
use yar.Cmd.Ring.{n_to_i, store, overflow, line_chunks}
use yar.Cmd.Dump.{dump_if}

abbrev pub is_ready : Globals → Cmd → Bool
is_ready g this = g.readystrlen == 0 || g.readystrlen == this.readycnt

-- With the `assert` that follows each call.
unfoldable pub dec_cmds_ready_cnt : M (Unit {0})
dec_cmds_ready_cnt = do
  g ← get
  if g.readystrlen == 0 then pure tt else do
    assert (ltb 0 g.cmdsreadycnt)
    modify (λ g. record g { cmdsreadycnt = g.cmdsreadycnt - 1 })

-- The int `n` of a write equals `k`.
abbrev pub counts : Option ℕ → ℕ → Bool
counts none k = false
counts (some n) k = n == k

-- `ttyWriteBuf(&GBLS.bcsttty, ...)`
unfoldable pub bcst_write : List ℕ → M (Option ℕ)
bcst_write buf = do
  g ← get
  w ← tty_write_buf g.bcsttty buf none
  modify (λ g. record g { bcsttty = w.tty })
  pure w.count

-- `readycnt` after the byte `c`, for a ready string that is not yet matched whole.
unfoldable pub next_readycnt : List ℕ → ℕ → ℕ → ℕ
next_readycnt readystr readycnt c = if get_or readystr readycnt 0 == c then readycnt + 1 else 0

unfoldable pub match_ready : Cmd → ℕ → M Cmd
match_ready this c = do
  g ← get
  if g.readystrlen == 0 || leb g.readystrlen this.readycnt then pure this else do
    str ← deref g.readystr
    let cnt = next_readycnt str this.readycnt c
    assert (leb cnt g.readystrlen)
    when (cnt == g.readystrlen) (do
      modify (λ g. record g { cmdsreadycnt = g.cmdsreadycnt + 1 })
      assert (leb (g.cmdsreadycnt + 1) (length g.cmds)))
    pure (record this { readycnt = cnt })

-- Each of the writes must be complete; the sum of their lengths.
unfoldable pub write_chunks : List (List ℕ) → M ℕ
write_chunks [] = pure 0
write_chunks (bs ∷ rest) = do
  n ← bcst_write bs
  assert (counts n (length bs))
  k ← write_chunks rest
  pure (length bs + k)

unfoldable pub write_prefix : Cmd → M (Unit {0})
write_prefix this = do
  g ← get
  elim this.bcstprefix [
    | none ↦ pure tt
    | some p ↦
        when (g.prefixbcst && ltb 0 this.bcstprefixlen)
          (do n ← bcst_write (take this.bcstprefixlen p); assert (counts n this.bcstprefixlen))
  ]

-- A complete line goes to the broadcast tty; the next one starts behind it.
unfoldable pub flush_line : Cmd → ℕ → M (Option ℕ × Cmd)
flush_line this end = do
  write_prefix this
  n ← write_chunks (line_chunks this.buf this.bufof this.bufstart end)
  pure (some (1 + n), record this { bufof = 0; bufstart = this.bufn })

-- `this->bufof++` where the buffer has come round to the start of the line: `bufof` is an int.
unfoldable pub count_overflow : Cmd → M Cmd
count_overflow this =
    let n = overflow this.bufn this.bufstart this.bufof in
    if ltb n (2 ^ 31) then pure (record this { bufof = n }) else halt undefined

-- What goes to the broadcast tty for the byte `c`, stored at index `i`.
unfoldable pub broadcast_char : Cmd → (c i : ℕ) → M (Option ℕ × Cmd)
broadcast_char this c i = do
  g ← get
  if not g.bcstflg
      then pure (some 1, this)
      else if not g.linebufferbcst
      then (do n ← bcst_write (c ∷ []); assert (counts n 1); pure (some 2, this))
      else (do t ← count_overflow this; if c == b'\n' then flush_line t i else pure (some 1, t))

-- `cmdttyProcessOutput` once a byte has been read.
unfoldable pub process_char : Cmd → ℕ → M (Option ℕ × Cmd)
process_char this c = do
  this ← match_ready this c
  assert (ltb this.bufn ((this.bufn + 1) % 2 ^ 64))
  let stored = record this { buf = store this.buf this.bufn c; bufn = this.bufn + 1 }
  w ← tty_write_char stored.clttty c none
  assert (counts w.count 1)
  (n, this) ← broadcast_char (record stored { clttty = w.tty }) c (n_to_i this.bufn)
  dump_if 3 this
  pure (n, this)

-- The int that is returned: `none` for -1. A read that gives nothing and leaves `errno` as it was is
-- taken to leave it other than EAGAIN.
unfoldable pub cmdtty_process_output : Cmd → M (Option ℕ × Cmd)
cmdtty_process_output this = do
  (r, tty) ← tty_read_char this.cmdtty none (pos 0)
  elim r [
    | no_char ↦ halt aborted
    | char c ↦ process_char (record this { cmdtty = tty }) c
    | char_again ↦ pure (none, record this { cmdtty = tty })
    | char_failed ↦ halt aborted
  ]

-- `while (cmdttyProcessOutput(this,0)>0);`
unfoldable pub drain_loop : ℕ → Cmd → M Cmd
drain_loop zero this = halt out_of_fuel
drain_loop (suc fuel) this = do
  (n, this) ← cmdtty_process_output this
  elim n [ none ↦ pure this | some zero ↦ pure this | some (suc k) ↦ drain_loop fuel this ]

unfoldable pub cmdtty_drain : Cmd → M Cmd
cmdtty_drain this s = drain_loop s.env.rounds this s
