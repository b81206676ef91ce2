-- ===== src/Tty/Io.antt =====
-- tty.c and tty.h: reading, writing and open counts of a tty.
pub mod Discard
pub mod Writes
use yar.Base.{
  ℕ, ◌+◌, ◌-◌, ◌%◌, ◌^◌, Bool, true, false, ◌&&◌, ◌||◌, Option, none, some, List, [], ◌∷◌, ◌++◌,
  ltb, leb, ◌==◌, if◌then◌else◌, length, take, drop,
}
use yar.Kernel.{
  Fd, ℤ, pos, negsuc, Env, WriteRet, wrote, write_again, write_failed, got, at_end, read_again,
  read_failed, write_call, read_call, gettime_call, inotify_read_call,
}
use yar.State.{Tty}
use yar.Monad.{M, aborted, undefined, ◌>>=◌, ◌>>◌, pure, halt, assert, call, need}
use yar.Tty.{discards_size}

-- `clock_gettime` under an `NYI` on failure, in nanoseconds.
unfoldable pub gettime : M ℕ
gettime = do r ← call gettime_call (λ (e : Env) h. e.gettime h); need r

-- The int `used` of `ttyWriteBuf`: the low 32 bits of `wdbytes`; it is negative from 2 ^ 31 on.
abbrev pub used32 : Tty → ℕ
used32 this = this.wdbytes % 2 ^ 32

-- The int `free`: `sizeof(discards) - used` cut to 32 bits, and 0 if that is negative.
unfoldable pub free_room : Tty → ℕ
free_room this =
    let free = (2 ^ 32 + discards_size - used32 this) % 2 ^ 32 in
    if ltb free (2 ^ 31) then free else 0

-- The bytes of `buf` that the branch copies.
unfoldable pub copied : Tty → List ℕ → ℕ
copied this buf = if leb (length buf) (free_room this) then length buf else free_room this

-- `memcpy(&d[at], bs, n)` over an array, inside its bounds.
abbrev pub copy_at : List ℕ → ℕ → List ℕ → List ℕ
copy_at d at bs = take at d ++ (bs ++ drop (at + length bs) d)

-- The branch of `ttyWriteBuf` for a tty that nobody has open. A copy to a negative index, or past
-- the end of `discards`, is undefined.
unfoldable pub discard : Tty → List ℕ → M Tty
discard this buf =
    let nb = copied this buf in
    let t = record this {
      discards = copy_at this.discards (used32 this) (take nb buf);
      wdbytes = (this.wdbytes + length buf) % 2 ^ 64;
    } in
    if nb == 0
    then pure (record this { wdbytes = (this.wdbytes + length buf) % 2 ^ 64 })
    else if ltb (used32 this) (2 ^ 31) && leb (used32 this + nb) discards_size
    then pure t
    else halt undefined

-- A timestamp argument: `none` is a null pointer.
unfoldable pub stamp : Option ℕ → M (Option ℕ)
stamp none = pure none
stamp (some old) = do t ← gettime; pure (some t)

-- The result of `ttyWriteBuf`: its int (`none` for -1), `*this` and `*ts`.
pub record Written : Type 0 where
  pub count : Option ℕ
  pub tty : Tty
  pub ts : Option ℕ

abbrev pub written : Option ℕ → Tty → Option ℕ → Written
written n t ts = record { count = n; tty = t; ts = ts }

-- What follows the `write` call: only a complete write is taken, or EAGAIN.
unfoldable pub write_result : Tty → List ℕ → Option ℕ → WriteRet → M Written
write_result this buf ts write_again = pure (written none this ts)
write_result this buf ts write_failed = halt aborted
write_result this buf ts (wrote n) =
    if n == length buf
    then (do
      ts' ← stamp ts
      pure (written (some n) (record this { wbytes = (this.wbytes + n) % 2 ^ 64 }) ts'))
    else halt aborted

unfoldable pub tty_write_buf : Tty → List ℕ → Option ℕ → M Written
tty_write_buf this buf ts =
    if this.opens == 0
    then (do t ← discard this buf; pure (written (some (length buf)) t ts))
    else do
      r ← call (write_call this.dfd buf) (λ (e : Env) h. e.write h this.dfd buf)
      write_result this buf ts r

abbrev pub tty_write_char : Tty → ℕ → Option ℕ → M Written
tty_write_char this c ts = tty_write_buf this (c ∷ []) ts

-- The int that `ttyReadChar` returns, with `*c` where it is 1. The cases of -1 tell `errno`.
pub data CharRet : Type 0 where
  no_char : CharRet
  char : ℕ → CharRet
  char_again char_failed : CharRet

-- `ts && (delay > 0.0)` and `diff < delay`.
abbrev pub too_soon : ℕ → Option ℕ → ℤ → Bool
too_soon now none delay = false
too_soon now (some last) (negsuc d) = false
too_soon now (some last) (pos d) = ltb 0 d && ltb now (last + d)

unfoldable pub tty_read_char : Tty → Option ℕ → ℤ → M (CharRet × Tty)
tty_read_char this ts delay = do
  now ← gettime
  if too_soon now ts delay
      then pure (no_char, record this { delaycnt = (this.delaycnt + 1) % 2 ^ 64 })
      else do
        r ← call (read_call this.dfd) (λ (e : Env) h. e.read h this.dfd)
        elim r [
          | got c ↦ pure (char c, record this { rbytes = (this.rbytes + 1) % 2 ^ 64 })
          | at_end ↦ pure (no_char, this)
          | read_again ↦ pure (char_again, this)
          | read_failed ↦ pure (char_failed, this)
        ]

-- The inotify masks, which the code compares whole.
abbrev pub in_open : ℕ
in_open = 0x20

abbrev pub in_close_write : ℕ
in_close_write = 0x8

abbrev pub in_close_nowrite : ℕ
in_close_nowrite = 0x10

abbrev pub is_close : ℕ → Bool
is_close mask = mask == in_close_write || mask == in_close_nowrite

abbrev pub same_fd : Fd → Fd → Bool
same_fd none none = true
same_fd none (some b) = false
same_fd (some a) none = false
same_fd (some a) (some b) = a == b

-- `ttyNotifyEvent` on EPOLLIN up to the call of the external handler: the event's mask, and the
-- tty with its count of opens. A close at 0 leaves the count.
unfoldable pub tty_notify : Tty → M (ℕ × Tty)
tty_notify this = do
  r ← call (inotify_read_call this.ifd) (λ (e : Env) h. e.inotify_read h this.ifd)
  elim r [
    | none ↦ halt aborted
    | some (wd, mask) ↦
        assert (same_fd wd this.iwd)
        >> (if mask == in_open
            then pure (mask, record this { opens = this.opens + 1 })
            else if is_close mask
            then pure (mask, record this { opens = this.opens - 1 })
            else halt aborted)
  ]
