-- ===== src/Tty/Io/Writes.antt =====
-- tty.c: what `ttyWriteBuf` reports, and its write to a tty that is open.
use yar.Base.{
  ℕ, ◌+◌, ◌%◌, ◌^◌, ◌≡◌, refl, ◌≢◌, ◌⊎◌, Option, some, none, List, [], ◌∷◌, ◌++◌, append-nil, arith,
  true, false, ==_ne, ==_refl, if◌then◌else◌, length,
}
use yar.Kernel.{Fd, Env, History, wrote, write_call}
use yar.State.{Tty, Sys}
use yar.Monad.{ok}
use yar.Tty.Io.{
  Written, written, tty_write_buf, write_result, write_result, same_fd, discard, stamp, gettime,
}

-- write(2) on `fd` takes all it is given, whatever has gone before.
pub record WritesAll (e : Env) (fd : Fd) : Type 0 where
  pub all : (h : History) (bs : List ℕ) → e.write h fd bs ≡ wrote (length bs)

-- The tty after a complete write of `buf`, and the world.
abbrev pub wrote_tty : Tty → List ℕ → Tty
wrote_tty t buf = record t { wbytes = (t.wbytes + length buf) % 2 ^ 64 }

abbrev pub wrote_sys : Fd → List ℕ → Sys → Sys
wrote_sys fd buf s = record s { calls = write_call fd buf ∷ s.calls }

-- A complete write to an open tty.
pub tty_write_buf-open :
    (t : Tty) (buf : List ℕ) (s : Sys)
    → t.opens ≢ 0
    → WritesAll s.env t.dfd
    → tty_write_buf t buf none s
      ≡ ok (written (some (length buf)) (wrote_tty t buf) none) (wrote_sys t.dfd buf s)
unfolding tty_write_buf write_result stamp
tty_write_buf-open t buf s open_tty w =
    rw (==_ne t.opens 0 open_tty, w.all s.calls buf, ==_refl (length buf))

-- The bytes written to `fd`, in the order of the writes.
unfoldable pub sent : Fd → History → List ℕ
sent fd [] = []
sent fd (write_call d bs ∷ h) = sent fd h ++ (if same_fd d fd then bs else [])
sent fd (c ∷ h) = sent fd h

pub same_fd_refl : (fd : Fd) → same_fd fd fd ≡ true
same_fd_refl none = refl
same_fd_refl (some d) = ==_refl d

pub same_fd_comm : (a b : Fd) → same_fd a b ≡ same_fd b a
same_fd_comm none none = refl
same_fd_comm none (some b) = refl
same_fd_comm (some a) none = refl
same_fd_comm (some a) (some b) = ground arith

pub sent_self :
    (fd : Fd) (bs : List ℕ) (h : History) → sent fd (write_call fd bs ∷ h) ≡ sent fd h ++ bs
unfolding sent
sent_self fd bs h = rw (same_fd_refl fd)

pub sent-other :
    (d fd : Fd) (bs : List ℕ) (h : History)
    → same_fd d fd ≡ false
    → sent fd (write_call d bs ∷ h) ≡ sent fd h
unfolding sent
sent-other d fd bs h e = rw (e, append-nil (sent fd h))

-- Whatever the kernel answers, a `ttyWriteBuf` that returns either reports the whole buffer, or
-- reports -1 (no room for it) with the tty and the timestamp as they were.
tty_write_buf_all_or_none :
    (t : Tty) (buf : List ℕ) (ts : Option ℕ) (s s' : Sys) (w : Written)
    → tty_write_buf t buf ts s ≡ ok w s'
    → (w.count ≡ some (length buf)) ⊎ (w ≡ written none t ts)
unfolding tty_write_buf write_result discard stamp gettime
tty_write_buf_all_or_none t buf ts s s' w h = ground arith
