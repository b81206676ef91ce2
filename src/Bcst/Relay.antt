-- ===== src/Bcst/Relay.antt =====
-- main.c: `GBLSCmdsWriteChar` writes a byte to every command.
use yar.Base.{
  ℕ, ◌≡◌, refl, sym, ap, ◌∙◌, Bool, true, false, not, ◌&&◌, Option, some, none, List, [], ◌∷◌, ◌++◌,
  append_assoc, append-nil, is_some, length, arith, ◌==◌, ==_refl, ==_iff,
}
use mathlib.Core.Option.{get_or}
use yar.Kernel.{Fd, Env, History, write_call, gettime_call}
use yar.State.{Sys, Cmd, Tty}
use yar.Monad.{M, ok, ◌>>=◌, ◌>>◌, pure, deref, assert, for_each, and_then}
use yar.Tty.Io.{written, tty_write_char, tty_write_buf, write_result, stamp, gettime}
use yar.Tty.Io.Writes.{WritesAll, wrote_tty}
use yar.Cmd.Output.{counts}
use yar.Cmd.Stop.{cmd_write_char}
use yar.Registry.{find_addr, replace, addrs, load_cmd, save_cmd, on_cmd, for_cmds}
use yar.Registry.Table.{absent, apart}
use yar.Bcst.{cmds_write_char}

-- The writes among the calls, in order.
unfoldable pub writes : History → List (Fd × List ℕ)
writes [] = []
writes (write_call fd bs ∷ h) = writes h ++ ((fd, bs) ∷ [])
writes (c ∷ h) = writes h

-- What a byte sent to each of the commands comes to.
abbrev pub sends : ℕ → List Cmd → List (Fd × List ℕ)
sends c [] = []
sends c (cmd ∷ cmds) = (cmd.cmdtty.dfd, c ∷ []) ∷ sends c cmds

-- Each command's tty is open.
abbrev pub all_open : List Cmd → Bool
all_open [] = true
all_open (cmd ∷ cmds) = not (cmd.cmdtty.opens == 0) && all_open cmds

-- Every write takes what it is given, and the clock can be read.
pub record Serving (e : Env) : Type 0 where
  pub takes : (fd : Fd) → WritesAll e fd
  pub clock : (h : History) → is_some (e.gettime h) ≡ true

some_time : (o : Option ℕ) → is_some o ≡ true → (n : ℕ) × (o ≡ some n)
some_time none h = absurd (cc)
some_time (some n) h = (n, refl)

abbrev called : Sys → Fd → ℕ → Sys
called s fd c = record s { calls = gettime_call ∷ write_call fd (c ∷ []) ∷ s.calls }

tty_write_char-timed :
    (t : Tty) (c : ℕ) (ts now : ℕ) (s : Sys)
    → (t.opens == 0) ≡ false
    → WritesAll s.env t.dfd
    → s.env.gettime (write_call t.dfd (c ∷ []) ∷ s.calls) ≡ some now
    → tty_write_char t c (some ts) s
      ≡ ok (written (some 1) (wrote_tty t (c ∷ [])) (some now)) (called s t.dfd c)
unfolding tty_write_buf write_result stamp gettime
tty_write_char-timed t c ts now s opened w time = rw (opened, w.all s.calls (c ∷ []), time)

abbrev written_cmd : Cmd → ℕ → ℕ → Cmd
written_cmd cmd c now = record cmd { cmdtty = wrote_tty cmd.cmdtty (c ∷ []); lastwrite = now }

cmd_write_char-timed :
    (cmd : Cmd) (c now : ℕ) (s : Sys)
    → (cmd.cmdtty.opens == 0) ≡ false
    → WritesAll s.env cmd.cmdtty.dfd
    → s.env.gettime (write_call cmd.cmdtty.dfd (c ∷ []) ∷ s.calls) ≡ some now
    → cmd_write_char cmd c s ≡ ok (some 1, written_cmd cmd c now) (called s cmd.cmdtty.dfd c)
unfolding cmd_write_char
cmd_write_char-timed cmd c now s opened w time =
    ap
      (λ r.
        and_then r (λ w.
          pure (w.count, record cmd { cmdtty = w.tty; lastwrite = get_or w.ts cmd.lastwrite })))
      (tty_write_char-timed cmd.cmdtty c cmd.lastwrite now s opened w time)

absent-middle :
    (p : ℕ) (xs ys : List Cmd) (cmd : Cmd)
    → absent p (addrs (xs ++ (cmd ∷ ys))) ≡ true
    → (p == cmd.addr) ≡ false
unfolding absent
absent-middle p [] ys cmd h = ground arith
absent-middle p (x ∷ xs) ys cmd h =
    let rest : absent p (addrs (xs ++ (cmd ∷ ys))) ≡ true = ground arith in
    absent-middle p xs ys cmd rest

-- The object at an address that no object in front of it has.
at_address :
    (xs ys : List Cmd) (cmd cmd' : Cmd)
    → cmd'.addr ≡ cmd.addr
    → apart (addrs (xs ++ (cmd ∷ ys))) ≡ true
    → (find_addr (xs ++ (cmd ∷ ys)) cmd.addr ≡ some cmd)
      × (replace (xs ++ (cmd ∷ ys)) cmd' ≡ xs ++ (cmd' ∷ ys))
unfolding find_addr replace apart
at_address [] ys cmd cmd' same far =
    let hit : (cmd.addr == cmd'.addr) ≡ true = (==_iff cmd.addr cmd'.addr).1 (sym same) in
    (simp (==_refl cmd.addr) refl, simp hit refl)
at_address (x ∷ xs) ys cmd cmd' same far =
    let away : absent x.addr (addrs (xs ++ (cmd ∷ ys))) ≡ true = ground arith in
    let more : apart (addrs (xs ++ (cmd ∷ ys))) ≡ true = ground arith in
    let miss : (x.addr == cmd.addr) ≡ false = absent-middle x.addr xs ys cmd away in
    let miss' : (x.addr == cmd'.addr) ≡ false = ap (λ a. x.addr == a) same ∙ miss in
    let (found, replaced) = at_address xs ys cmd cmd' same more in
    (simp miss found, simp miss' (ap (λ cs. x ∷ cs) replaced))

addrs-append :
    (xs ys : List Cmd) (cmd cmd' : Cmd)
    → cmd'.addr ≡ cmd.addr
    → addrs (xs ++ (cmd' ∷ ys)) ≡ addrs (xs ++ (cmd ∷ ys))
addrs-append [] ys cmd cmd' same = ap (λ a. a ∷ addrs ys) same
addrs-append (x ∷ xs) ys cmd cmd' same = ap (λ ps. x.addr ∷ ps) (addrs-append xs ys cmd cmd' same)

abbrev with_table : Sys → List Cmd → Sys
with_table s cs = record s { g = record s.g { cmds = cs } }

abbrev send : ℕ → ℕ → M (Unit {0})
send c p = do n ← on_cmd p (λ this. cmd_write_char this c); assert (counts n 1)

send-step :
    (xs ys : List Cmd) (cmd : Cmd) (c now : ℕ) (s : Sys)
    → apart (addrs (xs ++ (cmd ∷ ys))) ≡ true
    → (cmd.cmdtty.opens == 0) ≡ false
    → WritesAll s.env cmd.cmdtty.dfd
    → s.env.gettime (write_call cmd.cmdtty.dfd (c ∷ []) ∷ s.calls) ≡ some now
    → send c cmd.addr (with_table s (xs ++ (cmd ∷ ys)))
      ≡ ok tt (with_table (called s cmd.cmdtty.dfd c) (xs ++ (written_cmd cmd c now ∷ ys)))
unfolding on_cmd load_cmd save_cmd
send-step xs ys cmd c now s far opened w time =
    let t : Sys = with_table s (xs ++ (cmd ∷ ys)) in
    let (found, replaced) = at_address xs ys cmd (written_cmd cmd c now) refl far in
    ap
      (λ o.
        and_then
          (and_then (deref o t)
            (λ this. cmd_write_char this c >>= λ r. let (n, this') = r in save_cmd this' >> pure n))
          (λ n. assert (counts n 1)))
      found
    ∙ ap
        (λ r.
          and_then (and_then r (λ r. let (n, this') = r in save_cmd this' >> pure n))
            (λ n. assert (counts n 1)))
        (cmd_write_char-timed cmd c now t opened w time)
    ∙ ap (λ cs. ok tt (with_table (called s cmd.cmdtty.dfd c) cs)) replaced

-- All that is left to write to, behind the commands `xs` that have been written to.
send_rest :
    (xs ys : List Cmd) (c : ℕ) (s : Sys)
    → Serving s.env
    → all_open ys ≡ true
    → apart (addrs (xs ++ ys)) ≡ true
    → (s' : Sys) × (for_each (addrs ys) (send c) (with_table s (xs ++ ys)) ≡ ok tt s')
      × (writes s'.calls ≡ writes s.calls ++ sends c ys)
      × (addrs s'.g.cmds ≡ addrs (xs ++ ys))
unfolding writes
send_rest xs [] c s e opened far =
    (with_table s (xs ++ []), refl, sym (append-nil (writes s.calls)), refl)
send_rest xs (cmd ∷ ys) c s e opened far =
    let o : (cmd.cmdtty.opens == 0) ≡ false = ground arith in
    let os : all_open ys ≡ true = ground arith in
    let fd : Fd = cmd.cmdtty.dfd in
    let (now, time) = some_time (s.env.gettime (write_call fd (c ∷ []) ∷ s.calls)) (e.clock _) in
    let cmd' = written_cmd cmd c now in
    let split : (xs ++ (cmd' ∷ [])) ++ ys ≡ xs ++ (cmd' ∷ ys) = append_assoc xs (cmd' ∷ []) ys in
    let same : addrs ((xs ++ (cmd' ∷ [])) ++ ys) ≡ addrs (xs ++ (cmd ∷ ys)) =
      ap addrs split ∙ addrs-append xs ys cmd cmd' refl in
    let (s', run, sent, table) =
      send_rest (xs ++ (cmd' ∷ [])) ys c (called s fd c) e os (ap apart same ∙ far) in
    let step = send-step xs ys cmd c now s far o (e.takes fd) time in
    (
      s',
      ap (λ r. and_then r (λ u. for_each (addrs ys) (send c))) step
          ∙ ap (λ cs. for_each (addrs ys) (send c) (with_table (called s fd c) cs)) (sym split)
          ∙ run,
      sent ∙ append_assoc (writes s.calls) ((fd, c ∷ []) ∷ []) (sends c ys),
      table ∙ same,
    )

-- If each command's tty is open, every write takes what it is given, the clock can be read, and no
-- two commands are at the same address: a byte read from the broadcast tty is written once to each
-- command, in the order of the table, and to nothing else; the number of commands is reported, and
-- the table keeps its commands.
pub cmds_write_char-sends :
    (c : ℕ) (s : Sys)
    → Serving s.env
    → all_open s.g.cmds ≡ true
    → apart (addrs s.g.cmds) ≡ true
    → (s' : Sys) × (cmds_write_char c s ≡ ok (length s.g.cmds) s')
      × (writes s'.calls ≡ writes s.calls ++ sends c s.g.cmds)
      × (addrs s'.g.cmds ≡ addrs s.g.cmds)
unfolding cmds_write_char for_cmds
cmds_write_char-sends c s e opened far =
    let (s', run, sent, table) = send_rest [] s.g.cmds c s e opened far in
    (s', ap (λ r. and_then r (λ u. λ t. ok (length s.g.cmds) t)) run, sent, table)
