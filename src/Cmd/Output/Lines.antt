-- ===== src/Cmd/Output/Lines.antt =====
-- cmd.c: a byte of output on its way, with the client tty and the broadcast tty open and taking
-- all that is written, and lines buffered.
use yar.Base.{
  join, ℕ, ◌+◌, ◌%◌, ◌^◌, ◌<◌, ◌≡◌, refl, sym, ap, ◌∙◌, ◌≢◌, inl, inr, Bool, true, false, ◌&&◌,
  ◌||◌, Option, some, List, [], ◌∷◌, ◌++◌, append-nil, append_assoc, arith, ltb, leb, ◌==◌, ==_refl,
  lt→ltb, if◌then◌else◌, Bool-cases, length, length-append, take_all,
}
use yar.Kernel.{Fd, write_call}
use yar.State.{Cmd, Globals, Sys}
use yar.Cmd.Dump.{dump_if}
use yar.Monad.{M, ok, ◌>>=◌, ◌>>◌, pure}
use yar.Tty.Io.{same_fd}
use yar.Tty.Io.Writes.{
  WritesAll, wrote_tty, wrote_sys, tty_write_buf-open, sent, sent_self, sent-other,
}
use yar.Cmd.Ring.{n_to_i, store}
use yar.Cmd.Ring.Refine.{Holds, Counted}
use yar.Cmd.Output.{
  bcst_write, match_ready, write_chunks, write_prefix, broadcast_char, process_char,
}

-- Somebody has the broadcast tty open, and it takes all that is written.
pub record BcstOpen (s : Sys) : Type 0 where
  pub opens : s.g.bcsttty.opens ≢ 0
  pub writes : WritesAll s.env s.g.bcsttty.dfd

-- The world after a write to the broadcast tty, and after some.
abbrev pub bcst_sys : List ℕ → Sys → Sys
bcst_sys buf s = record s {
  calls = write_call s.g.bcsttty.dfd buf ∷ s.calls;
  g = record s.g { bcsttty = wrote_tty s.g.bcsttty buf };
}

abbrev pub chunks_sys : List (List ℕ) → Sys → Sys
chunks_sys [] s = s
chunks_sys (bs ∷ rest) s = chunks_sys rest (bcst_sys bs s)

bcst_sys-BcstOpen : (buf : List ℕ) (s : Sys) → BcstOpen s → BcstOpen (bcst_sys buf s)
bcst_sys-BcstOpen buf s b = record { opens = b.opens; writes = record { all = b.writes.all } }

pub bcst_write-open :
    (buf : List ℕ) (s : Sys)
    → BcstOpen s
    → bcst_write buf s ≡ ok (some (length buf)) (bcst_sys buf s)
unfolding bcst_write
bcst_write-open buf s b = rw (tty_write_buf-open s.g.bcsttty buf s b.opens b.writes)

pub write_chunks-open :
    (chunks : List (List ℕ)) (s : Sys)
    → BcstOpen s
    → write_chunks chunks s ≡ ok (length (join chunks)) (chunks_sys chunks s)
unfolding write_chunks
write_chunks-open [] s b = refl
write_chunks-open (bs ∷ rest) s b = rw (
  bcst_write-open bs s b,
  ==_refl (length bs),
  write_chunks-open rest (bcst_sys bs s) (bcst_sys-BcstOpen bs s b),
  length-append bs (join rest),
)

pub sent-chunks_sys :
    (chunks : List (List ℕ)) (s : Sys)
    → sent s.g.bcsttty.dfd (chunks_sys chunks s).calls ≡ sent s.g.bcsttty.dfd s.calls ++ join chunks
sent-chunks_sys [] s = sym (append-nil _)
sent-chunks_sys (bs ∷ rest) s =
    sent-chunks_sys rest (bcst_sys bs s)
    ∙ ap (λ x. x ++ join rest) (sent_self s.g.bcsttty.dfd bs s.calls)
    ∙ append_assoc (sent s.g.bcsttty.dfd s.calls) bs (join rest)

-- The command whose output `hist` has come in: what the buffer holds and how the current line lies.
pub record LineInv (this : Cmd) (hist : List ℕ) : Type 0 where
  pub holds : Holds this.buf hist
  pub count : this.bufn ≡ length hist
  pub line : Counted this.bufn this.bufstart this.bufof

-- What the relaying of lines needs of the rest of the state: the ready string is seen (or none is
-- asked for), both ttys are open and take what is written, lines are buffered, and no dump of the
-- command is asked for.
pub record Relaying (this : Cmd) (p : List ℕ) (s : Sys) : Type 0 where
  pub matched : (s.g.readystrlen == 0 || leb s.g.readystrlen this.readycnt) ≡ true
  pub clt_opens : this.clttty.opens ≢ 0
  pub clt_writes : WritesAll s.env this.clttty.dfd
  pub quiet : leb 3 s.g.verbose ≡ false
  pub bcst : BcstOpen s
  pub apart : same_fd this.clttty.dfd s.g.bcsttty.dfd ≡ false
  pub broadcast : s.g.bcstflg ≡ true
  pub buffered : s.g.linebufferbcst ≡ true
  pub bcst_prefix : this.bcstprefix ≡ some p
  pub prefix_len : this.bcstprefixlen ≡ length p

abbrev pub line_prefix : Globals → List ℕ → List ℕ
line_prefix g p = if g.prefixbcst then p else []

-- The command once `c` is stored and sent to the client tty.
abbrev pub stored : Cmd → ℕ → Cmd
stored this c = record this {
  buf = store this.buf this.bufn c;
  bufn = this.bufn + 1;
  clttty = wrote_tty this.clttty (c ∷ []);
}

unfoldable pub prefix_sys : List ℕ → Sys → Sys
prefix_sys p s = if s.g.prefixbcst && ltb 0 (length p) then bcst_sys p s else s

pub write_prefix-open :
    (this : Cmd) (p : List ℕ) (s : Sys)
    → BcstOpen s
    → this.bcstprefix ≡ some p
    → this.bcstprefixlen ≡ length p
    → write_prefix this s ≡ ok tt (prefix_sys p s)
unfolding write_prefix prefix_sys
write_prefix-open this p s b e len =
    simp (e, len)
      (elim (Bool-cases (s.g.prefixbcst && ltb 0 (length p))) [
        | inl shown ↦
            simp (
              shown,
              take_all (length p) p (omega arith),
              bcst_write-open p s b,
              ==_refl (length p),
            )
        | inr hidden ↦ simp hidden
      ])

pub prefix_sys-BcstOpen : (p : List ℕ) (s : Sys) → BcstOpen s → BcstOpen (prefix_sys p s)
unfolding prefix_sys
prefix_sys-BcstOpen p s b = elim (Bool-cases (s.g.prefixbcst && ltb 0 (length p))) [
  | inl shown ↦ rw shown (bcst_sys-BcstOpen p s b)
  | inr hidden ↦ rw hidden b
]

-- The end of `cmdttyProcessOutput`.
abbrev pub dumped : Option ℕ × Cmd → M (Option ℕ × Cmd)
dumped (n, this) = do dump_if 3 this; pure (n, this)

pub process_char-step :
    (this : Cmd) (c : ℕ) (p : List ℕ) (s : Sys)
    → Relaying this p s
    → this.bufn + 1 < 2 ^ 64
    → process_char this c s
      ≡ (broadcast_char (stored this c) c (n_to_i this.bufn) >>= dumped)
          (wrote_sys this.clttty.dfd (c ∷ []) s)
unfolding process_char match_ready
process_char-step this c p s r small =
    let rolls : ltb this.bufn ((this.bufn + 1) % 2 ^ 64) ≡ true =
      lt→ltb this.bufn ((this.bufn + 1) % 2 ^ 64) (omega arith) in
    simp (r.matched, rolls, tty_write_buf-open this.clttty (c ∷ []) s r.clt_opens r.clt_writes)

-- Writes to the broadcast tty are none to another descriptor.
pub sent_other-chunks_sys :
    (fd : Fd) (chunks : List (List ℕ)) (s : Sys)
    → same_fd s.g.bcsttty.dfd fd ≡ false
    → sent fd (chunks_sys chunks s).calls ≡ sent fd s.calls
sent_other-chunks_sys fd [] s e = refl
sent_other-chunks_sys fd (bs ∷ rest) s e =
    sent_other-chunks_sys fd rest (bcst_sys bs s) e ∙ sent-other s.g.bcsttty.dfd fd bs s.calls e

-- The world's descriptors and flags behind some writes to the broadcast tty are those before.
pub chunks_sys-Relaying :
    (this : Cmd) (p : List ℕ) (chunks : List (List ℕ)) (s : Sys)
    → Relaying this p s
    → Relaying this p (chunks_sys chunks s)
chunks_sys-Relaying this p [] s r = r
chunks_sys-Relaying this p (bs ∷ rest) s r =
    chunks_sys-Relaying this p rest (bcst_sys bs s) (record {
      matched = r.matched;
      clt_opens = r.clt_opens;
      clt_writes = record { all = r.clt_writes.all };
      quiet = r.quiet;
      bcst = bcst_sys-BcstOpen bs s r.bcst;
      apart = r.apart;
      broadcast = r.broadcast;
      buffered = r.buffered;
      bcst_prefix = r.bcst_prefix;
      prefix_len = r.prefix_len;
    })

-- Writing the prefix is writing one chunk, or none.
pub prefix_sys_chunks :
    (p : List ℕ) (s : Sys)
    → (chunks : List (List ℕ)) × (prefix_sys p s ≡ chunks_sys chunks s)
      × (join chunks ≡ line_prefix s.g p)
unfolding prefix_sys
prefix_sys_chunks [] s = ([], simp (and_false s.g.prefixbcst), no_prefix s.g.prefixbcst)
  where
    and_false : (b : Bool) → (b && ltb 0 (length {A = ℕ} [])) ≡ false
    and_false true = refl
    and_false false = refl

    no_prefix : (b : Bool) → ◌≡◌ {A = List ℕ} [] (if b then [] else [])
    no_prefix true = refl
    no_prefix false = refl
prefix_sys_chunks (x ∷ p) s = elim (Bool-cases s.g.prefixbcst) [
  | inl shown ↦ ((x ∷ p) ∷ [], simp (shown, positive), simp shown (append-nil (x ∷ p)))
  | inr hidden ↦ ([], simp hidden, simp hidden)
]
  where
    positive : ltb 0 (length (x ∷ p)) ≡ true
    positive = lt→ltb 0 (length (x ∷ p)) (omega arith)

pub chunks_sys-append :
    (a b : List (List ℕ)) (s : Sys) → chunks_sys b (chunks_sys a s) ≡ chunks_sys (a ++ b) s
chunks_sys-append [] b s = refl
chunks_sys-append (x ∷ a) b s = chunks_sys-append a b (bcst_sys x s)

-- Writes change neither the broadcast tty's descriptor nor the setting of prefixes.
pub chunks_sys-dfd :
    (chunks : List (List ℕ)) (s : Sys) → (chunks_sys chunks s).g.bcsttty.dfd ≡ s.g.bcsttty.dfd
chunks_sys-dfd [] s = refl
chunks_sys-dfd (bs ∷ rest) s = chunks_sys-dfd rest (bcst_sys bs s)

pub chunks_sys-prefixbcst :
    (chunks : List (List ℕ)) (s : Sys) → (chunks_sys chunks s).g.prefixbcst ≡ s.g.prefixbcst
chunks_sys-prefixbcst [] s = refl
chunks_sys-prefixbcst (bs ∷ rest) s = chunks_sys-prefixbcst rest (bcst_sys bs s)
