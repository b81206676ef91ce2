-- ===== src/Cmd/Output/Relay.antt =====
-- cmd.c: what `cmdttyProcessOutput` does with a byte while lines are buffered.
use yar.Base.{
  join-append, join, ℕ, ◌+◌, ◌-◌, ◌^◌, ◌<◌, ◌≡◌, refl, sym, subst, ap, ap₂, ◌∙◌, inl, inr, true,
  false, some, List, [], ◌∷◌, ◌++◌, append-nil, arith, ltb, lt→ltb, leb, ◌==◌, if◌then◌else◌,
  Bool-cases, length, length-append,
}
use yar.State.{Cmd, Sys}
use yar.Monad.{ok}
use yar.Tty.Io.Writes.{wrote_sys, sent, sent_self, sent-other, same_fd_comm}
use yar.Cmd.Ring.{n_to_i, overflow, line_chunks}
use yar.Cmd.Ring.Refine.{Counted, store-Holds, line_tail, line_chunks-line_tail, overflow-Counted}
use yar.Cmd.Dump.{dump_if}
use yar.Cmd.Output.{broadcast_char, count_overflow, flush_line, process_char}
use yar.Cmd.Output.Lines.{
  BcstOpen, chunks_sys-Relaying, chunks_sys-dfd, chunks_sys-prefixbcst, chunks_sys-append,
  prefix_sys_chunks, sent_other-chunks_sys, chunks_sys, write_chunks-open, sent-chunks_sys, LineInv,
  Relaying, line_prefix, stored, prefix_sys, write_prefix-open, prefix_sys-BcstOpen,
  process_char-step,
}

-- The writes of the line that ends with `c`.
abbrev chunks_of : Cmd → ℕ → List (List ℕ)
chunks_of this c =
    line_chunks (stored this c).buf (overflow (this.bufn + 1) this.bufstart this.bufof)
      this.bufstart (n_to_i this.bufn)

-- The command behind a byte inside a line, and behind the end of one.
abbrev inside : Cmd → ℕ → Cmd
inside this c = record (stored this c) { bufof = overflow (this.bufn + 1) this.bufstart this.bufof }

abbrev behind : Cmd → ℕ → Cmd
behind this c = record (stored this c) { bufof = 0; bufstart = this.bufn + 1 }

module _ (this : Cmd) (c : ℕ) (p : List ℕ) (s : Sys) (r : Relaying this p s)
    (small : this.bufn + 1 < 2 ^ 64) where
  sys_clt : Sys
  sys_clt = wrote_sys this.clttty.dfd (c ∷ []) s

  clt-BcstOpen : BcstOpen sys_clt
  unfolding sys_clt
  clt-BcstOpen = record { opens = r.bcst.opens; writes = record { all = r.bcst.writes.all } }

  process_char-inside :
      (c == b'\n') ≡ false
      → ltb (overflow (this.bufn + 1) this.bufstart this.bufof) (2 ^ 31) ≡ true
      → process_char this c s ≡ ok (some 1, inside this c) sys_clt
  unfolding broadcast_char count_overflow dump_if sys_clt
  process_char-inside e fits =
      process_char-step this c p s r small ∙ simp (r.broadcast, r.buffered, e, fits, r.quiet)

  quiet_behind : leb 3 (chunks_sys (chunks_of this c) (prefix_sys p sys_clt)).g.verbose ≡ false
  unfolding sys_clt
  quiet_behind =
      let (chunks, eq, shown) = prefix_sys_chunks p sys_clt in
      rw (eq, chunks_sys-append chunks (chunks_of this c) sys_clt)
        (chunks_sys-Relaying this p (chunks ++ chunks_of this c) sys_clt (record {
          matched = r.matched;
          clt_opens = r.clt_opens;
          clt_writes = record { all = r.clt_writes.all };
          quiet = r.quiet;
          bcst = clt-BcstOpen;
          apart = r.apart;
          broadcast = r.broadcast;
          buffered = r.buffered;
          bcst_prefix = r.bcst_prefix;
          prefix_len = r.prefix_len;
        })).quiet

  process_char-behind :
      (c == b'\n') ≡ true
      → ltb (overflow (this.bufn + 1) this.bufstart this.bufof) (2 ^ 31) ≡ true
      → process_char this c s
        ≡ ok
            (some (1 + length (join (chunks_of this c))), behind this c)
            (chunks_sys (chunks_of this c) (prefix_sys p sys_clt))
  unfolding broadcast_char count_overflow flush_line dump_if sys_clt
  process_char-behind e fits =
      process_char-step this c p s r small
      ∙ simp (
        r.broadcast,
        r.buffered,
        e,
        fits,
        write_prefix-open (inside this c) p sys_clt clt-BcstOpen r.bcst_prefix r.prefix_len,
        write_chunks-open (chunks_of this c) (prefix_sys p sys_clt)
            (prefix_sys-BcstOpen p sys_clt clt-BcstOpen),
        quiet_behind,
      )

  stored-LineInv_holds :
      (hist : List ℕ)
      → LineInv this hist
      → (bufof bufstart : ℕ) → Counted (this.bufn + 1) bufstart bufof
      → LineInv (record (stored this c) { bufof = bufof; bufstart = bufstart }) (hist ++ (c ∷ []))
  stored-LineInv_holds hist inv bufof bufstart counted = record {
    holds = rw inv.count (store-Holds inv.holds c);
    count = omega (arith, inv.count, length-append hist (c ∷ []));
    line = counted;
  }

  -- The bytes of the writes for the line that `c` ends.
  chunks_of-line_tail :
      (hist : List ℕ)
      → LineInv this hist
      → join (chunks_of this c) ≡ line_tail (hist ++ (c ∷ [])) this.bufstart
  chunks_of-line_tail hist inv =
      let more : length (hist ++ (c ∷ [])) ≡ this.bufn + 1 =
        omega (arith, inv.count, length-append hist (c ∷ [])) in
      let last : length (hist ++ (c ∷ [])) - 1 ≡ this.bufn = omega (arith, more) in
      let counted : Counted (length (hist ++ (c ∷ []))) this.bufstart
          (overflow (this.bufn + 1) this.bufstart this.bufof) =
        subst (λ n. Counted n this.bufstart (overflow (this.bufn + 1) this.bufstart this.bufof))
          (sym more) (overflow-Counted this.bufn this.bufstart this.bufof inv.line) in
      let holds =
        (stored-LineInv_holds hist inv (overflow (this.bufn + 1) this.bufstart this.bufof)
          this.bufstart (overflow-Counted this.bufn this.bufstart this.bufof inv.line)).holds in
      subst
        (λ n.
          join (
            line_chunks (stored this c).buf (overflow (this.bufn + 1) this.bufstart this.bufof)
              this.bufstart (n_to_i n))
          ≡ line_tail (hist ++ (c ∷ [])) this.bufstart)
        last
        (line_chunks-line_tail this.bufstart (overflow (this.bufn + 1) this.bufstart this.bufof)
          holds (omega (arith, more, inv.line)) counted)

  clt-Relaying :
      (bufof bufstart : ℕ)
      → Relaying (record (stored this c) { bufof = bufof; bufstart = bufstart }) p sys_clt
  unfolding sys_clt
  clt-Relaying bufof bufstart = record {
    matched = r.matched;
    clt_opens = r.clt_opens;
    clt_writes = record { all = r.clt_writes.all };
    quiet = r.quiet;
    bcst = clt-BcstOpen;
    apart = r.apart;
    broadcast = r.broadcast;
    buffered = r.buffered;
    bcst_prefix = r.bcst_prefix;
    prefix_len = r.prefix_len;
  }

-- What a byte sends to the broadcast tty: at the end of a line the prefix, if prefixes are on, and
-- the last 4096 bytes of the line; nothing otherwise.
abbrev pub line_out : Cmd → List ℕ → ℕ → List ℕ → Sys → List ℕ
line_out this hist c p s =
    if c == b'\n' then line_prefix s.g p ++ line_tail (hist ++ (c ∷ [])) this.bufstart else []

-- The outcome of one byte: the command `t` and the state `s'` that it leaves.
pub record LineStep (this : Cmd) (hist : List ℕ) (c : ℕ) (p : List ℕ) (s : Sys) (t : Cmd) (s' : Sys)
    : Type 0 where
  pub inv : LineInv t (hist ++ (c ∷ []))
  pub relaying : Relaying t p s'
  pub client : sent this.clttty.dfd s'.calls ≡ sent this.clttty.dfd s.calls ++ (c ∷ [])
  pub bcast :
      sent s.g.bcsttty.dfd s'.calls ≡ sent s.g.bcsttty.dfd s.calls ++ line_out this hist c p s
  pub client_fd : t.clttty.dfd ≡ this.clttty.dfd
  pub bcast_fd : s'.g.bcsttty.dfd ≡ s.g.bcsttty.dfd
  pub prefixes : s'.g.prefixbcst ≡ s.g.prefixbcst
  pub next_line : t.bufstart ≡ (if c == b'\n' then length hist + 1 else this.bufstart)

module _ (this : Cmd) (hist : List ℕ) (c : ℕ) (p : List ℕ) (s : Sys) (r : Relaying this p s)
    (inv : LineInv this hist) (small : length hist + 1 < 2 ^ 43) where
  bufn_small : this.bufn + 1 < 2 ^ 64
  bufn_small = omega (arith, inv.count)

  fits : ltb (overflow (this.bufn + 1) this.bufstart this.bufof) (2 ^ 31) ≡ true
  fits =
      let (le, e) = overflow-Counted this.bufn this.bufstart this.bufof inv.line in
      lt→ltb (overflow (this.bufn + 1) this.bufstart this.bufof) (2 ^ 31)
        (omega (arith, e, le, inv.count))

  inside-LineStep :
      (c == b'\n') ≡ false
      → LineStep this hist c p s (inside this c) (sys_clt this c p s r bufn_small)
  unfolding sys_clt
  inside-LineStep e = record {
    inv =
        stored-LineInv_holds this c p s r bufn_small hist inv
          (overflow (this.bufn + 1) this.bufstart this.bufof) this.bufstart
          (overflow-Counted this.bufn this.bufstart this.bufof inv.line);
    relaying =
        clt-Relaying this c p s r bufn_small (overflow (this.bufn + 1) this.bufstart this.bufof)
          this.bufstart;
    client = sent_self this.clttty.dfd (c ∷ []) s.calls;
    bcast =
        sent-other this.clttty.dfd s.g.bcsttty.dfd (c ∷ []) s.calls r.apart
        ∙ sym (simp (e, append-nil (sent s.g.bcsttty.dfd s.calls)));
    client_fd = refl;
    bcast_fd = refl;
    prefixes = refl;
    next_line = simp e;
  }

  behind-LineStep :
      (c == b'\n') ≡ true
      → (chunks : List (List ℕ)) → join chunks ≡ line_prefix s.g p
      → LineStep this hist c p s
          (behind this c)
          (chunks_sys (chunks_of this c) (chunks_sys chunks (sys_clt this c p s r bufn_small)))
  unfolding sys_clt
  behind-LineStep e chunks shown = record {
    inv =
        stored-LineInv_holds this c p s r bufn_small hist inv 0 (this.bufn + 1)
          (omega arith, omega arith);
    relaying = chunks_sys-Relaying (behind this c) p (chunks_of this c) (chunks_sys chunks s₁) (
        chunks_sys-Relaying (behind this c) p chunks s₁
          (clt-Relaying this c p s r bufn_small 0 (this.bufn + 1)));
    client = rw (chunks_sys-append chunks (chunks_of this c) s₁) (
        sent_other-chunks_sys this.clttty.dfd (chunks ++ chunks_of this c) s₁
          (same_fd_comm s.g.bcsttty.dfd this.clttty.dfd ∙ r.apart)
        ∙ sent_self this.clttty.dfd (c ∷ []) s.calls);
    bcast = rw (chunks_sys-append chunks (chunks_of this c) s₁) (
        sent-chunks_sys (chunks ++ chunks_of this c) s₁
        ∙ ap₂ ◌++◌ (sent-other this.clttty.dfd s.g.bcsttty.dfd (c ∷ []) s.calls r.apart) bytes);
    client_fd = refl;
    bcast_fd =
        rw (chunks_sys-append chunks (chunks_of this c) s₁)
          (chunks_sys-dfd (chunks ++ chunks_of this c) s₁);
    prefixes =
        rw (chunks_sys-append chunks (chunks_of this c) s₁)
          (chunks_sys-prefixbcst (chunks ++ chunks_of this c) s₁);
    next_line = simp (e, inv.count);
  }
    where
      s₁ : Sys
      s₁ = wrote_sys this.clttty.dfd (c ∷ []) s

      bytes : join (chunks ++ chunks_of this c) ≡ line_out this hist c p s
      bytes =
          join-append chunks (chunks_of this c)
          ∙ ap₂ ◌++◌ shown (chunks_of-line_tail this c p s r bufn_small hist inv)
          ∙ simp e

-- With the broadcast tty in use and lines buffered, both ttys open on different descriptors and
-- taking what is written, the ready string seen or not asked for, a verbosity below 3, and fewer
-- than 2 ^ 43 bytes in all: a byte `c` from a command whose earlier output was `hist` is processed without fault; the
-- client tty gets `c`; the broadcast tty gets nothing unless `c` ends a line, and then the prefix,
-- if prefixes are on, and the last 4096 bytes of the line in order, wherever the line lies in the
-- circular buffer; and the same holds of the command afterwards, with `c` added to its output.
pub process_char-LineStep :
    (this : Cmd) (hist : List ℕ) (c : ℕ) (p : List ℕ) (s : Sys)
    → Relaying this p s
    → LineInv this hist
    → length hist + 1 < 2 ^ 43
    → (n : ℕ) × (t : Cmd) × (s' : Sys) × (process_char this c s ≡ ok (some n, t) s')
      × LineStep this hist c p s t s'
unfolding sys_clt
process_char-LineStep this hist c p s r inv small =
    let bs : this.bufn + 1 < 2 ^ 64 = bufn_small this hist c p s r inv small in
    elim (Bool-cases (c == b'\n')) [
      | inl e ↦
          let (chunks, eq, shown) = prefix_sys_chunks p (sys_clt this c p s r bs) in
          (
            1 + length (join (chunks_of this c)),
            behind this c,
            chunks_sys (chunks_of this c) (chunks_sys chunks (sys_clt this c p s r bs)),
            process_char-behind this c p s r bs e (fits this hist c p s r inv small)
                ∙ ap
                    (λ x.
                      ok (some (1 + length (join (chunks_of this c))), behind this c)
                        (chunks_sys (chunks_of this c) x))
                    eq,
            behind-LineStep this hist c p s r inv small e chunks shown,
          )
      | inr e ↦ (
        1,
        inside this c,
        sys_clt this c p s r bs,
        process_char-inside this c p s r bs e (fits this hist c p s r inv small),
        inside-LineStep this hist c p s r inv small e,
      )
    ]
