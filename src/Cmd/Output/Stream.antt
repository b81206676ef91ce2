-- ===== src/Cmd/Output/Stream.antt =====
-- cmd.c: a command's output, byte after byte, while lines are buffered.
use yar.Base.{
  ℕ, ◌+◌, ◌^◌, ◌<◌, ◌≡◌, refl, sym, subst, ap, ap₂, ◌∙◌, List, [], ◌∷◌, ◌++◌, append-nil,
  append_assoc, arith, ◌==◌, if◌then◌else◌, length, length-append,
}
use yar.State.{Cmd, Sys}
use yar.Monad.{M, ok, ◌>>=◌, pure}
use yar.Tty.Io.Writes.{sent}
use yar.Cmd.Ring.Refine.{line_tail}
use yar.Cmd.Output.{process_char}
use yar.Cmd.Output.Lines.{LineInv, Relaying, line_prefix}
use yar.Cmd.Output.Relay.{LineStep, line_out, process_char-LineStep}

-- The bytes `cs` of output, one `cmdttyProcessOutput` for each.
unfoldable pub process_all : Cmd → List ℕ → M Cmd
process_all this [] = pure this
process_all this (c ∷ cs) = do (n, this) ← process_char this c; process_all this cs

-- What the broadcast tty is to get for `cs` after the output `hist`, with the current line from
-- `start` on: each complete line, cut to its last 4096 bytes, behind its prefix `p`.
unfoldable pub lines_out : List ℕ → (start : ℕ) → List ℕ → (p : List ℕ) → List ℕ
lines_out hist start [] p = []
lines_out hist start (c ∷ cs) p =
    (if c == b'\n' then p ++ line_tail (hist ++ (c ∷ [])) start else [])
    ++ lines_out (hist ++ (c ∷ [])) (if c == b'\n' then length hist + 1 else start) cs p

-- A run of bytes: the client tty has got all of them, in order, the broadcast tty the complete
-- lines, and the command is as at the beginning, with the bytes added to its output.
pub record Streamed (this : Cmd) (hist cs p : List ℕ) (s : Sys) (t : Cmd) (s' : Sys) : Type 0 where
  pub inv : LineInv t (hist ++ cs)
  pub relaying : Relaying t p s'
  pub client : sent this.clttty.dfd s'.calls ≡ sent this.clttty.dfd s.calls ++ cs
  pub bcast :
      sent s.g.bcsttty.dfd s'.calls
      ≡ sent s.g.bcsttty.dfd s.calls ++ lines_out hist this.bufstart cs (line_prefix s.g p)

Streamed-step :
    {this u t : Cmd} {hist cs p : List ℕ} {c : ℕ} {s s1 s' : Sys}
    → LineStep this hist c p s u s1
    → Streamed u (hist ++ (c ∷ [])) cs p s1 t s'
    → Streamed this hist (c ∷ cs) p s t s'
unfolding lines_out
Streamed-step {this} {u} {t} {hist} {cs} {p} {c} {s} {s1} {s'} step rest = record {
  inv = subst (LineInv t) (append_assoc hist (c ∷ []) cs) rest.inv;
  relaying = rest.relaying;
  client =
      subst (λ fd. sent fd s'.calls ≡ sent fd s1.calls ++ cs) step.client_fd rest.client
      ∙ ap (λ x. x ++ cs) step.client
      ∙ append_assoc (sent this.clttty.dfd s.calls) (c ∷ []) cs;
  bcast =
      subst (λ fd. sent fd s'.calls ≡ sent fd s1.calls ++ more) step.bcast_fd rest.bcast
      ∙ ap (λ x. x ++ more) step.bcast
      ∙ append_assoc (sent s.g.bcsttty.dfd s.calls) (line_out this hist c p s) more
      ∙ ap (λ x. sent s.g.bcsttty.dfd s.calls ++ (line_out this hist c p s ++ x)) same;
}
  where
    more : List ℕ
    more = lines_out (hist ++ (c ∷ [])) u.bufstart cs (line_prefix s1.g p)

    same :
        more
        ≡ lines_out
            (hist ++ (c ∷ []))
            (if c == b'\n' then length hist + 1 else this.bufstart)
            cs
            (line_prefix s.g p)
    same =
        ap₂ (λ start pre. lines_out (hist ++ (c ∷ [])) start cs pre) step.next_line
          (ap (λ b. if b then p else []) step.prefixes)

-- With the broadcast tty in use and lines buffered, both ttys open on different descriptors and
-- taking what is written, the ready string seen or not asked for, a verbosity below 3, and fewer
-- than 2 ^ 43 bytes in all: the output `cs` of a command, behind `hist`, is processed without fault; the client tty gets
-- exactly these bytes in order, and the broadcast tty gets the lines completed by them, each cut to
-- its last 4096 bytes and behind the prefix if prefixes are on.
pub process_all-Streamed :
    (this : Cmd) (hist cs p : List ℕ) (s : Sys)
    → Relaying this p s
    → LineInv this hist
    → length hist + length cs < 2 ^ 43
    → (t : Cmd) × (s' : Sys) × (process_all this cs s ≡ ok t s') × Streamed this hist cs p s t s'
unfolding process_all lines_out
process_all-Streamed this hist [] p s r inv small = (
  this,
  s,
  refl,
  record {
    inv = subst (LineInv this) (sym (append-nil hist)) inv;
    relaying = r;
    client = sym (append-nil (sent this.clttty.dfd s.calls));
    bcast = sym (append-nil (sent s.g.bcsttty.dfd s.calls));
  },
)
process_all-Streamed this hist (c ∷ cs) p s r inv small =
    let (n, u, s1, e, step) = process_char-LineStep this hist c p s r inv (omega arith) in
    let (t, s', e', rest) =
      process_all-Streamed u (hist ++ (c ∷ [])) cs p s1 step.relaying step.inv
        (omega (arith, length-append hist (c ∷ []))) in
    (t, s', rw e e', Streamed-step step rest)
