-- ===== src/Cmd/Dump/Shown.antt =====
-- cmd.c: what the dump of a command shows of its buffer.
use yar.Base.{
  ℕ, ◌-◌, ◌%◌, ◌≡◌, ◌≤◌, ◌<◌, sym, ap, ◌∙◌, true, false, Bool, List, [], ◌∷◌, ◌++◌, ltb, ◌==◌,
  if◌then◌else◌, length, take, drop, arith, Bool-cases, inl, inr, ==_iff, append_assoc, append-nil,
  length-drop, take_all,
}
use yar.Kernel.{History, dump_call}
use yar.State.{Cmd, Sys}
use yar.Monad.{ok, stop, undefined}
use yar.Cmd.Ring.{wrapped, data_start, slice}
use yar.Cmd.Dump.{dump_part, char_size, char_shown, dump_wrapped, dump_buf}

-- The number of bytes behind the oldest one, to the end of the buffer, once it has come round.
abbrev pub first_part : ℕ → ℕ
first_part bufn = 4096 - bufn % 4096

wrapped-undefined :
    (this : Cmd) (s : Sys)
    → 4096 ≤ this.bufn
    → 128 ≤ first_part this.bufn % 256
    → dump_buf this s
      ≡ stop undefined
          (record s { calls = dump_call (slice this.buf (this.bufn % 4096) 0) ∷ s.calls })
unfolding dump_buf dump_wrapped dump_part char_size char_shown data_start
wrapped-undefined this s wraps long = ground arith

wrapped-shown :
    (this : Cmd) (s : Sys)
    → 4096 ≤ this.bufn
    → first_part this.bufn < 128
    → dump_buf this s
      ≡ ok tt (record s {
        calls =
            dump_call (slice this.buf 0 (this.bufn % 4096))
            ∷ dump_call (slice this.buf (this.bufn % 4096) (first_part this.bufn))
            ∷ s.calls;
      })
unfolding dump_buf dump_wrapped dump_part char_size char_shown data_start
wrapped-shown this s wraps short = ground arith

unwrapped-shown :
    (this : Cmd) (s : Sys)
    → this.bufn < 4096
    → (this.bufn == 0) ≡ false
    → dump_buf this s
      ≡ ok tt (record s { calls = dump_call (slice this.buf 0 this.bufn) ∷ s.calls })
unfolding dump_buf dump_part
unwrapped-shown this s under some_bytes = ground arith

-- The bytes dumped by the calls, in order.
unfoldable pub dumped : History → List ℕ
dumped [] = []
dumped (dump_call bs ∷ h) = dumped h ++ bs
dumped (c ∷ h) = dumped h

-- The bytes that are still in the buffer, the oldest first.
abbrev pub oldest_first : List ℕ → ℕ → List ℕ
oldest_first buf bufn =
    if wrapped bufn then drop (bufn % 4096) buf ++ take (bufn % 4096) buf else take bufn buf

-- The buffer has not come round, or has at most 127 bytes behind its oldest one.
abbrev pub fits : ℕ → Bool
fits bufn = if wrapped bufn then ltb (first_part bufn) 128 else true

empty-shown : (this : Cmd) (s : Sys) → (this.bufn == 0) ≡ true → dump_buf this s ≡ ok tt s
unfolding dump_buf
empty-shown this s none_yet = ground arith

is_wrapped : (n : ℕ) → wrapped n ≡ true → 4096 ≤ n
is_wrapped n h = ground arith

not_wrapped : (n : ℕ) → wrapped n ≡ false → n < 4096
not_wrapped n h = ground arith

two_parts :
    (h : History) (buf : List ℕ) (r : ℕ)
    → length buf ≡ 4096
    → dumped (dump_call (slice buf 0 r) ∷ dump_call (slice buf r (4096 - r)) ∷ h)
      ≡ dumped h ++ (drop r buf ++ take r buf)
unfolding dumped
two_parts h buf r size =
    let rest : length (drop r buf) ≤ 4096 - r = omega (arith, length-drop r buf, size) in
    append_assoc (dumped h) (slice buf r (4096 - r)) (take r buf)
    ∙ ap (λ xs. dumped h ++ (xs ++ take r buf)) (take_all (4096 - r) (drop r buf) rest)

-- If a command's buffer has not come round, or has at most 127 bytes from its oldest one to its
-- end, the dump shows the bytes that are still in it, each once and the oldest first.
pub dump_buf-shows :
    (this : Cmd) (s : Sys)
    → length this.buf ≡ 4096
    → fits this.bufn ≡ true
    → (s' : Sys) × (dump_buf this s ≡ ok tt s')
      × (dumped s'.calls ≡ dumped s.calls ++ oldest_first this.buf this.bufn)
unfolding dumped
dump_buf-shows this s size fit = elim (Bool-cases (wrapped this.bufn)) [
  | inl w ↦
      let short : first_part this.bufn < 128 = ground arith in
      (
        _,
        wrapped-shown this s (is_wrapped this.bufn w) short,
        two_parts s.calls this.buf (this.bufn % 4096) size
            ∙ ap (λ b. dumped s.calls ++ shown b) (sym w),
      )
  | inr u ↦ elim (Bool-cases (this.bufn == 0)) [
    | inl z ↦
        let nothing : this.bufn ≡ 0 = (==_iff this.bufn 0).0 z in
        (
          s,
          empty-shown this s z,
          sym (append-nil (dumped s.calls))
              ∙ ap (λ n. dumped s.calls ++ take n this.buf) (sym nothing)
              ∙ ap (λ b. dumped s.calls ++ shown b) (sym u),
        )
    | inr some_bytes ↦ (
      _,
      unwrapped-shown this s (not_wrapped this.bufn u) some_bytes,
      ap (λ b. dumped s.calls ++ shown b) (sym u),
    )
  ]
]
  where
    shown : Bool → List ℕ
    shown b =
        if b
        then drop (this.bufn % 4096) this.buf ++ take (this.bufn % 4096) this.buf
        else take this.bufn this.buf

-- Once the buffer has come round, if the number of bytes from its oldest one to its end is 128 or
-- more modulo 256, the dump reads past the end of the buffer, which is undefined.
pub dump_buf-undefined :
    (this : Cmd) (s : Sys)
    → 4096 ≤ this.bufn
    → 128 ≤ first_part this.bufn % 256
    → (s' : Sys) × (dump_buf this s ≡ stop undefined s')
dump_buf-undefined this s wraps long = (_, wrapped-undefined this s wraps long)
