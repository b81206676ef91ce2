-- ===== src/Cmd/Ring/Refine.antt =====
-- cmd.c: the circular buffer against the whole stream of bytes that came in.
use yar.Base.{
  join, ℕ, ◌+◌, ◌-◌, ◌/◌, ◌≤◌, ◌<◌, min, ◌≡◌, sym, ap, subst, ◌∙◌, ◌≢◌, inl, inr, List, [], ◌∷◌,
  ◌++◌, append-nil, arith, ltb, leb, ◌==◌, Bool-cases, length, get_or, set, drop, length-append,
  length-set, length-drop, get_or-set_self, get_or-set_ne, get_or-append_lt, get_or-append_last,
  take_all, range, range-append, range_ext, range-get_or,
}
use yar.Cmd.Ring.{bufsize, n_to_i, slice, store, overflow, line_chunks}

-- `buf` holds the last `bufsize` bytes of the stream `hist`, each at its position modulo the size.
pub record Holds (buf : List ℕ) (hist : List ℕ) : Type 0 where
  pub size : length buf ≡ bufsize
  pub holds :
      (k : ℕ)
      → k < length hist
      → length hist ≤ k + bufsize
      → get_or buf (n_to_i k) 0 ≡ get_or hist k 0

module _ {buf hist : List ℕ} (h : Holds buf hist) where
  -- Storing a byte at the index of the next position extends the stream by it.
  pub store-Holds : (c : ℕ) → Holds (store buf (length hist) c) (hist ++ (c ∷ []))
  unfolding store
  store-Holds c = record { size = length-set buf (n_to_i n) c ∙ h.size; holds = at }
    where
      n : ℕ
      n = length hist

      at :
          (k : ℕ)
          → k < length (hist ++ (c ∷ []))
          → length (hist ++ (c ∷ [])) ≤ k + bufsize
          → get_or (set buf (n_to_i n) c) (n_to_i k) 0 ≡ get_or (hist ++ (c ∷ [])) k 0
      at k lt le = elim (Bool-cases (k == n)) [
        | inl e ↦
            let e' : k ≡ length hist = ground arith in
            rw (
              e',
              get_or-set_self buf (n_to_i n) c 0 (omega (arith, h.size)),
              get_or-append_last hist c 0,
            )
        | inr e ↦
            let lt' : k < length hist = ground (arith, length-append hist (c ∷ [])) in
            let ne : n_to_i n ≢ n_to_i k = omega (arith, length-append hist (c ∷ [])) in
            rw
              (
                get_or-set_ne buf (n_to_i n) (n_to_i k) c 0 ne,
                get_or-append_lt hist (c ∷ []) k 0 lt',
              )
              (h.holds k lt' (omega (arith, length-append hist (c ∷ []))))
      ]

  -- A slice of the buffer that does not go round is a slice of the stream.
  slice-range :
      (i n : ℕ)
      → n_to_i i + n ≤ bufsize
      → i + n ≤ length hist
      → length hist ≤ i + bufsize
      → slice buf (n_to_i i) n ≡ range (λ k. get_or hist k 0) i n
  slice-range i n fits inside recent =
      sym (range-get_or buf 0 (n_to_i i) n (omega (arith, h.size)))
      ∙ range_ext (λ k. get_or buf k 0) (λ k. get_or hist k 0) (n_to_i i) i n
          λ k hk.
            let e : n_to_i i + k ≡ n_to_i (i + k) = omega arith in
            ap (λ t. get_or buf t 0) e ∙ h.holds (i + k) (omega arith) (omega arith)

  range-drop : (i n : ℕ) → i + n ≡ length hist → range (λ k. get_or hist k 0) i n ≡ drop i hist
  range-drop i n e =
      range-get_or hist 0 i n (omega arith)
      ∙ take_all n (drop i hist) (omega (arith, length-drop i hist))

  one_chunk :
      (i n : ℕ)
      → n_to_i i + n ≤ bufsize
      → i + n ≡ length hist
      → join (slice buf (n_to_i i) n ∷ []) ≡ drop i hist
  one_chunk i n fits all =
      append-nil (slice buf (n_to_i i) n)
      ∙ slice-range i n fits (omega arith) (omega arith)
      ∙ range-drop i n all

  two_chunks :
      (i m n : ℕ)
      → n_to_i i + m ≡ bufsize
      → n ≤ n_to_i i
      → i + m + n ≡ length hist
      → join (slice buf (n_to_i i) m ∷ slice buf 0 n ∷ []) ≡ drop i hist
  two_chunks i m n ends le all =
      let at_zero : n_to_i (i + m) ≡ 0 = omega arith in
      let second : slice buf 0 n ≡ range (λ k. get_or hist k 0) (i + m) n =
        subst_zero at_zero (slice-range (i + m) n (omega arith) (omega arith) (omega arith)) in
      rw
        (
          append-nil (slice buf 0 n),
          second,
          slice-range i m (omega arith) (omega arith) (omega arith),
          range-append (λ k. get_or hist k 0) i m n,
        )
        (range-drop i (m + n) (omega arith))
    where
      subst_zero : {j : ℕ} {r : List ℕ} → j ≡ 0 → slice buf j n ≡ r → slice buf 0 n ≡ r
      subst_zero e p = rw e at p

-- The number of overflows counted for a line of `n` bytes.
abbrev pub Counted : (bufn bufstart bufof : ℕ) → Type 0
Counted bufn bufstart bufof = (bufstart ≤ bufn) × (bufof ≡ (bufn - bufstart) / bufsize)

-- The last `bufsize` bytes of the current line, or all of it if it is shorter.
abbrev pub line_tail : List ℕ → ℕ → List ℕ
line_tail hist bufstart = drop (length hist - min (length hist - bufstart) bufsize) hist

-- The count of overflows stays the number of times that the line has filled the buffer.
pub overflow-Counted :
    (bufn bufstart bufof : ℕ)
    → Counted bufn bufstart bufof
    → Counted (bufn + 1) bufstart (overflow (bufn + 1) bufstart bufof)
unfolding overflow
overflow-Counted bufn bufstart bufof (le, e) =
    elim (Bool-cases (n_to_i (bufn + 1) == n_to_i bufstart)) [
      | inl same ↦
          let same' : n_to_i (bufn + 1) ≡ n_to_i bufstart = ground arith in
          rw same (omega arith, omega arith)
      | inr other ↦
          let other' : n_to_i (bufn + 1) ≢ n_to_i bufstart = ground arith in
          rw other (omega arith, omega arith)
    ]

-- The writes for a line are its last `bufsize` bytes, in order: the whole line if it fits the
-- buffer, whether or not it wraps round, and the end of it if the buffer overflowed. The stream
-- `hist` ends with the line, which began at position `bufstart`.
pub line_chunks-line_tail :
    {buf hist : List ℕ} (bufstart bufof : ℕ)
    → Holds buf hist
    → bufstart < length hist
    → Counted (length hist) bufstart bufof
    → join (line_chunks buf bufof bufstart (n_to_i (length hist - 1))) ≡ line_tail hist bufstart
unfolding line_chunks
line_chunks-line_tail {buf} {hist} s o h lt (le, count) = elim (Bool-cases (o == 0)) [
  | inl zero_of ↦
      let o0 : o ≡ 0 = ground arith in
      let from : length hist - min (length hist - s) bufsize ≡ s = omega arith in
      rw (zero_of, from)
        (elim (Bool-cases (leb (n_to_i s) last)) [
          | inl flat ↦
              let flat' : n_to_i s ≤ last = ground arith in
              rw flat (one_chunk h s (last - n_to_i s + 1) (omega arith) (omega arith))
          | inr round ↦
              let round' : last < n_to_i s = ground arith in
              rw round (
                two_chunks h s (bufsize - n_to_i s) (last + 1) (omega arith) (omega arith)
                  (omega arith))
        ])
  | inr some_of ↦
      let o1 : 0 < o = ground arith in
      let from : length hist - min (length hist - s) bufsize ≡ length hist - bufsize =
        omega arith in
      rw (some_of, from)
        (elim (Bool-cases (ltb (last + 1) bufsize)) [
          | inl inner ↦
              let inner' : last + 1 < bufsize = ground arith in
              let at : n_to_i (length hist - bufsize) ≡ last + 1 = omega arith in
              rw inner (
                subst
                  (λ i. join (slice buf i (bufsize - i) ∷ slice buf 0 i ∷ []) ≡ drop from_i hist) at
                  (two_chunks h from_i (bufsize - n_to_i from_i) (n_to_i from_i) (omega arith)
                    (omega arith) (omega arith)))
          | inr edge ↦
              let edge' : last + 1 ≡ bufsize = ground arith in
              let at : n_to_i from_i ≡ 0 = omega arith in
              rw (edge, edge')
                (subst (λ i. join (slice buf i bufsize ∷ []) ≡ drop from_i hist) at
                  (one_chunk h from_i bufsize (omega arith) (omega arith)))
        ])
]
  where
    last : ℕ
    last = n_to_i (length hist - 1)

    from_i : ℕ
    from_i = length hist - bufsize
