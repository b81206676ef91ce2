-- ===== src/Cmd/Output/Ready.antt =====
-- cmd.c: the search for the ready string in a command's output.
use yar.Base.{
  ℕ, zero, suc, ◌+◌, ◌≤◌, ◌<◌, ◌≡◌, refl, sym, subst, ap, ◌∙◌, inl, inr, false, some, List, [], ◌∷◌,
  ◌++◌, append-nil, append_assoc, arith, leb, ◌==◌, ==_iff, if◌then◌else◌, Bool-cases, length,
  get_or, take,
}
use yar.State.{Cmd, Sys}
use yar.Monad.{ok}
use yar.Cmd.Output.{match_ready, next_readycnt}

-- `n` characters of the ready string are matched: the output so far ends with them.
pub record Matched (str seen : List ℕ) (n : ℕ) : Type 0 where
  pub within : n ≤ length str
  pub before : List ℕ
  pub ends : seen ≡ before ++ take n str

take-suc :
    (str : List ℕ) (n : ℕ) → n < length str → take (n + 1) str ≡ take n str ++ (get_or str n 0 ∷ [])
take-suc [] n h = absurd (omega arith)
take-suc (x ∷ str) zero h = refl
take-suc (x ∷ str) (suc n) h =
    let e : suc n + 1 ≡ suc (n + 1) = omega arith in
    rw e (ap (λ t. x ∷ t) (take-suc str n (omega arith)))

-- One character keeps the match true of the output.
pub next_readycnt-Matched :
    (str seen : List ℕ) (n c : ℕ)
    → Matched str seen n
    → n < length str
    → Matched str (seen ++ (c ∷ [])) (next_readycnt str n c)
unfolding next_readycnt
next_readycnt-Matched str seen n c m lt = elim (Bool-cases (get_or str n 0 == c)) [
  | inl hit ↦
      let same : get_or str n 0 ≡ c = (==_iff (get_or str n 0) c).0 hit in
      rw hit (record {
        within = omega arith;
        before = m.before;
        ends =
            ap (λ x. x ++ (c ∷ [])) m.ends
            ∙ append_assoc m.before (take n str) (c ∷ [])
            ∙ ap (λ x. m.before ++ x)
                (ap (λ x. take n str ++ (x ∷ [])) (sym same) ∙ sym (take-suc str n lt));
      })
  | inr miss ↦ rw miss (record {
    within = omega arith;
    before = seen ++ (c ∷ []);
    ends = sym (append-nil (seen ++ (c ∷ [])));
  })
]

-- A byte's step, when the ready string is not yet seen.
match_ready-step :
    (this t : Cmd) (c : ℕ) (str : List ℕ) (s s' : Sys)
    → s.g.readystr ≡ some str
    → s.g.readystrlen ≡ length str
    → this.readycnt < length str
    → match_ready this c s ≡ ok t s'
    → (t ≡ record this { readycnt = next_readycnt str this.readycnt c })
      × (s'.g.cmdsreadycnt
          ≡ s.g.cmdsreadycnt + (if next_readycnt str this.readycnt c == length str then 1 else 0))
unfolding match_ready
match_ready-step this t c str s s' hs hl lt h =
    let a : (s.g.readystrlen == 0) ≡ false = ground arith in
    let b : leb s.g.readystrlen this.readycnt ≡ false = ground arith in
    let h2 = simp (a, b, hs) at h in ground arith

-- While the ready string is not yet seen, a byte either completes it, and then the output ends
-- with the whole string and one more command is counted ready, or it does not, and the count
-- stays. In both cases `readycnt` is the length of a prefix of the ready string with which the
-- output ends, and nothing else of the command changes.
pub match_ready-Matched :
    (this t : Cmd) (c : ℕ) (str seen : List ℕ) (s s' : Sys)
    → s.g.readystr ≡ some str
    → s.g.readystrlen ≡ length str
    → this.readycnt < length str
    → Matched str seen this.readycnt
    → match_ready this c s ≡ ok t s'
    → Matched str (seen ++ (c ∷ [])) t.readycnt
      × (t ≡ record this { readycnt = t.readycnt })
      × (s'.g.cmdsreadycnt ≡ s.g.cmdsreadycnt + (if t.readycnt == length str then 1 else 0))
unfolding match_ready
match_ready-Matched this t c str seen s s' hs hl lt m h =
    let (same, count) = match_ready-step this t c str s s' hs hl lt h in
    let n : t.readycnt ≡ next_readycnt str this.readycnt c = ap (λ (x : Cmd). x.readycnt) same in
    (
      subst (Matched str (seen ++ (c ∷ []))) (sym n)
          (next_readycnt-Matched str seen this.readycnt c m lt),
      same ∙ ap (λ k. record this { readycnt = k }) (sym n),
      rw n count,
    )
