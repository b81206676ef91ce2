-- ===== src/Cmd/Output/Missed.antt =====
-- cmd.c: a ready string that the search in a command's output does not recognise.
use yar.Base.{
  ℕ, ◌+◌, ◌≤◌, ◌<◌, ◌≡◌, ◌≢◌, subst, ap, ◌∙◌, some, List, [], ◌∷◌, arith, leb, ◌==◌, if◌then◌else◌,
  false, length,
}
use yar.State.{Cmd, Sys}
use yar.Monad.{M, ok, and_then-ok, ◌>>=◌, pure}
use yar.Cmd.Output.{next_readycnt, match_ready}

-- The bytes `cs` of output, as the search for the ready string sees them.
unfoldable pub match_all : Cmd → List ℕ → M Cmd
match_all this [] = pure this
match_all this (c ∷ cs) = do this ← match_ready this c; match_all this cs

-- The count behind a byte; that of a ready command stays.
count_step : List ℕ → ℕ → ℕ → ℕ
count_step str n c = if leb (length str) n then n else next_readycnt str n c

step_bound : (str : List ℕ) (n c : ℕ) → count_step str n c ≤ n + 1
unfolding count_step next_readycnt
step_bound str n c = ground arith

match_ready-count_step :
    (this t : Cmd) (c : ℕ) (str : List ℕ) (s s' : Sys)
    → length str ≢ 0
    → s.g.readystr ≡ some str
    → s.g.readystrlen ≡ length str
    → match_ready this c s ≡ ok t s'
    → (t.readycnt ≡ count_step str this.readycnt c)
      × (s'.g.readystr ≡ some str)
      × (s'.g.readystrlen ≡ length str)
unfolding match_ready count_step
match_ready-count_step this t c str s s' ne hs hl h =
    let a : (s.g.readystrlen == 0) ≡ false = ground arith in
    let h2 = simp (a, hs) at h in (ground arith, ground arith, ground arith)

-- No more characters are matched than were read.
match_all-bound :
    (this t : Cmd) (cs str : List ℕ) (s s' : Sys)
    → length str ≢ 0
    → s.g.readystr ≡ some str
    → s.g.readystrlen ≡ length str
    → match_all this cs s ≡ ok t s'
    → t.readycnt ≤ this.readycnt + length cs
unfolding match_all
match_all-bound this t [] str s s' ne hs hl h =
    let e : this ≡ t = cc in subst (λ (x : Cmd). x.readycnt ≤ this.readycnt + 0) e (omega arith)
match_all-bound this t (c ∷ cs) str s s' ne hs hl h =
    let (u, s1, e, h1) = and_then-ok (match_ready this c s) (λ x. match_all x cs) t s' h in
    let (cnt, hs1, hl1) = match_ready-count_step this u c str s s1 ne hs hl e in
    omega
      (arith, match_all-bound u t cs str s1 s' ne hs1 hl1 h1, cnt, step_bound str this.readycnt c)

step_hit : (c d : ℕ) (rest : List ℕ) → count_step (c ∷ d ∷ rest) 0 c ≡ 1
unfolding count_step next_readycnt
step_hit c d rest = ground arith

step_miss : (c d : ℕ) (rest : List ℕ) → c ≢ d → count_step (c ∷ d ∷ rest) 1 c ≡ 0
unfolding count_step next_readycnt
step_miss c d rest ne = ground arith

step_other : (c d : ℕ) (rest : List ℕ) → c ≢ d → count_step (c ∷ d ∷ rest) 0 d ≡ 0
unfolding count_step next_readycnt
step_other c d rest ne = ground arith

-- A ready string whose first two characters differ is not recognised in output where its first
-- character stands in front of it too: the output ends with the ready string, but a command that had
-- nothing matched before is not ready after it.
pub match_all-missed :
    (this t : Cmd) (c d : ℕ) (rest : List ℕ) (s s' : Sys)
    → c ≢ d
    → this.readycnt ≡ 0
    → s.g.readystr ≡ some (c ∷ d ∷ rest)
    → s.g.readystrlen ≡ length (c ∷ d ∷ rest)
    → match_all this (c ∷ (c ∷ d ∷ rest)) s ≡ ok t s'
    → t.readycnt < length (c ∷ d ∷ rest)
unfolding match_all
match_all-missed this t c d rest s s' ne zero_cnt hs hl h =
    let str : List ℕ = c ∷ d ∷ rest in
    let (u, s1, e1, h1) =
      and_then-ok (match_ready this c s) (λ x. match_all x (c ∷ d ∷ rest)) t s' h in
    let (n1, hs1, hl1) = match_ready-count_step this u c str s s1 (omega arith) hs hl e1 in
    let (v, s2, e2, h2) = and_then-ok (match_ready u c s1) (λ x. match_all x (d ∷ rest)) t s' h1 in
    let (n2, hs2, hl2) = match_ready-count_step u v c str s1 s2 (omega arith) hs1 hl1 e2 in
    let (w, s3, e3, h3) = and_then-ok (match_ready v d s2) (λ x. match_all x rest) t s' h2 in
    let (n3, hs3, hl3) = match_ready-count_step v w d str s2 s3 (omega arith) hs2 hl2 e3 in
    let b3 = match_all-bound w t rest str s3 s' (omega arith) hs3 hl3 h3 in
    let c1 : u.readycnt ≡ 1 =
      n1 ∙ ap (λ n. count_step (c ∷ d ∷ rest) n c) zero_cnt ∙ step_hit c d rest in
    let c2 : v.readycnt ≡ 0 =
      n2 ∙ ap (λ n. count_step (c ∷ d ∷ rest) n c) c1 ∙ step_miss c d rest ne in
    let c3 : w.readycnt ≡ 0 =
      n3 ∙ ap (λ n. count_step (c ∷ d ∷ rest) n d) c2 ∙ step_other c d rest ne in
    omega (arith, b3, c3)
