-- ===== src/Spec/RoundTrip.antt =====
-- main.c: `cmdspecParse` reads back what a specification is written as, and nothing else.
use yar.Base.{
  ℕ, ◌≡◌, ◌≢◌, refl, ◌⊎◌, sym, ap, ap₂, ◌∙◌, inl, inr, Bool, true, false, ◌&&◌, not, Option, some,
  none, [], ◌∷◌, ◌++◌, arith, ◌==◌, ==_iff, Bool-cases,
}
use yar.Kernel.{Str, ℤ, stat_call}
use yar.State.{Sys}
use yar.Monad.{ok, and_then-ok}
use yar.Spec.{
  cut, strsep, both, next_token, unless_empty, check_path, parse_delay, Spec, with_name, with_link,
  with_log, with_delay, build, cmdspec_parse,
}

-- A field: a string without commas.
unfoldable pub plain : Str → Bool
plain [] = true
plain (c ∷ cs) = not (c == b',') && plain cs

cut-plain : (tok rest : Str) → plain tok ≡ true → cut (tok ++ (b',' ∷ rest)) ≡ (tok, some rest)
unfolding plain cut
cut-plain [] rest h = refl
cut-plain (c ∷ cs) rest h =
    let miss : (c == b',') ≡ false = ground arith in
    let more : plain cs ≡ true = ground arith in rw (miss, cut-plain cs rest more)

cut_lem :
    (s : Str)
    → (tok : Str) × (rest : Option Str) × (cut s ≡ (tok, rest))
      × (plain tok ≡ true)
      × ((r : Str) → rest ≡ some r → s ≡ tok ++ (b',' ∷ r))
unfolding plain cut
cut_lem [] = ([], none, refl, refl, λ r e. cc)
cut_lem (c ∷ cs) = elim (Bool-cases (c == b',')) [
  | inl hit ↦ ([], some cs, simp hit, refl, λ r e. ap₂ ◌∷◌ ((==_iff c b',').0 hit) (cc))
  | inr miss ↦
      let (tok, rest, e, p, back) = cut_lem cs in
      (c ∷ tok, rest, rw (miss, e), rw (miss, p), λ r eq. ap (λ x. c ∷ x) (back r eq))
]

next_token-plain :
    (tok rest : Str)
    → plain tok ≡ true
    → next_token (some (tok ++ (b',' ∷ rest))) ≡ some (tok, rest)
unfolding next_token strsep
next_token-plain tok rest p = rw (cut-plain tok rest p)

both_lem :
    (t tok rest : Str) (o : Option Str)
    → both (some t, o) ≡ some (tok, rest)
    → (t ≡ tok) × (o ≡ some rest)
both_lem t tok rest none h = cc
both_lem t tok rest (some r) h =
    let e : (t, r) ≡ (tok, rest) = cc in
    (ap (λ (x : Str × Str). x.0) e, ap (λ (x : Str × Str). some x.1) e)

next_token_lem :
    (s tok rest : Str)
    → next_token (some s) ≡ some (tok, rest)
    → (s ≡ tok ++ (b',' ∷ rest)) × (plain tok ≡ true)
unfolding next_token strsep
next_token_lem s tok rest h =
    let (t, o, e, p, back) = cut_lem s in
    let (same, more) = both_lem t tok rest o (rw e at h) in
    (back rest more ∙ ap (λ x. x ++ (b',' ∷ rest)) same, ap plain (sym same) ∙ p)

-- How a specification is written.
abbrev pub spec_text : (name link log delay cmdline : Str) → Str
spec_text name link log delay cmdline =
    name ++ (b',' ∷ (link ++ (b',' ∷ (log ++ (b',' ∷ (delay ++ (b',' ∷ cmdline)))))))

-- The state in which the delay is read.
abbrev pub behind_check : Str → Sys → Sys
behind_check link s = record s { calls = stat_call (unless_empty link) ∷ s.calls }

-- A specification whose fields have no commas (its command line may have some) and whose command
-- line is not empty is parsed to those fields, if nothing is at the link's path and the delay can
-- be read; an empty link or log stands for none.
pub cmdspec_parse-spec_text :
    (name link log delay : Str) (c : ℕ) (cs : Str) (d : ℤ) (s s' : Sys)
    → plain name ≡ true
    → plain link ≡ true
    → plain log ≡ true
    → plain delay ≡ true
    → s.env.stat s.calls (unless_empty link) ≡ false
    → parse_delay delay (behind_check link s) ≡ ok (some d) s'
    → cmdspec_parse (spec_text name link log delay (c ∷ cs)) s
      ≡ ok
          (some (record {
            name = name;
            ttylink = unless_empty link;
            log = unless_empty log;
            delay = d;
            cmdline = c ∷ cs;
          }))
          s'
unfolding cmdspec_parse with_name with_link with_log with_delay build check_path
cmdspec_parse-spec_text name link log delay c cs d s s' pn pl pg pd free read = rw (
  next_token-plain name (link ++ (b',' ∷ (log ++ (b',' ∷ (delay ++ (b',' ∷ (c ∷ cs))))))) pn,
  next_token-plain link (log ++ (b',' ∷ (delay ++ (b',' ∷ (c ∷ cs))))) pl,
  free,
  next_token-plain log (delay ++ (b',' ∷ (c ∷ cs))) pg,
  next_token-plain delay (c ∷ cs) pd,
  read,
)

token_cases :
    (s : Str)
    → (next_token (some s) ≡ none)
      ⊎ ((tok : Str) × (rest : Str) × (next_token (some s) ≡ some (tok, rest))
          × (s ≡ tok ++ (b',' ∷ rest))
          × (plain tok ≡ true))
token_cases s = go (next_token (some s)) refl
  where
    go :
        (o : Option (Str × Str))
        → next_token (some s) ≡ o
        → (next_token (some s) ≡ none)
          ⊎ ((tok : Str) × (rest : Str) × (next_token (some s) ≡ some (tok, rest))
              × (s ≡ tok ++ (b',' ∷ rest))
              × (plain tok ≡ true))
    go none e = inl e
    go (some (tok, rest)) e =
        let (text, p) = next_token_lem s tok rest e in inr (tok, rest, e, text, p)

build_lem :
    (name : Str) (ttylink : Option Str) (log cmdline : Str) (d : Option ℤ) (spec : Spec)
    → build name ttylink log cmdline d ≡ some spec
    → (d ≡ some spec.delay)
      × (cmdline ≡ spec.cmdline)
      × (spec.cmdline ≢ [])
      × (spec.name ≡ name)
      × (spec.ttylink ≡ ttylink)
      × (spec.log ≡ unless_empty log)
unfolding build
build_lem name ttylink log cmdline none spec h = cc
build_lem name ttylink log [] (some d) spec h = cc
build_lem name ttylink log (c ∷ cs) (some d) spec h = (cc, cc, (λ e. cc), cc, cc, cc)

-- What is accepted behind the link.
RestOf : Str → Option Str → Str → Spec → Sys → Sys → Type 0
RestOf name ttylink text spec s s' =
    (log : Str) × (delay : Str) × (text ≡ log ++ (b',' ∷ (delay ++ (b',' ∷ spec.cmdline))))
    × (plain log ≡ true)
    × (plain delay ≡ true)
    × (spec.cmdline ≢ [])
    × (spec.name ≡ name)
    × (spec.ttylink ≡ ttylink)
    × (spec.log ≡ unless_empty log)
    × (parse_delay delay s ≡ ok (some spec.delay) s')

with_log_lem :
    (name : Str) (ttylink : Option Str) (text : Str) (spec : Spec) (s s' : Sys)
    → with_log name ttylink (next_token (some text)) s ≡ ok (some spec) s'
    → RestOf name ttylink text spec s s'
unfolding with_log with_delay RestOf
with_log_lem name ttylink text spec s s' h = elim (token_cases text) [
  | inl e ↦ absurd (let h' = rw e at h in cc)
  | inr (log, r, e, t, p) ↦
      let h' = rw e at h in
      elim (token_cases r) [
        | inl e' ↦ absurd (let h'' = rw e' at h' in cc)
        | inr (delay, cmdline, e', t', p') ↦
            let h'' = rw e' at h' in
            let (d, u, q, q') =
              and_then-ok (parse_delay delay s) (λ d u. ok (build name ttylink log cmdline d) u)
                (some spec) s' h'' in
            let (dd, line, ne, nm, lk, lg) = build_lem name ttylink log cmdline d spec (cc) in
            let st : u ≡ s' = cc in
            (
              log,
              delay,
              t ∙ ap (λ x. log ++ (b',' ∷ x)) (t' ∙ ap (λ x. delay ++ (b',' ∷ x)) line),
              p,
              p',
              ne,
              nm,
              lk,
              lg,
              q ∙ ap₂ ok dd st,
            )
      ]
]

-- A specification that is accepted is written as five fields, of which the first four have no
-- commas and the last is not empty; nothing is at the link's path, the delay is the one read from
-- its field, and the parsed fields are those written, an empty link or log being none.
pub cmdspec_parse_lem :
    (text : Str) (spec : Spec) (s s' : Sys)
    → cmdspec_parse text s ≡ ok (some spec) s'
    → (link : Str) × (log : Str) × (delay : Str) × (text
        ≡ spec_text spec.name link log delay spec.cmdline)
      × (plain spec.name ≡ true)
      × (plain link ≡ true)
      × (plain log ≡ true)
      × (plain delay ≡ true)
      × (spec.cmdline ≢ [])
      × (spec.ttylink ≡ unless_empty link)
      × (spec.log ≡ unless_empty log)
      × (s.env.stat s.calls (unless_empty link) ≡ false)
      × (parse_delay delay (behind_check link s) ≡ ok (some spec.delay) s')
unfolding cmdspec_parse with_name with_link check_path RestOf
cmdspec_parse_lem text spec s s' h = elim (token_cases text) [
  | inl e ↦ absurd (let h' = rw e at h in cc)
  | inr (name, r, e, t, p) ↦
      let h' = rw e at h in
      elim (token_cases r) [
        | inl e' ↦ absurd (let h'' = rw e' at h' in cc)
        | inr (link, r', e', t', p') ↦
            let h'' = rw e' at h' in
            elim (Bool-cases (s.env.stat s.calls (unless_empty link))) [
              | inl taken ↦ absurd (let h3 = rw taken at h'' in cc)
              | inr free ↦
                  let (log, delay, t2, pg, pd, ne, nm, lk, lg, read) =
                    with_log_lem name (unless_empty link) r' spec (behind_check link s) s'
                      (rw free at h'') in
                  (
                    link,
                    log,
                    delay,
                    t
                        ∙ ap₂ (λ x y. x ++ (b',' ∷ y)) (sym nm)
                            (t' ∙ ap (λ x. link ++ (b',' ∷ x)) t2),
                    ap plain nm ∙ p,
                    p',
                    pg,
                    pd,
                    ne,
                    lk,
                    lg,
                    free,
                    read,
                  )
            ]
      ]
]
