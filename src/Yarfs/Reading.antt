-- ===== src/Yarfs/Reading.antt =====
-- yarfs.c, fs.c: a file read in pieces.
use yar.Base.{
  ℕ, zero, suc, ◌+◌, ◌-◌, ◌≤◌, ◌<◌, ◌≡◌, refl, sym, ap, ◌∙◌, Option, none, some, List, [], ◌∷◌,
  ◌++◌, ltb, min, arith, length, take, drop, length-take, length-drop, take-append-drop, inl, inr,
  Bool-cases, ltb→lt,
}
use yar.Kernel.{Str}
use yar.State.{Globals}
use yar.Yarfs.{YarFile, file_content, file_read, fs_fuse_reply_buf_limited}

abbrev before : List ℕ → Option Str → Option Str
before bs none = none
before bs (some t) = some (bs ++ t)

abbrev read_next : (ℕ → Option Str) → (off : ℕ) → Option (List ℕ) → Option Str
read_next rest off none = none
read_next rest off (some []) = some []
read_next rest off (some (b ∷ bs)) = before (b ∷ bs) (rest (off + length (b ∷ bs)))

-- A reader that asks for `chunk` bytes behind those it has, until it is sent none: what it gets
-- in at most `fuel` rounds.
abbrev pub read_on : YarFile → Globals → (chunk fuel off : ℕ) → Option Str
read_on f g chunk zero off = none
read_on f g chunk (suc fuel) off = read_next (read_on f g chunk fuel) off (file_read f g chunk off)

drop-nil : (n : ℕ) → drop {A = ℕ} n [] ≡ []
drop-nil zero = refl
drop-nil (suc n) = refl

drop-drop : (m n : ℕ) (xs : List ℕ) → drop n (drop m xs) ≡ drop (m + n) xs
drop-drop zero n xs = ap (λ k. drop k xs) (omega arith)
drop-drop (suc m) n [] = drop-nil n ∙ sym (drop-nil (suc m + n))
drop-drop (suc m) n (x ∷ xs) =
    let e : suc m + n ≡ suc (m + n) = omega arith in
    drop-drop m n xs ∙ ap (λ k. drop k (x ∷ xs)) (sym e)

drop_all : (n : ℕ) (xs : List ℕ) → length xs ≤ n → drop n xs ≡ []
drop_all zero [] h = refl
drop_all zero (x ∷ xs) h = absurd (omega arith)
drop_all (suc n) [] h = refl
drop_all (suc n) (x ∷ xs) h = drop_all n xs (omega arith)

read_next-some :
    (rest : ℕ → Option Str) (off : ℕ) (bs t : List ℕ)
    → 0 < length bs
    → rest (off + length bs) ≡ some t
    → read_next rest off (some bs) ≡ some (bs ++ t)
read_next-some rest off [] t l h = absurd (omega arith)
read_next-some rest off (b ∷ bs) t l h = rw h refl

pub file_read-content :
    (f : YarFile) (g : Globals) (t : Str) (chunk off : ℕ)
    → file_content f g ≡ some t
    → file_read f g chunk off ≡ some (fs_fuse_reply_buf_limited t (length t) off chunk)
unfolding file_read
file_read-content f g t chunk off h = rw h refl

read_on-drop :
    (f : YarFile) (g : Globals) (t : Str) (chunk fuel off : ℕ)
    → file_content f g ≡ some t
    → 0 < chunk
    → length t - off < fuel
    → read_on f g chunk fuel off ≡ some (drop off t)
unfolding fs_fuse_reply_buf_limited
read_on-drop f g t chunk zero off h c l = absurd (omega arith)
read_on-drop f g t chunk (suc fuel) off h c l = elim (Bool-cases (ltb off (length t))) [
  | inl e ↦
      let k = min (length t - off) chunk in
      let more : off < length t = ltb→lt off (length t) e in
      let size : length (take k (drop off t)) ≡ k =
        omega (arith, length-take k (drop off t), length-drop off t) in
      rw (file_read-content f g t chunk off h, e)
        (read_next-some (read_on f g chunk fuel) off (take k (drop off t)) (drop k (drop off t))
            (omega arith)
            (rw size (
              read_on-drop f g t chunk fuel (off + k) h c (omega arith)
              ∙ ap some (sym (drop-drop off k t))))
          ∙ ap some (take-append-drop k (drop off t)))
  | inr e ↦
      rw (file_read-content f g t chunk off h, e) (ap some (sym (drop_all off t (ground arith))))
]

-- A reader with a chunk of at least a byte comes to the end of a file that can be read, in at
-- most one round more than the file has bytes, and the pieces put together are the file.
pub read_on-file_content :
    (f : YarFile) (g : Globals) (t : Str) (chunk fuel : ℕ)
    → file_content f g ≡ some t
    → 0 < chunk
    → length t < fuel
    → read_on f g chunk fuel 0 ≡ some t
read_on-file_content f g t chunk fuel h c l = read_on-drop f g t chunk fuel 0 h c (omega arith)
