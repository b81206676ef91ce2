-- ===== src/Tty/Io/Discard.antt =====
-- tty.c: what `ttyWriteBuf` keeps of the bytes written to a tty that nobody has open.
use yar.Base.{
  ℕ, zero, suc, ◌+◌, ◌-◌, ◌%◌, ◌^◌, ◌≤◌, ◌<◌, ◌≡◌, refl, sym, ap, ◌∙◌, ◌≢◌, inl, inr, Option, some,
  none, List, [], ◌∷◌, ◌++◌, append-nil, append_assoc, arith, ltb, leb, ◌==◌, if◌then◌else◌,
  Bool-cases, length, take, drop, length-append, length-take, length-drop, take_all, lt→ltb, leb→le,
  le→not_ltb, ==_iff, ==_of, not_leb→lt, le→leb, true, false,
}
use yar.State.{Tty, Sys}
use yar.Monad.{ok, stop, undefined}
use yar.Tty.{discards_size}
use yar.Tty.Io.{used32, free_room, copied, copy_at, discard, tty_write_buf, written}

-- `discards` begins with the first `discards_size` bytes of `hist`, all that was discarded so far.
pub record Kept (t : Tty) (hist : List ℕ) : Type 0 where
  pub size : length t.discards ≡ discards_size
  pub counted : t.wdbytes ≡ length hist
  pub rest : List ℕ
  pub first : t.discards ≡ take discards_size hist ++ rest

take-append_length : (xs ys : List ℕ) (n : ℕ) → n ≡ length xs → take n (xs ++ ys) ≡ xs
take-append_length [] ys zero e = refl
take-append_length [] ys (suc n) e = absurd (omega arith)
take-append_length (x ∷ xs) ys zero e = absurd (omega arith)
take-append_length (x ∷ xs) ys (suc n) e =
    ap (λ t. x ∷ t) (take-append_length xs ys n (omega arith))

take-append :
    (n : ℕ) (xs ys : List ℕ) → length xs ≤ n → take n (xs ++ ys) ≡ xs ++ take (n - length xs) ys
take-append zero [] ys h = refl
take-append (suc n) [] ys h = let e : suc n - length {A = ℕ} [] ≡ suc n = omega arith in rw e
take-append zero (x ∷ xs) ys h = absurd (omega arith)
take-append (suc n) (x ∷ xs) ys h =
    let e : suc n - length (x ∷ xs) ≡ n - length xs = omega arith in
    rw e (ap (λ t. x ∷ t) (take-append n xs ys (omega arith)))

take_full : (n : ℕ) (xs ys : List ℕ) → n ≤ length xs → take n (xs ++ ys) ≡ take n xs
take_full zero xs ys h = refl
take_full (suc n) [] ys h = absurd (omega arith)
take_full (suc n) (x ∷ xs) ys h = ap (λ t. x ∷ t) (take_full n xs ys (omega arith))

-- the state after a discard
abbrev pub discarded : Tty → List ℕ → Tty
discarded t buf = record t {
  discards =
      if copied t buf == 0
      then t.discards
      else copy_at t.discards (used32 t) (take (copied t buf) buf);
  wdbytes = (t.wdbytes + length buf) % 2 ^ 64;
}

-- Bytes that are copied, as many as there are or as there is room for.
take_room :
    (n : ℕ) (buf : List ℕ) → take (if leb (length buf) n then length buf else n) buf ≡ take n buf
take_room n buf = elim (Bool-cases (leb (length buf) n)) [
  | inl le ↦
      let le' : length buf ≤ n = ground arith in
      rw le (take_all (length buf) buf (omega arith) ∙ sym (take_all n buf le'))
  | inr gt ↦ rw gt
]

free_room_small : (t : Tty) → t.wdbytes < 2 ^ 31 → free_room t ≡ discards_size - t.wdbytes
unfolding free_room
free_room_small t h = elim (Bool-cases (leb t.wdbytes discards_size)) [
  | inl room ↦
      let room' : t.wdbytes ≤ discards_size = ground arith in
      let free : (2 ^ 32 + discards_size - used32 t) % 2 ^ 32 ≡ discards_size - t.wdbytes =
        omega arith in
      rw (free, lt→ltb (discards_size - t.wdbytes) (2 ^ 31) (omega arith))
  | inr full ↦
      let full' : discards_size < t.wdbytes = ground arith in
      let free : (2 ^ 32 + discards_size - used32 t) % 2 ^ 32 ≡ 2 ^ 32 + discards_size - t.wdbytes =
        omega arith in
      let big : ltb (2 ^ 32 + discards_size - t.wdbytes) (2 ^ 31) ≡ false =
        le→not_ltb (2 ^ 31) (2 ^ 32 + discards_size - t.wdbytes) (omega arith) in
      rw (free, big) (omega arith)
]

copied_small :
    (t : Tty) (buf : List ℕ)
    → t.wdbytes < 2 ^ 31
    → copied t buf ≡ (
        if leb (length buf) (discards_size - t.wdbytes)
        then length buf
        else discards_size - t.wdbytes)
unfolding copied
copied_small t buf h = rw (free_room_small t h)

fits_small :
    (t : Tty) (buf : List ℕ)
    → t.wdbytes < 2 ^ 31
    → (copied t buf == 0) ≡ false
    → leb (used32 t + copied t buf) discards_size ≡ true
fits_small t buf h some_kept = rw (copied_small t buf h) (
    le→leb _ discards_size (
      omega (
        arith,
        if_le (length buf) (discards_size - t.wdbytes),
        if_pos_le (length buf) (discards_size - t.wdbytes) (rw (copied_small t buf h) at some_kept),
      )))
  where
    if_le : (m n : ℕ) → (if leb m n then m else n) ≤ n
    if_le m n = ground arith

    if_pos_le : (m n : ℕ) → ((if leb m n then m else n) == 0) ≡ false → 0 < n
    if_pos_le m n h = ground arith

-- Below 2 ^ 31 discarded bytes the copy stays inside the array.
pub discard-ok :
    (t : Tty) (buf : List ℕ) (s : Sys)
    → t.wdbytes < 2 ^ 31
    → discard t buf s ≡ ok (discarded t buf) s
unfolding discard
discard-ok t buf s h = elim (Bool-cases (copied t buf == 0)) [
  | inl none_kept ↦ rw none_kept
  | inr some_kept ↦
      let small : ltb (used32 t) (2 ^ 31) ≡ true = lt→ltb (used32 t) (2 ^ 31) (omega arith) in
      let fits : leb (used32 t + copied t buf) discards_size ≡ true =
        fits_small t buf h some_kept in
      rw (some_kept, small, fits)
]

full_none : (m n : ℕ) → n ≡ 0 → (if leb m n then m else n) ≡ 0
full_none m n e = ground arith

module _ {t : Tty} {hist : List ℕ} (k : Kept t hist) (small : t.wdbytes < 2 ^ 31) where
  full-Kept :
      (buf : List ℕ)
      → discards_size ≤ length hist
      → length hist + length buf < 2 ^ 64
      → Kept (discarded t buf) (hist ++ buf)
  full-Kept buf full fits =
      let nothing : copied t buf ≡ 0 =
        copied_small t buf small
        ∙ full_none (length buf) (discards_size - t.wdbytes) (omega (arith, k.counted)) in
      record {
        size = rw nothing k.size;
        counted = omega (arith, k.counted, length-append hist buf);
        rest = k.rest;
        first = rw (nothing, take_full discards_size hist buf full) k.first;
      }

  room-Kept :
      (buf : List ℕ)
      → length hist < discards_size
      → length hist + length buf < 2 ^ 64
      → Kept
          (record t {
            discards = copy_at t.discards (used32 t) (take (copied t buf) buf);
            wdbytes = (t.wdbytes + length buf) % 2 ^ 64;
          })
          (hist ++ buf)
  room-Kept buf room fits =
      let at : used32 t ≡ length hist = omega (arith, k.counted) in
      let whole : t.discards ≡ hist ++ k.rest =
        k.first ∙ ap (λ x. x ++ k.rest) (take_all discards_size hist (omega arith)) in
      let front : take (length hist) t.discards ≡ hist =
        rw whole (take-append_length hist k.rest (length hist) refl) in
      let bytes : take (copied t buf) buf ≡ take (discards_size - length hist) buf =
        rw (copied_small t buf small, k.counted) (take_room (discards_size - length hist) buf) in
      let count : length (take (copied t buf) buf) ≤ discards_size - length hist =
        rw bytes (omega (arith, length-take (discards_size - length hist) buf)) in
      record {
        size = omega (
          arith,
          at,
          count,
          k.size,
          length-append (take (used32 t) t.discards) (
              take (copied t buf) buf
              ++ drop (used32 t + length (take (copied t buf) buf)) t.discards),
          length-append (take (copied t buf) buf)
              (drop (used32 t + length (take (copied t buf) buf)) t.discards),
          length-take (used32 t) t.discards,
          length-drop (used32 t + length (take (copied t buf) buf)) t.discards,
        );
        counted = omega (arith, k.counted, length-append hist buf);
        rest = drop (used32 t + length (take (copied t buf) buf)) t.discards;
        first = rw (
          take-append discards_size hist buf (omega arith),
          at,
          front,
          bytes,
          append_assoc hist (take (discards_size - length hist) buf)
              (drop (length hist + length (take (discards_size - length hist) buf)) t.discards),
        );
      }

  room_none :
      (buf : List ℕ)
      → length hist < discards_size
      → (copied t buf == 0) ≡ true
      → Kept (discarded t buf) (hist ++ buf)
  room_none [] room e =
      rw (e, append-nil hist)
        (record {
          size = k.size;
          counted = omega (arith, k.counted);
          rest = k.rest;
          first = k.first;
        })
  room_none (b ∷ bs) room e =
      let some_kept : copied t (b ∷ bs) ≢ 0 =
        rw (copied_small t (b ∷ bs) small, k.counted) (ground arith) in
      absurd (some_kept ((==_iff (copied t (b ∷ bs)) 0).0 e))

  -- A discard adds the bytes to what is kept, as far as there is room.
  pub discarded-Kept :
      (buf : List ℕ) → length hist + length buf < 2 ^ 64 → Kept (discarded t buf) (hist ++ buf)
  discarded-Kept buf fits = elim (Bool-cases (leb discards_size (length hist))) [
    | inl full ↦ full-Kept buf (leb→le discards_size (length hist) full) fits
    | inr room ↦
        let room' : length hist < discards_size = not_leb→lt discards_size (length hist) room in
        elim (Bool-cases (copied t buf == 0)) [
          | inl nothing ↦ room_none buf room' nothing
          | inr some_kept ↦ rw some_kept (room-Kept buf room' fits)
        ]
  ]

-- A write of `buf` to a tty that nobody has open, after fewer than 2 ^ 31 discarded bytes, reports
-- all of `buf` as written, leaves the world alone, and keeps in `discards` the first 1024 of all
-- the bytes discarded so far.
pub tty_write_buf-Kept :
    (t : Tty) (hist buf : List ℕ) (s : Sys)
    → Kept t hist
    → t.opens ≡ 0
    → length hist < 2 ^ 31
    → length hist + length buf < 2 ^ 64
    → (t' : Tty) × (tty_write_buf t buf none s ≡ ok (written (some (length buf)) t' none) s)
      × Kept t' (hist ++ buf)
unfolding tty_write_buf
tty_write_buf-Kept t hist buf s k closed small fits =
    let small' : t.wdbytes < 2 ^ 31 = omega (arith, k.counted) in
    (
      discarded t buf,
      rw (==_of (t.opens) 0 closed, discard-ok t buf s small'),
      discarded-Kept k small' buf fits,
    )

-- Once the count of discarded bytes has its low 32 bits between 2 ^ 31 + 1025 and 2 ^ 32, a write
-- of at least one byte to a tty that nobody has open copies to a negative index of `discards`,
-- which is undefined.
pub tty_write_buf-undefined :
    (t : Tty) (c : ℕ) (buf : List ℕ) (ts : Option ℕ) (s : Sys)
    → t.opens ≡ 0
    → 2 ^ 31 + discards_size < t.wdbytes % 2 ^ 32
    → tty_write_buf t (c ∷ buf) ts s ≡ stop undefined s
unfolding tty_write_buf discard copied free_room
tty_write_buf-undefined t c buf ts s closed big =
    let free : (2 ^ 32 + discards_size - used32 t) % 2 ^ 32 ≡ 2 ^ 32 + discards_size - used32 t =
      omega arith in
    let neg : ltb (used32 t) (2 ^ 31) ≡ false = le→not_ltb (2 ^ 31) (used32 t) (omega arith) in
    let room : ltb (2 ^ 32 + discards_size - used32 t) (2 ^ 31) ≡ true =
      lt→ltb (2 ^ 32 + discards_size - used32 t) (2 ^ 31) (omega arith) in
    let some_copied : (copied t (c ∷ buf) == 0) ≡ false =
      rw (free, room) (pick (length buf) (2 ^ 32 + discards_size - used32 t) (omega arith)) in
    rw (==_of t.opens 0 closed, some_copied, neg)
  where
    pick : (m n : ℕ) → 0 < n → ((if leb (suc m) n then suc m else n) == 0) ≡ false
    pick m n h = ground arith
