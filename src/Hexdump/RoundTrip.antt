-- ===== src/Hexdump/RoundTrip.antt =====
-- hexdump.c: the bytes can be read back from what is written.
use yar.Base.{
  ℕ, zero, suc, ◌+◌, ◌-◌, ◌*◌, ◌/◌, ◌%◌, ◌<◌, ◌≡◌, ◌≢◌, ◌^◌, some, lt→ltb, refl, ap, ap₂, ◌∙◌, Bool,
  true, false, ◌&&◌, ◌||◌, List, [], ◌∷◌, ◌++◌, arith, append_assoc, append-nil, ltb, leb, ◌==◌,
  if◌then◌else◌, length, take, drop, replicate, ==_refl, ==_ne, length-drop, take-append-drop,
  codes, join,
}
use yar.Hexdump.{
  is_plain, hex_digit, hex, hex_byte, hex_column, ascii_column, address, address_width, dump_line,
  dump_lines, hexdump,
}

abbrev is_digit : ℕ → Bool
is_digit c = (leb b'0' c && leb c b'9') || (leb b'a' c && leb c b'f')

abbrev digit : ℕ → ℕ
digit c = if ltb c b'a' then c - b'0' else c - b'a' + 10

digit-hex_digit : (d : ℕ) → d < 16 → digit (hex_digit d) ≡ d
digit-hex_digit d h = ground arith

is_digit-hex_digit : (d : ℕ) → d < 16 → is_digit (hex_digit d) ≡ true
is_digit-hex_digit d h = ground arith

-- The bytes of a hex column: groups of two digits and two blanks, up to the first other group.
unfoldable pub read_hex : List ℕ → List ℕ
read_hex (a ∷ b ∷ c ∷ d ∷ rest) =
    let bytes = read_hex rest in if is_digit a then (digit a * 16 + digit b) ∷ bytes else []
read_hex s = []

-- All the numbers are bytes.
abbrev pub AreBytes : List ℕ → Type 0
AreBytes [] = Unit {0}
AreBytes (b ∷ bs) = (b < 256) × AreBytes bs

read_hex-hex_column :
    (bs rest : List ℕ) → AreBytes bs → read_hex rest ≡ [] → read_hex (hex_column bs ++ rest) ≡ bs
unfolding hex_column hex read_hex
read_hex-hex_column [] rest h e = e
read_hex-hex_column (b ∷ bs) rest (small, h) e =
    rw (is_digit-hex_digit (b / 16 % 16) (omega arith)) (
      ap₂ ◌∷◌
        (omega (
          arith,
          digit-hex_digit (b / 16 % 16) (omega arith),
          digit-hex_digit (b % 16) (omega arith),
        ))
        (read_hex-hex_column bs rest h e))

-- No place of a text holds `a`.
abbrev pub Avoids : ℕ → List ℕ → Type 0
Avoids a [] = Unit {0}
Avoids a (c ∷ cs) = (c ≢ a) × Avoids a cs

Avoids-append : (a : ℕ) (xs ys : List ℕ) → Avoids a xs → Avoids a ys → Avoids a (xs ++ ys)
Avoids-append a [] ys p q = q
Avoids-append a (x ∷ xs) ys (n, p) q = (n, Avoids-append a xs ys p q)

Avoids-hex : (a k n : ℕ) → ((d : ℕ) → d < 16 → hex_digit d ≢ a) → Avoids a (hex k n)
unfolding hex
Avoids-hex a zero n h = tt
Avoids-hex a (suc k) n h =
    Avoids-append a (hex k (n / 16)) (hex_digit (n % 16) ∷ []) (Avoids-hex a k (n / 16) h)
      (h (n % 16) (omega arith), tt)

hex_digit-is_no_colon : (d : ℕ) → d < 16 → hex_digit d ≢ b':'
hex_digit-is_no_colon d h = ground arith

hex_digit-is_no_newline : (d : ℕ) → d < 16 → hex_digit d ≢ b'\n'
hex_digit-is_no_newline d h = ground arith

Avoids-hex_column : (bs : List ℕ) → Avoids b'\n' (hex_column bs)
unfolding hex_column
Avoids-hex_column [] = tt
Avoids-hex_column (b ∷ bs) =
    Avoids-append b'\n' (hex_byte b) (hex_column bs)
      (Avoids-append b'\n' (hex 2 b) (codes "  ") (Avoids-hex b'\n' 2 b hex_digit-is_no_newline)
        ((omega arith), ((omega arith), tt)))
      (Avoids-hex_column bs)

Avoids-ascii_column : (bs : List ℕ) → Avoids b'\n' (ascii_column bs)
unfolding ascii_column
Avoids-ascii_column [] = tt
Avoids-ascii_column (c ∷ cs) = (plain c, Avoids-ascii_column cs)
  where
    plain : (c : ℕ) → (if is_plain c then c else b'.') ≢ b'\n'
    plain c = ground arith

Avoids-replicate : (n : ℕ) → Avoids b'\n' (replicate n b' ')
Avoids-replicate zero = tt
Avoids-replicate (suc n) = ((omega arith), Avoids-replicate n)

-- The text behind the first `a`.
abbrev pub behind : ℕ → List ℕ → List ℕ
behind a [] = []
behind a (c ∷ cs) = if c == a then cs else behind a cs

behind-append : (a : ℕ) (xs rest : List ℕ) → Avoids a xs → behind a (xs ++ (a ∷ rest)) ≡ rest
behind-append a [] rest h = rw (==_refl a)
behind-append a (x ∷ xs) rest (n, h) = rw (==_ne x a n) (behind-append a xs rest h)

abbrev onto_first : ℕ → List (List ℕ) → List (List ℕ)
onto_first c [] = (c ∷ []) ∷ []
onto_first c (l ∷ ls) = (c ∷ l) ∷ ls

-- A text cut at its newlines, which are left out.
abbrev pub split_lines : List ℕ → List (List ℕ)
split_lines [] = []
split_lines (c ∷ cs) = if c == b'\n' then [] ∷ split_lines cs else onto_first c (split_lines cs)

split_lines-append :
    (line rest : List ℕ)
    → Avoids b'\n' line
    → split_lines (line ++ (b'\n' ∷ rest)) ≡ line ∷ split_lines rest
split_lines-append [] rest h = refl
split_lines-append (c ∷ line) rest (n, h) = rw (==_ne c b'\n' n, split_lines-append line rest h)

read_hex-no_digit : (c : ℕ) (s : List ℕ) → is_digit c ≡ false → read_hex (c ∷ s) ≡ []
unfolding read_hex
read_hex-no_digit c [] h = refl
read_hex-no_digit c (x ∷ []) h = refl
read_hex-no_digit c (x ∷ y ∷ []) h = refl
read_hex-no_digit c (x ∷ y ∷ z ∷ s) h = rw h refl

-- The blanks and the bar behind a hex column are no group of digits.
read_hex-blanks : (k : ℕ) (s : List ℕ) → read_hex (replicate k b' ' ++ (b'|' ∷ s)) ≡ []
read_hex-blanks zero s = read_hex-no_digit b'|' s refl
read_hex-blanks (suc k) s = read_hex-no_digit b' ' (replicate k b' ' ++ (b'|' ∷ s)) refl

-- A line without its newline.
abbrev body : ℕ → ℕ → List ℕ → List ℕ
body at blanks bs =
    address at
    ++ (hex_column bs ++ (replicate (4 * blanks) b' ' ++ (b'|' ∷ (ascii_column bs ++ (b'|' ∷ [])))))

address-Avoids : (at : ℕ) → Avoids b'\n' (address at)
address-Avoids at =
    Avoids-append b'\n' (hex (address_width 8 8 at) at) (codes ":  ")
      (Avoids-hex b'\n' (address_width 8 8 at) at hex_digit-is_no_newline)
      ((omega arith), ((omega arith), ((omega arith), tt)))

body-Avoids : (at blanks : ℕ) (bs : List ℕ) → Avoids b'\n' (body at blanks bs)
body-Avoids at blanks bs = Avoids-append b'\n' (address at) _ (address-Avoids at) (
    Avoids-append b'\n' (hex_column bs) _ (Avoids-hex_column bs) (
      Avoids-append b'\n' (replicate (4 * blanks) b' ') _ (Avoids-replicate (4 * blanks)) (
        (omega arith),
        Avoids-append b'\n' (ascii_column bs) _ (Avoids-ascii_column bs) ((omega arith), tt),
      )))

dump_line-body :
    (at blanks : ℕ) (bs rest : List ℕ)
    → dump_line at blanks bs ++ rest ≡ body at blanks bs ++ (b'\n' ∷ rest)
unfolding dump_line
dump_line-body at blanks bs rest = simp append_assoc

split_lines-dump_line :
    (at blanks : ℕ) (bs rest : List ℕ)
    → split_lines (dump_line at blanks bs ++ rest) ≡ body at blanks bs ∷ split_lines rest
split_lines-dump_line at blanks bs rest =
    ap split_lines (dump_line-body at blanks bs rest)
    ∙ split_lines-append (body at blanks bs) rest (body-Avoids at blanks bs)

-- The bytes of a line: the hex column stands two blanks behind the colon.
abbrev pub read_line : List ℕ → List ℕ
read_line l = read_hex (drop 2 (behind b':' l))

read_line-body : (at blanks : ℕ) (bs : List ℕ) → AreBytes bs → read_line (body at blanks bs) ≡ bs
read_line-body at blanks bs h =
    ap (λ t. read_hex (drop 2 (behind b':' t)))
      (append_assoc (hex (address_width 8 8 at) at) (codes ":  ") _)
    ∙ ap (λ t. read_hex (drop 2 t))
        (behind-append b':' (hex (address_width 8 8 at) at) _
          (Avoids-hex b':' (address_width 8 8 at) at hex_digit-is_no_colon))
    ∙ read_hex-hex_column bs _ h (read_hex-blanks (4 * blanks) _)

abbrev pub read_lines : List (List ℕ) → List ℕ
read_lines [] = []
read_lines (l ∷ ls) = read_line l ++ read_lines ls

-- The bytes that a dump shows.
abbrev pub read_dump : List ℕ → List ℕ
read_dump text = read_lines (split_lines text)

read_dump-dump_line :
    (at blanks : ℕ) (bs rest : List ℕ)
    → AreBytes bs
    → read_dump (dump_line at blanks bs ++ rest) ≡ bs ++ read_dump rest
read_dump-dump_line at blanks bs rest h =
    ap read_lines (split_lines-dump_line at blanks bs rest)
    ∙ ap (λ t. t ++ read_dump rest) (read_line-body at blanks bs h)

take-AreBytes : (n : ℕ) (bs : List ℕ) → AreBytes bs → AreBytes (take n bs)
take-AreBytes zero bs h = tt
take-AreBytes (suc n) [] h = tt
take-AreBytes (suc n) (b ∷ bs) (l, h) = (l, take-AreBytes n bs h)

drop-AreBytes : (n : ℕ) (bs : List ℕ) → AreBytes bs → AreBytes (drop n bs)
drop-AreBytes zero bs h = h
drop-AreBytes (suc n) [] h = tt
drop-AreBytes (suc n) (b ∷ bs) (l, h) = drop-AreBytes n bs h

read_dump-dump_lines :
    (k at : ℕ) (bs : List ℕ)
    → length bs / 16 ≡ k
    → AreBytes bs
    → read_dump (join (dump_lines k at bs)) ≡ bs
unfolding dump_lines
read_dump-dump_lines zero at [] e h = refl
read_dump-dump_lines zero at (b ∷ bs) e h =
    read_dump-dump_line at (16 - length (b ∷ bs)) (b ∷ bs) [] h ∙ append-nil (b ∷ bs)
read_dump-dump_lines (suc k) at bs e h =
    read_dump-dump_line at 0 (take 16 bs) (join (dump_lines k (at + 16) (drop 16 bs)))
      (take-AreBytes 16 bs h)
    ∙ ap (λ t. take 16 bs ++ t)
        (read_dump-dump_lines k (at + 16) (drop 16 bs) (omega (arith, length-drop 16 bs))
          (drop-AreBytes 16 bs h))
    ∙ take-append-drop 16 bs

-- Fewer than 2 ^ 31 bytes, each below 256, are dumped, wherever they stand in memory, and are then
-- the bytes that the hex columns of the dump show, line after line.
pub read_dump-hexdump :
    (mem : ℕ) (bytes : List ℕ)
    → AreBytes bytes
    → length bytes < 2 ^ 31
    → (text : List ℕ) × (hexdump mem bytes ≡ some text) × (read_dump text ≡ bytes)
unfolding hexdump
read_dump-hexdump mem bytes h small = (
  join (dump_lines (length bytes / 16) mem bytes),
  rw (lt→ltb (length bytes) (2 ^ 31) small) refl,
  read_dump-dump_lines (length bytes / 16) mem bytes refl h,
)
