-- ===== src/Hexdump.antt =====
-- hexdump.c, and the names of characters of yar.h and main.c: what is written for debugging.
pub mod RoundTrip
use yar.Base.{
  ℕ, zero, suc, ◌+◌, ◌-◌, ◌*◌, ◌/◌, ◌%◌, ◌^◌, Bool, true, false, ◌&&◌, Option, none, some, List, [],
  ◌∷◌, ◌++◌, ltb, leb, ◌==◌, if◌then◌else◌, length, take, drop, replicate, codes, join,
}

-- A digit of `%x`.
abbrev pub hex_digit : ℕ → ℕ
hex_digit d = if ltb d 10 then b'0' + d else b'a' + (d - 10)

-- `%0<k>x` of a number below 16 ^ k.
unfoldable pub hex : ℕ → ℕ → List ℕ
hex zero n = []
hex (suc k) n = hex k (n / 16) ++ (hex_digit (n % 16) ∷ [])

-- The digits that `%08llx` writes for an address: at least 8.
unfoldable pub address_width : (fuel w n : ℕ) → ℕ
address_width zero w n = w
address_width (suc fuel) w n =
    let wider = address_width fuel (w + 1) n in if ltb n (16 ^ w) then w else wider

abbrev pub address : ℕ → List ℕ
address n = hex (address_width 8 8 n) n ++ codes ":  "

-- `"%02x  "`
abbrev pub hex_byte : ℕ → List ℕ
hex_byte b = hex 2 b ++ codes "  "

unfoldable pub hex_column : List ℕ → List ℕ
hex_column [] = []
hex_column (b ∷ bs) = hex_byte b ++ hex_column bs

-- `c>=' ' && c<='~'`
abbrev pub is_plain : ℕ → Bool
is_plain c = leb b' ' c && leb c b'~'

unfoldable pub ascii_column : List ℕ → List ℕ
ascii_column [] = []
ascii_column (c ∷ cs) = (if is_plain c then c else b'.') ∷ ascii_column cs

-- A line for the bytes at an address: `blanks` stand for the bytes missing to 16.
unfoldable pub dump_line : ℕ → (blanks : ℕ) → List ℕ → List ℕ
dump_line at blanks bs =
    address at
    ++ (hex_column bs ++ (replicate (4 * blanks) b' ' ++ (b'|' ∷ (ascii_column bs ++ codes "|\n"))))

-- The loop over the full lines, whose ints do not overflow below 2 ^ 31 bytes, and the line of what is left over.
unfoldable pub dump_lines : (lines at : ℕ) → List ℕ → List (List ℕ)
dump_lines zero at [] = []
dump_lines zero at (b ∷ bs) = dump_line at (16 - length (b ∷ bs)) (b ∷ bs) ∷ []
dump_lines (suc lines) at bs = dump_line at 0 (take 16 bs) ∷ dump_lines lines (at + 16) (drop 16 bs)

-- The text written; `none` from 2 ^ 31 bytes on, where the int product `j*16`, or the int `lines`
-- itself, overflows.
unfoldable pub hexdump : (mem : ℕ) → List ℕ → Option (List ℕ)
hexdump mem bytes =
    if ltb (length bytes) (2 ^ 31)
    then some (join (dump_lines (length bytes / 16) mem bytes))
    else none
