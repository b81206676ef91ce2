-- ===== src/Ascii.antt =====
-- yar.h, main.c: the names of ASCII characters in what is written for debugging.
pub mod Names
use yar.Base.{
  ℕ, Bool, true, false, ◌&&◌, ◌||◌, Option, none, some, List, [], ◌∷◌, ltb, leb, ◌==◌,
  if◌then◌else◌, codes, get_or,
}
use yar.Kernel.{ℤ, pos, negsuc}

-- An int may be negative.
unfoldable pub ascii_isvalid : ℤ → Bool
ascii_isvalid (pos c) = leb c 127
ascii_isvalid (negsuc c) = false

unfoldable pub ascii_isprintable : ℤ → Bool
ascii_isprintable (pos c) =
    (leb b' ' c && leb c b'~') || ((c == b'\n') || ((c == b'\r') || (c == b'\t')))
ascii_isprintable (negsuc c) = false

-- The names of the characters from 0 to 31.
abbrev pub ascii_nonprintable : List (List ℕ)
ascii_nonprintable =
    codes "NUL"
    ∷ codes "SOH"
    ∷ codes "STX"
    ∷ codes "ETX"
    ∷ codes "EOT"
    ∷ codes "ENQ"
    ∷ codes "ACK"
    ∷ codes "\\a"
    ∷ codes "\\b"
    ∷ codes "\\t"
    ∷ codes "\\n"
    ∷ codes "\\v"
    ∷ codes "\\f"
    ∷ codes "\\r"
    ∷ codes "SO"
    ∷ codes "SI"
    ∷ codes "DLE"
    ∷ codes "DC1"
    ∷ codes "DC2"
    ∷ codes "DC3"
    ∷ codes "DC4"
    ∷ codes "NAK"
    ∷ codes "SYN"
    ∷ codes "ETB"
    ∷ codes "CAN"
    ∷ codes "EM"
    ∷ codes "SUB"
    ∷ codes "ESC"
    ∷ codes "FS"
    ∷ codes "GS"
    ∷ codes "RS"
    ∷ codes "US"
    ∷ []

-- What is put in front of the null of `str`: `none` where the result is false and `str` is empty.
unfoldable pub ascii_char2str : ℤ → Option (List ℕ)
ascii_char2str (negsuc c) = none
ascii_char2str (pos c) =
    if leb c 127
    then (if leb b' ' c && leb c b'~'
        then some (c ∷ [])
        else if c == 127
        then some (codes "DEL")
        else some (get_or ascii_nonprintable c []))
    else none
