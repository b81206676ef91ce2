-- ===== src/Base/Bytes.antt =====
-- Byte strings: texts as bytes, pieces put together, and the digits that `printf` writes.
use Prim.Native.String.{String}
use Prim.Native.Char.{code}
use Prim.Native.Nat.{ℕ, zero, suc, ◌+◌, ◌/◌, ◌%◌}
use mathlib.Core.Path.{◌≡◌, refl}
use mathlib.Core.List.{List, [], ◌∷◌, ◌++◌, append_assoc}
use yar.Base.Tests.{ltb, if◌then◌else◌}

abbrev pub codes : String → List ℕ
codes String.[] = []
codes (String.◌∷◌ c s) = code c ∷ codes s

-- Pieces in order.
abbrev pub join : List (List ℕ) → List ℕ
join [] = []
join (bs ∷ rest) = bs ++ join rest

pub join-append : (a b : List (List ℕ)) → join (a ++ b) ≡ join a ++ join b
join-append [] b = refl
join-append (x ∷ a) b = rw (join-append a b, append_assoc x (join a) (join b))

-- The digits of `n`, at most `fuel` of them, in front of `rest`.
unfoldable pub decimal_from : (fuel n : ℕ) → List ℕ → List ℕ
decimal_from zero n rest = rest
decimal_from (suc fuel) n rest =
    let digits = (b'0' + n % 10) ∷ rest in
    let more = decimal_from fuel (n / 10) digits in if ltb n 10 then digits else more

-- `%jd` of an int of up to 64 bits that is not negative: 20 digits hold 2 ^ 64.
unfoldable pub decimal : ℕ → List ℕ
unfolding decimal_from
decimal n = decimal_from 20 n []
