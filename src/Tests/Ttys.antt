-- ===== src/Tests/Ttys.antt =====
-- The theorems on ttys (tty.c) at concrete values.
use yar.Base.{◌≡◌, refl, true, false, some, none, [], ◌∷◌, arith, replicate}
use yar.State.{Tty, Sys}
use yar.Monad.{ok, stop, undefined}
use yar.Tty.Io.{tty_write_buf, written}
use yar.Tty.Io.Discard.{Kept, tty_write_buf-Kept, tty_write_buf-undefined}
use yar.Tty.Clash.{tty_create-unlink}
use yar.Tty.{tty_create}
use yar.Kernel.{unlink_call, access_call}
use yar.State.{no_desc}
use yar.Tests.{closed_tty, no_tty, start, willing}

closed_tty-Kept : Kept closed_tty []
closed_tty-Kept = record { size = refl; counted = refl; rest = replicate 1024 0; first = refl }

tty_write_buf-Kept_example :
    (t : Tty) × (tty_write_buf closed_tty (1 ∷ 2 ∷ []) none start
      ≡ ok (written (some 2) t none) start)
    × Kept t (1 ∷ 2 ∷ [])
tty_write_buf-Kept_example =
    tty_write_buf-Kept closed_tty [] (1 ∷ 2 ∷ []) start closed_tty-Kept refl (omega arith)
      (omega arith)

abbrev flooded : Tty
flooded = record closed_tty { wdbytes = 3000000000 }

tty_write_buf-undefined_example : tty_write_buf flooded (1 ∷ []) none start ≡ stop undefined start
tty_write_buf-undefined_example = tty_write_buf-undefined flooded 1 [] none start refl (omega arith)

-- The same world, with something at every path.
abbrev taken : Sys
taken = record start { env = record willing { access = λ h p. true } }

abbrev linked : Tty
linked = record no_tty { link = some (b'l' ∷ []) }

tty_create-unlink_example :
    tty_create linked no_desc no_desc no_desc true taken
    ≡ ok
        (false, no_tty)
        (record taken { calls = unlink_call (b'l' ∷ []) ∷ access_call (b'l' ∷ []) ∷ [] })
tty_create-unlink_example =
    tty_create-unlink linked b'l' [] no_desc no_desc no_desc true taken refl refl refl refl refl
      refl refl
