-- ===== src/Tests/Relay.antt =====
-- The theorem on `GBLSCmdsWriteChar` (main.c) at concrete values.
use yar.Base.{◌≡◌, refl, true, ◌++◌, [], ◌∷◌}
use yar.State.{Sys}
use yar.Monad.{ok}
use yar.Registry.{addrs}
use yar.Registry.Table.{absent, apart}
use yar.Bcst.{cmds_write_char}
use yar.Bcst.Relay.{Serving, writes, sends, cmds_write_char-sends}
use yar.Tests.{start, quiet, talker, willing}

abbrev two_cmds : Sys
two_cmds = record start { g = record quiet { cmds = talker ∷ record talker { addr = 2 } ∷ [] } }

willing-Serving : Serving willing
willing-Serving = record { takes = λ fd. record { all = λ h bs. refl }; clock = λ h. refl }

cmds_apart : apart (addrs two_cmds.g.cmds) ≡ true
unfolding apart absent
cmds_apart = refl

cmds_write_char-sends_example :
    (s' : Sys) × (cmds_write_char b'x' two_cmds ≡ ok 2 s')
    × (writes s'.calls ≡ writes [] ++ sends b'x' two_cmds.g.cmds)
    × (addrs s'.g.cmds ≡ addrs two_cmds.g.cmds)
cmds_write_char-sends_example = cmds_write_char-sends b'x' two_cmds willing-Serving refl cmds_apart
