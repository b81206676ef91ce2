-- ===== src/Frame/Specs.antt =====
-- What the parsing of a command specification leaves alone.
use yar.Base.{Option, none, some, [], ◌∷◌}
use yar.Kernel.{Str}
use yar.Spec.{
  cmdspec_parse, check_path, with_name, with_link, with_log, with_delay, parse_delay, next_token,
}
use yar.Frame.{Keeps, keeping}

check_path-Keeps : (p : Option Str) → Keeps (check_path p)
unfolding check_path
check_path-Keeps p = search keeping

parse_delay-Keeps : (d : Str) → Keeps (parse_delay d)
unfolding parse_delay
parse_delay-Keeps [] = search keeping
parse_delay-Keeps (c ∷ cs) = search keeping

with_delay-Keeps :
    (n : Str) (l : Option Str) (g : Str) (t : Option (Str × Str)) → Keeps (with_delay n l g t)
unfolding with_delay
with_delay-Keeps n l g none = search keeping
with_delay-Keeps n l g (some (d, cmdline)) = search (keeping, parse_delay-Keeps)

with_log-Keeps : (n : Str) (l : Option Str) (t : Option (Str × Str)) → Keeps (with_log n l t)
unfolding with_log
with_log-Keeps n l none = search keeping
with_log-Keeps n l (some (g, s)) = with_delay-Keeps n l g (next_token (some s))

with_link-Keeps : (n : Str) (t : Option (Str × Str)) → Keeps (with_link n t)
unfolding with_link
with_link-Keeps n none = search keeping
with_link-Keeps n (some (l, s)) = search (keeping, check_path-Keeps, with_log-Keeps)

pub cmdspec_parse-Keeps : (s : Str) → Keeps (cmdspec_parse s)
unfolding cmdspec_parse with_name
cmdspec_parse-Keeps s = named (next_token (some s))
  where
    named : (t : Option (Str × Str)) → Keeps (with_name t)
    named none = search keeping
    named (some (n, rest)) = with_link-Keeps n (next_token (some rest))
