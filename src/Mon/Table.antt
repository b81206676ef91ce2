-- ===== src/Mon/Table.antt =====
-- main.c: the table `MonCmds`, and how `monProcess` finds a word of a line in it.
pub mod Words
use yar.Base.{
  codes, ℕ, zero, suc, ◌+◌, Bool, true, false, ◌&&◌, ◌||◌, Option, none, some, List, [], ◌∷◌, ◌==◌,
  if◌then◌else◌, get_or, drop,
}
use yar.Kernel.{Str}

abbrev pub mon_linelen : ℕ
mon_linelen = 4096

-- The functions of the table `MonCmds`.
pub data MonCmd : Type 0 where
  mon_help mon_del mon_drain mon_add mon_list mon_exit mon_idle_exit mon_toggle_restart : MonCmd
  mon_toggle_lb mon_toggle_prefix mon_verbose_inc mon_verbose_dec mon_toggle_silent : MonCmd

abbrev pub mon_cmds : List (Str × MonCmd)
mon_cmds =
    (codes "help", mon_help)
    ∷ (codes "del", mon_del)
    ∷ (codes "d", mon_del)
    ∷ (codes "drain", mon_drain)
    ∷ (codes "add", mon_add)
    ∷ (codes "a", mon_add)
    ∷ (codes "list", mon_list)
    ∷ (codes "l", mon_list)
    ∷ (codes "exit", mon_exit)
    ∷ (codes "e", mon_exit)
    ∷ (codes "idleexit", mon_idle_exit)
    ∷ (codes "ie", mon_idle_exit)
    ∷ (codes "restart", mon_toggle_restart)
    ∷ (codes "r", mon_toggle_restart)
    ∷ (codes "quit", mon_exit)
    ∷ (codes "q", mon_exit)
    ∷ (codes "line", mon_toggle_lb)
    ∷ (codes "lb", mon_toggle_lb)
    ∷ (codes "pre", mon_toggle_prefix)
    ∷ (codes "p", mon_toggle_prefix)
    ∷ (codes "v+", mon_verbose_inc)
    ∷ (codes "v-", mon_verbose_dec)
    ∷ (codes "silent", mon_toggle_silent)
    ∷ []

-- `strncmp(a, b, n) == 0`, with `a` an array and `b` a string.
unfoldable pub strncmp_eq : ℕ → List ℕ → Str → Bool
strncmp_eq zero a b = true
strncmp_eq (suc n) a b =
    get_or a 0 0 == get_or b 0 0 && (get_or a 0 0 == 0 || strncmp_eq n (drop 1 a) (drop 1 b))

-- The string that starts at a place of an array.
unfoldable pub c_string : List ℕ → Str
c_string [] = []
c_string (c ∷ cs) = if c == 0 then [] else c ∷ c_string cs

-- The loop of `monProcess`: the place of the first blank or null, and whether it is a blank;
-- `none` if the array has neither.
unfoldable pub find_word_end : List ℕ → ℕ → Option (ℕ × Bool)
find_word_end [] i = none
find_word_end (c ∷ cs) i =
    let rest = find_word_end cs (i + 1) in
    if c == b' ' then some (i, true) else if c == 0 then some (i, false) else rest

-- The entry of the table for the word in front of the array, of length `i`.
unfoldable pub find_mon_cmd : List (Str × MonCmd) → List ℕ → ℕ → Option MonCmd
find_mon_cmd [] line i = none
find_mon_cmd ((name, cmd) ∷ rest) line i =
    if strncmp_eq (i + 1) line name then some cmd else find_mon_cmd rest line i
