-- ===== src/Yarfs/Writers.antt =====
-- yarfs.c: what the files hold, and writers that add a given text to a buffer.
use yar.Base.{
  ℕ, ◌+◌, ◌≤◌, ◌≡◌, refl, sym, ap, ◌∙◌, false, Option, none, some, List, [], ◌∷◌, ◌++◌, map, length,
  length-append, append_assoc, append-nil, codes, decimal, arith, lt→ltb, le→leb, ==_of,
}
use yar.Kernel.{Str}
use yar.State.{Globals, Cmd}
use yar.Yarfs.{
  YarFile, pid_file, cmds_file, lcmds_file, ttys_file, bcst_file, strlen, ◌+?◌, Buf, Writer, ◌>=>◌,
  put_char, fill, field,
}

-- Texts put together, as far as all of them are there.
infixr 5 ◌++?◌
abbrev pub ◌++?◌ : Option Str → Option Str → Option Str
none ++? t = none
some s ++? none = none
some s ++? some t = some (s ++ t)

-- A line of fields with commas between them.
abbrev pub line : List (Option Str) → Option Str
line [] = some (b'\n' ∷ [])
line (x ∷ []) = x ++? some (b'\n' ∷ [])
line (x ∷ y ∷ xs) = x ++? (some (b',' ∷ []) ++? line (y ∷ xs))

abbrev pub lines : List (List (Option Str)) → Option Str
lines [] = some []
lines (r ∷ rs) = line r ++? lines rs

abbrev pub cmd_row : Str → Cmd → List (Option Str)
cmd_row pid c = c.name ∷ c.clttty.link ∷ some pid ∷ c.cmdline ∷ []

abbrev pub tty_row : Str → Cmd → List (Option Str)
tty_row pid c = c.clttty.link ∷ some pid ∷ some (codes "cmd") ∷ c.name ∷ c.cmdline ∷ []

-- What each file holds. The usage text differs: it promises the number of broadcast clients where
-- the number of commands is, and the path of the broadcast tty only if that is enabled.
abbrev pub listing : YarFile → Globals → Option Str
listing pid_file g = some (decimal g.pid)
listing cmds_file g = lines (map (λ c. c.name ∷ []) g.cmds)
listing lcmds_file g = lines (map (cmd_row (decimal g.pid)) g.cmds)
listing ttys_file g =
    lines (map (tty_row (decimal g.pid)) g.cmds)
    ++? (line (
          g.bcsttty.link
          ∷ some (decimal g.pid)
          ∷ some (codes "bcst")
          ∷ some (decimal (length g.cmds))
          ∷ some []
          ∷ [])
        ++? line
            (g.mon.tty.link ∷ some (decimal g.pid) ∷ some (codes "mon") ∷ some [] ∷ some [] ∷ []))
listing bcst_file g = g.bcsttty.link ++? some (0 ∷ [])

pub ++?_assoc : (s t u : Option Str) → (s ++? t) ++? u ≡ s ++? (t ++? u)
++?_assoc none t u = refl
++?_assoc (some s) none u = refl
++?_assoc (some s) (some t) none = refl
++?_assoc (some s) (some t) (some u) = ap some (append_assoc s t u)

pub nothing-++? : (t : Option Str) → some [] ++? t ≡ t
nothing-++? none = refl
nothing-++? (some t) = refl

pub +?_assoc : (a b c : Option ℕ) → a +? b +? c ≡ a +? (b +? c)
+?_assoc none b c = refl
+?_assoc (some a) none c = refl
+?_assoc (some a) (some b) none = refl
+?_assoc (some a) (some b) (some c) = ap some (omega arith)

pub strlen-++? : (s t : Option Str) → strlen (s ++? t) ≡ strlen s +? strlen t
strlen-++? none t = refl
strlen-++? (some s) none = refl
strlen-++? (some s) (some t) = ap some (length-append s t)

-- A writer that adds the text, if it is there, to a buffer with room for it.
abbrev pub Adds : Writer → Option Str → Type 0
Adds w none = Unit {0}
Adds w (some s) =
    (n : ℕ) (x : List ℕ)
    → length x + length s ≤ n
    → w (record { size = n; text = x; ended = false })
      ≡ some (record { size = n; text = x ++ s; ended = false })

pub nothing-Adds : (w : Writer) → ((b : Buf) → w b ≡ some b) → Adds w (some [])
nothing-Adds w h n x l = rw (append-nil x) (h _)

pub put_char-Adds : (c : ℕ) → Adds (put_char c) (some (c ∷ []))
put_char-Adds c n x l = rw (lt→ltb (length x) n (omega arith)) refl

pub field-Adds : (s : Option Str) (c : ℕ) → Adds (field s c) (s ++? some (c ∷ []))
field-Adds none c = tt
field-Adds (some t) c = λ n x l.
    rw (le→leb (length x + length t + 1) n (omega (arith, length-append t (c ∷ [])))) (
      rw
        (
          lt→ltb (length (x ++ t)) n (omega (arith, length-append x t, length-append t (c ∷ []))),
          append_assoc x t (c ∷ []),
        )
        refl)

pub then-Adds : (v w : Writer) (t u : Option Str) → Adds v t → Adds w u → Adds (v >=> w) (t ++? u)
then-Adds v w none u hv hw = tt
then-Adds v w (some t) none hv hw = tt
then-Adds v w (some t) (some u) hv hw = λ n x l. rw (hv n x (omega (arith, length-append t u))) (
    hw n (x ++ t) (omega (arith, length-append t u, length-append x t))
    ∙ ap (λ y. some (record { size = n; text = y; ended = false })) (append_assoc x t u))

pub fill-Adds : (w : Writer) (t : Option Str) → Adds w t → fill (strlen t) w ≡ t
fill-Adds w none a = refl
fill-Adds w (some s) a = rw (a (length s) [] (omega arith), ==_of (length s) (length s) refl) refl

-- `Adds` as a type of its own, which fixes the writer and the text.
pub data Fills (w : Writer) (t : Option Str) : Type 0 where
  fills : Adds w t → Fills w t

pub Fills-Adds : {w : Writer} {t : Option Str} → Fills w t → Adds w t
Fills-Adds (fills a) = a

infixl 5 ◌and◌
pub ◌and◌ : {v w : Writer} {t u : Option Str} → Fills v t → Fills w u → Fills (v >=> w) (t ++? u)
◌and◌ {v} {w} {t} {u} (fills a) (fills b) = fills (then-Adds v w t u a b)

pub part : (s : Option Str) (c : ℕ) → Fills (field s c) (s ++? some (c ∷ []))
part s c = fills (field-Adds s c)

pub mark : (c : ℕ) → Fills (put_char c) (some (c ∷ []))
mark c = fills (put_char-Adds c)

pub strlen-field : (s : Option Str) (c : ℕ) → strlen s +? some 1 ≡ strlen (s ++? some (c ∷ []))
strlen-field none c = refl
strlen-field (some s) c = ap some (omega (arith, length-append s (c ∷ [])))

pub length-field : (s : Str) (c : ℕ) → some (length s + 1) ≡ strlen (some s ++? some (c ∷ []))
length-field s c = ap some (omega (arith, length-append s (c ∷ [])))

pub lines-append : (a b : List (List (Option Str))) → lines (a ++ b) ≡ lines a ++? lines b
lines-append [] b = sym (nothing-++? (lines b))
lines-append (r ∷ a) b = rw (lines-append a b) (sym (++?_assoc (line r) (lines a) (lines b)))
