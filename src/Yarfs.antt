-- ===== src/Yarfs.antt =====
-- yarfs.c: the files that show yar's commands and ttys, and `fsFuseReplyBufLimited` of fs.c.
-- `none` is undefined behaviour or a failed assert: a null string, a write behind the end of the
-- buffer, or bytes sent that nothing has set. The sums of lengths stay far below 2 ^ 63.
pub mod Writers
pub mod Content
pub mod Reading
use yar.Base.{
  ℕ, ◌+◌, ◌-◌, Bool, true, false, Option, none, some, List, [], ◌∷◌, ◌++◌, ltb, leb, ◌==◌,
  if◌then◌else◌, length, take, drop, min, codes, decimal,
}
use yar.Kernel.{Str}
use yar.State.{Globals, Cmd}

-- The files, named by their tables of operations `fs_pid_ops`, `fs_cmds_ops`, ...
pub data YarFile : Type 0 where
  pid_file cmds_file lcmds_file ttys_file bcst_file : YarFile

abbrev pub strlen : Option Str → Option ℕ
strlen none = none
strlen (some s) = some (length s)

infixl 6 ◌+?◌
abbrev pub ◌+?◌ : Option ℕ → Option ℕ → Option ℕ
none +? b = none
some a +? none = none
some a +? some b = some (a + b)

-- `assert(len > 0)` of what `snprintf` returned.
abbrev pub printed : {A : Type 0} → Str → Option A → Option A
printed s r = if ltb 0 (length s) then r else none

unfoldable pub pid_size : Globals → Option ℕ
pid_size g = some (length (decimal g.pid))

unfoldable pub cmd_names_size : List Cmd → Option ℕ
cmd_names_size [] = some 0
cmd_names_size (c ∷ cs) = strlen c.name +? some 1 +? cmd_names_size cs

unfoldable pub cmds_info_lines : Str → List Cmd → Option ℕ
cmds_info_lines pidstr [] = some 0
cmds_info_lines pidstr (c ∷ cs) =
    strlen c.name
    +? some 1
    +? (strlen c.clttty.link +? some 1)
    +? some (length pidstr + 1)
    +? (strlen c.cmdline +? some 1)
    +? cmds_info_lines pidstr cs

unfoldable pub cmds_info_size : Globals → Option ℕ
cmds_info_size g = printed (decimal g.pid) (cmds_info_lines (decimal g.pid) g.cmds)

unfoldable pub ttys_cmd_lines : Str → List Cmd → Option ℕ
ttys_cmd_lines pidstr [] = some 0
ttys_cmd_lines pidstr (c ∷ cs) =
    strlen c.clttty.link
    +? some 1
    +? some (length pidstr + 1)
    +? some (length (codes "cmd") + 1)
    +? (strlen c.name +? some 1)
    +? (strlen c.cmdline +? some 1)
    +? ttys_cmd_lines pidstr cs

unfoldable pub ttys_info_size : Globals → Option ℕ
ttys_info_size g =
    let pidstr = decimal g.pid in
    let cmdcntstr = decimal (length g.cmds) in
    printed pidstr (
      printed cmdcntstr (
        ttys_cmd_lines pidstr g.cmds
        +? (strlen g.bcsttty.link +? some 1)
        +? some (length pidstr + 1)
        +? some (length (codes "bcst") + 1)
        +? some (length cmdcntstr + 2)
        +? (strlen g.mon.tty.link +? some 1)
        +? some (length pidstr + 1)
        +? some (length (codes "mon") + 3)))

unfoldable pub bcst_size : Option Str → Option ℕ
bcst_size none = some 0
bcst_size (some link) = some (length link + 1)

unfoldable pub file_size : YarFile → Globals → Option ℕ
file_size pid_file g = pid_size g
file_size cmds_file g = cmd_names_size g.cmds
file_size lcmds_file g = cmds_info_size g
file_size ttys_file g = ttys_info_size g
file_size bcst_file g = bcst_size g.bcsttty.link

-- A buffer of `malloc(size)` that is filled from its start: `next` stands behind `text`, and
-- `ended` says that the byte at `next` is the null of a `stpcpy`.
pub record Buf : Type 0 where
  pub size : ℕ
  pub text : List ℕ
  pub ended : Bool

abbrev pub malloc : ℕ → Buf
malloc n = record { size = n; text = []; ended = false }

abbrev pub Writer : Type 0
Writer = Buf → Option Buf

abbrev pub then_write : Option Buf → Writer → Option Buf
then_write none w = none
then_write (some b) w = w b

infixl 5 ◌>=>◌
abbrev pub ◌>=>◌ : Writer → Writer → Writer
◌>=>◌ v w b = then_write (v b) w

-- `next = stpcpy(next, s)`
abbrev pub put_str : Option Str → Writer
put_str none b = none
put_str (some s) b =
    if leb (length b.text + length s + 1) b.size
    then some (record b { text = b.text ++ s; ended = true })
    else none

-- `*next = c; next++`
abbrev pub put_char : ℕ → Writer
put_char c b =
    if ltb (length b.text) b.size
    then some (record b { text = b.text ++ (c ∷ []); ended = false })
    else none

-- The bytes sent: all that was allocated, which must all have been set.
abbrev pub sent : Option Buf → Option (List ℕ)
sent none = none
sent (some b) =
    let bytes = if b.ended then b.text ++ (0 ∷ []) else b.text in
    if length bytes == b.size then some bytes else none

abbrev pub fill : Option ℕ → Writer → Option (List ℕ)
fill none w = none
fill (some n) w = sent (w (malloc n))

-- A string and the character that ends it.
abbrev pub field : Option Str → ℕ → Writer
field s c = put_str s >=> put_char c

unfoldable pub put_names : List Cmd → Writer
put_names [] b = some b
put_names (c ∷ cs) b = (field c.name b'\n' >=> put_names cs) b

unfoldable pub put_infos : Str → List Cmd → Writer
put_infos pidstr [] b = some b
put_infos pidstr (c ∷ cs) b =
    (field c.name b','
        >=> field c.clttty.link b','
        >=> field (some pidstr) b','
        >=> field c.cmdline b'\n'
        >=> put_infos pidstr cs)
      b

unfoldable pub put_ttys : Str → List Cmd → Writer
put_ttys pidstr [] b = some b
put_ttys pidstr (c ∷ cs) b =
    (field c.clttty.link b','
        >=> field (some pidstr) b','
        >=> field (some (codes "cmd")) b','
        >=> field c.name b','
        >=> field c.cmdline b'\n'
        >=> put_ttys pidstr cs)
      b

unfoldable pub put_ttys_file : Globals → Writer
put_ttys_file g =
    let pidstr = decimal g.pid in
    put_ttys pidstr g.cmds
    >=> field g.bcsttty.link b','
    >=> field (some pidstr) b','
    >=> field (some (codes "bcst")) b','
    >=> field (some (decimal (length g.cmds))) b','
    >=> put_char b'\n'
    >=> field g.mon.tty.link b','
    >=> field (some pidstr) b','
    >=> field (some (codes "mon")) b','
    >=> put_char b','
    >=> put_char b'\n'

-- What the read handlers send from, up to `fsFuseReplyBufLimited`.
-- The pid is printed into `n + 1` bytes, of which `n` are sent.
abbrev pub pid_content : Globals → Option (List ℕ)
pid_content g = some (decimal g.pid)

abbrev pub cmds_content : Globals → Option (List ℕ)
cmds_content g = fill (cmd_names_size g.cmds) (put_names g.cmds)

abbrev pub lcmds_content : Globals → Option (List ℕ)
lcmds_content g =
    fill (cmds_info_size g) (λ b. printed (decimal g.pid) (put_infos (decimal g.pid) g.cmds b))

abbrev pub ttys_content : Globals → Option (List ℕ)
ttys_content g =
    fill (ttys_info_size g)
      (λ b. printed (decimal g.pid) (printed (decimal (length g.cmds)) (put_ttys_file g b)))

abbrev pub bcst_content : Globals → Option (List ℕ)
bcst_content g = fill (bcst_size g.bcsttty.link) (put_str g.bcsttty.link)

-- The `read` of each table of operations.
unfoldable pub file_content : YarFile → Globals → Option (List ℕ)
file_content pid_file g = pid_content g
file_content cmds_file g = cmds_content g
file_content lcmds_file g = lcmds_content g
file_content ttys_file g = ttys_content g
file_content bcst_file g = bcst_content g

unfoldable pub fs_fuse_reply_buf_limited : List ℕ → (bufsize off maxsize : ℕ) → List ℕ
fs_fuse_reply_buf_limited buf bufsize off maxsize =
    if ltb off bufsize then take (min (bufsize - off) maxsize) (drop off buf) else []

-- A read handler: the bytes replied.
unfoldable pub file_read : YarFile → Globals → (size off : ℕ) → Option (List ℕ)
file_read f g size off = reply (file_content f g)
  where
    reply : Option (List ℕ) → Option (List ℕ)
    reply none = none
    reply (some buf) = some (fs_fuse_reply_buf_limited buf (length buf) off size)
