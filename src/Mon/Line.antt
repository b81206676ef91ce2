-- ===== src/Mon/Line.antt =====
-- main.c: the monitor's events: bytes gathered to a line, and the line's command run.
use yar.Base.{ℕ, ◌+◌, true, false, Option, none, some, List, ltb, ◌==◌, if◌then◌else◌, set, drop}
use yar.Kernel.{Str, Fd, Env, read_call, got, ok_msg, failed_msg, greeting, usage_msg, not_found}
use yar.State.{Globals}
use yar.Monad.{
  M, aborted, undefined, ◌>>=◌, ◌>>◌, pure, halt, assert, get, modify, when, call, monprintf,
}
use yar.Tty.Io.{in_open, is_close}
use yar.Evnts.{Evnts}
use yar.Mon.Table.{mon_linelen, mon_cmds, c_string, find_word_end, find_mon_cmd}
use yar.Mon.Commands.{run_mon_cmd}

-- The end of `monProcess`: the command in the first `i` bytes, with its argument.
unfoldable pub run_line : List ℕ → ℕ → Option Str → Fd → M (Unit {0})
run_line line i arg epollfd = elim (find_mon_cmd mon_cmds line i) [
  | some cmd ↦ do
    ok ← run_mon_cmd cmd arg epollfd
    monprintf (if ok then ok_msg else failed_msg)
    monprintf greeting
  | none ↦ do
    monprintf (not_found (c_string line))
    monprintf usage_msg
    monprintf failed_msg
    monprintf greeting
]

-- An array with neither blank nor null is read past its end.
unfoldable pub mon_process : Fd → M (Unit {0})
mon_process epollfd = do
  g ← get
  let line = g.mon.line
  if g.mon.n == 0 then pure tt else elim (find_word_end line 0) [
    | none ↦ halt undefined
    | some (i, true) ↦
        modify (λ g. record g { mon = record g.mon { line = set line i 0 } })
        >> run_line (set line i 0) i (some (c_string (drop (i + 1) line))) epollfd
    | some (i, false) ↦ run_line line i none epollfd
  ]

abbrev pub set_mon : (line : List ℕ) (n : ℕ) → Globals → Globals
set_mon line n g = record g { mon = record g.mon { line = line; n = n } }

-- `monEvent` for the byte `c` read to index `curn`. When the line is full the code looks at
-- `line[MON_LINELEN]`, which is out of bounds.
unfoldable pub mon_char : ℕ → Fd → M (Unit {0})
mon_char c epollfd = do
  g ← get
  let curn = g.mon.n + 1
  let line = set g.mon.line g.mon.n c
  if curn == mon_linelen
      then halt undefined
      else if c == b'\n'
      then (do
        modify (set_mon (set line g.mon.n 0) curn)
        mon_process epollfd
        modify (λ g. record g { mon = record g.mon { n = 0 } }))
      else modify (set_mon line curn)

unfoldable pub mon_event : Evnts → Fd → M (Unit {0})
mon_event evnts epollfd = when evnts.ein (do
  g ← get
  assert (ltb g.mon.n mon_linelen)
  r ← call (read_call g.mon.tty.dfd) (λ (e : Env) h. e.read h g.mon.tty.dfd)
  elim r [ got c ↦ mon_char c epollfd | _ ↦ halt aborted ])

unfoldable pub mon_notify : ℕ → M (Unit {0})
mon_notify mask =
    if mask == in_open then monprintf greeting else if is_close mask then pure tt else halt aborted
