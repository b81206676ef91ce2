-- ===== src/Cmd/Ring.antt =====
-- cmd.c: the circular buffer of a command's output and the lines cut from it (the macros, and the
-- part of `cmdttyProcessOutput` that finds the bytes of a complete line).
pub mod Refine
use yar.Base.{ℕ, ◌+◌, ◌-◌, ◌%◌, Bool, List, [], ◌∷◌, ltb, leb, ◌==◌, if◌then◌else◌, take, drop, set}

abbrev pub bufsize : ℕ
bufsize = 4096

abbrev pub n_to_i : ℕ → ℕ
n_to_i n = n % bufsize

abbrev pub wrapped : ℕ → Bool
wrapped n = leb bufsize n

-- Length of the data in the buffer, and where it starts, when `n` bytes have come in.
unfoldable pub data_len : ℕ → ℕ
data_len n = if wrapped n then bufsize else n

unfoldable pub data_start : ℕ → ℕ
data_start n = if wrapped n then n_to_i n else 0

-- `n` bytes at index `i`.
abbrev pub slice : List ℕ → ℕ → ℕ → List ℕ
slice buf i n = take n (drop i buf)

-- `this->buf[i] = c`
unfoldable pub store : List ℕ → ℕ → ℕ → List ℕ
store buf bufn c = set buf (n_to_i bufn) c

-- `this->bufof++` when the buffer has just come round to the start of the line; `bufn` counts
-- the byte just stored.
unfoldable pub overflow : ℕ → ℕ → ℕ → ℕ
overflow bufn bufstart bufof = if n_to_i bufn == n_to_i bufstart then bufof + 1 else bufof

-- The one or two writes that send a line whose last byte stands at index `end`.
unfoldable pub line_chunks : List ℕ → (bufof bufstart end : ℕ) → List (List ℕ)
line_chunks buf bufof bufstart end =
    let start = n_to_i bufstart in
    if bufof == 0
    then (if leb start end
        then slice buf start (end - start + 1) ∷ []
        else slice buf start (bufsize - start) ∷ slice buf 0 (end + 1) ∷ [])
    else if ltb (end + 1) bufsize
    then slice buf (end + 1) (bufsize - (end + 1)) ∷ slice buf 0 (end + 1) ∷ []
    else slice buf 0 (end + 1) ∷ []
