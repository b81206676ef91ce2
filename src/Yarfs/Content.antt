-- ===== src/Yarfs/Content.antt =====
-- yarfs.c: each file is as large as its attribute says and holds the lines of its listing.
use yar.Base.{
  ℕ, zero, suc, ◌+◌, ◌≤◌, ◌<◌, ◌≡◌, refl, sym, ap, subst, ◌∙◌, Option, none, some, List, [], ◌∷◌,
  ◌++◌, map, ltb, Bool-cases, inl, inr, length, length-append, codes, decimal, decimal_from, arith,
  lt→ltb, le→leb, ==_of, ◌/◌, ◌%◌,
}
use yar.Kernel.{Str}
use yar.State.{Globals, Cmd}
use yar.Yarfs.{
  YarFile, pid_file, cmds_file, lcmds_file, ttys_file, bcst_file, strlen, ◌+?◌, printed, pid_size,
  cmd_names_size, cmds_info_lines, cmds_info_size, ttys_cmd_lines, ttys_info_size, bcst_size,
  file_size, Writer, put_str, fill, put_names, put_infos, put_ttys, put_ttys_file, file_content,
}
use yar.Yarfs.Writers.{
  Fills, ◌++?◌, line, lines, cmd_row, tty_row, listing, ++?_assoc, +?_assoc, strlen-++?, Adds,
  nothing-Adds, fill-Adds, Fills-Adds, ◌and◌, part, mark, strlen-field, length-field, fills,
}

put_names-Fills : (cs : List Cmd) → Fills (put_names cs) (lines (map (λ c. c.name ∷ []) cs))
unfolding put_names
put_names-Fills [] = fills (nothing-Adds (put_names []) (λ b. refl))
put_names-Fills (c ∷ cs) = part c.name b'\n' and put_names-Fills cs

put_infos-Fills :
    (pid : Str) (cs : List Cmd) → Fills (put_infos pid cs) (lines (map (cmd_row pid) cs))
unfolding put_infos
put_infos-Fills pid [] = fills (nothing-Adds (put_infos pid []) (λ b. refl))
put_infos-Fills pid (c ∷ cs) =
    let row =
      part c.name b','
      and part c.clttty.link b','
      and part (some pid) b','
      and part c.cmdline b'\n'
      and put_infos-Fills pid cs in
    subst (Fills (put_infos pid (c ∷ cs))) (simp ++?_assoc) row

put_ttys-Fills :
    (pid : Str) (cs : List Cmd) → Fills (put_ttys pid cs) (lines (map (tty_row pid) cs))
unfolding put_ttys
put_ttys-Fills pid [] = fills (nothing-Adds (put_ttys pid []) (λ b. refl))
put_ttys-Fills pid (c ∷ cs) =
    let row =
      part c.clttty.link b','
      and part (some pid) b','
      and part (some (codes "cmd")) b','
      and part c.name b','
      and part c.cmdline b'\n'
      and put_ttys-Fills pid cs in
    subst (Fills (put_ttys pid (c ∷ cs))) (simp ++?_assoc) row

rows_assoc :
    (t b p k c m l e n : Option Str)
    → ((((((((((t ++? (b ++? e)) ++? (p ++? e)) ++? (k ++? e)) ++? (c ++? e)) ++? n) ++? (m ++? e))
              ++? (p ++? e))
            ++? (l ++? e))
          ++? e)
        ++? n)
      ≡ t
        ++? ((b ++? (e ++? (p ++? (e ++? (k ++? (e ++? (c ++? (e ++? n))))))))
            ++? (m ++? (e ++? (p ++? (e ++? (l ++? (e ++? (e ++? n))))))))
rows_assoc t b p k c m l e n = simp ++?_assoc

put_ttys_file-Fills : (g : Globals) → Fills (put_ttys_file g) (listing ttys_file g)
unfolding put_ttys_file
put_ttys_file-Fills g =
    let pid = decimal g.pid in
    let all =
      put_ttys-Fills pid g.cmds
      and part g.bcsttty.link b','
      and part (some pid) b','
      and part (some (codes "bcst")) b','
      and part (some (decimal (length g.cmds))) b','
      and mark b'\n'
      and part g.mon.tty.link b','
      and part (some pid) b','
      and part (some (codes "mon")) b','
      and mark b','
      and mark b'\n' in
    subst (Fills (put_ttys_file g))
      (rows_assoc (lines (map (tty_row pid) g.cmds)) g.bcsttty.link (some pid) (some (codes "bcst"))
        (some (decimal (length g.cmds))) g.mon.tty.link (some (codes "mon")) (some (b',' ∷ []))
        (some (b'\n' ∷ [])))
      all

strlen-names : (cs : List Cmd) → cmd_names_size cs ≡ strlen (lines (map (λ c. c.name ∷ []) cs))
unfolding cmd_names_size
strlen-names [] = refl
strlen-names (c ∷ cs) =
    rw (strlen-field c.name b'\n', strlen-names cs)
      (sym (strlen-++? (c.name ++? some (b'\n' ∷ [])) _))

strlen-infos :
    (pid : Str) (cs : List Cmd) → cmds_info_lines pid cs ≡ strlen (lines (map (cmd_row pid) cs))
unfolding cmds_info_lines
strlen-infos pid [] = refl
strlen-infos pid (c ∷ cs) =
    rw
      (
        strlen-infos pid cs,
        strlen-field c.name b',',
        strlen-field c.clttty.link b',',
        length-field pid b',',
        strlen-field c.cmdline b'\n',
      )
      (simp (strlen-++?, ++?_assoc, +?_assoc))

strlen-ttys :
    (pid : Str) (cs : List Cmd) → ttys_cmd_lines pid cs ≡ strlen (lines (map (tty_row pid) cs))
unfolding ttys_cmd_lines
strlen-ttys pid [] = refl
strlen-ttys pid (c ∷ cs) =
    rw
      (
        strlen-ttys pid cs,
        strlen-field c.name b',',
        strlen-field c.clttty.link b',',
        length-field pid b',',
        length-field (codes "cmd") b',',
        strlen-field c.cmdline b'\n',
      )
      (simp (strlen-++?, ++?_assoc, +?_assoc))

strlen-rows :
    (t b m : Option Str) (p c : Str)
    → strlen t
        +? (strlen b +? some 1)
        +? some (length p + 1)
        +? some 5
        +? some (length c + 2)
        +? (strlen m +? some 1)
        +? some (length p + 1)
        +? some 6
      ≡ strlen (
          t
          ++? (line (b ∷ some p ∷ some (codes "bcst") ∷ some c ∷ some [] ∷ [])
              ++? line (m ∷ some p ∷ some (codes "mon") ∷ some [] ∷ some [] ∷ [])))
strlen-rows none b m p c = refl
strlen-rows (some t) none m p c = refl
strlen-rows (some t) (some b) none p c = refl
strlen-rows (some t) (some b) (some m) p c = ap some (simp length-append (omega arith))

length-decimal_from : (fuel n : ℕ) (rest : Str) → length rest ≤ length (decimal_from fuel n rest)
unfolding decimal_from
length-decimal_from zero n rest = omega arith
length-decimal_from (suc fuel) n rest = elim (Bool-cases (ltb n 10)) [
  | inl e ↦ rw e (omega arith)
  | inr e ↦ rw e (omega (arith, length-decimal_from fuel (n / 10) ((b'0' + n % 10) ∷ rest)))
]

decimal-positive : (n : ℕ) → 0 < length (decimal n)
unfolding decimal decimal_from
decimal-positive n = elim (Bool-cases (ltb n 10)) [
  | inl e ↦ rw e (omega arith)
  | inr e ↦ rw e (length-decimal_from 19 (n / 10) ((b'0' + n % 10) ∷ []))
]

-- `snprintf` writes at least a digit.
printed-decimal : {A : Type 0} (n : ℕ) (r : Option A) → printed (decimal n) r ≡ r
printed-decimal n r = rw (lt→ltb 0 (length (decimal n)) (decimal-positive n)) refl

printed-Adds :
    (n : ℕ) (w : Writer) (t : Option Str) → Adds w t → Adds (λ b. printed (decimal n) (w b)) t
printed-Adds n w none a = tt
printed-Adds n w (some t) a = λ size x l. printed-decimal n (w _) ∙ a size x l

fill-bcst : (link : Option Str) → fill (bcst_size link) (put_str link) ≡ link ++? some (0 ∷ [])
unfolding bcst_size
fill-bcst none = refl
fill-bcst (some s) =
    rw
      (
        le→leb (0 + length s + 1) (length s + 1) (omega arith),
        ==_of (length (s ++ (0 ∷ []))) (length s + 1) (length-append s (0 ∷ [])),
      )
      refl

cmds_info_size-listing : (g : Globals) → cmds_info_size g ≡ strlen (listing lcmds_file g)
unfolding cmds_info_size
cmds_info_size-listing g =
    printed-decimal g.pid (cmds_info_lines (decimal g.pid) g.cmds)
    ∙ strlen-infos (decimal g.pid) g.cmds

ttys_info_size-listing : (g : Globals) → ttys_info_size g ≡ strlen (listing ttys_file g)
unfolding ttys_info_size
ttys_info_size-listing g =
    printed-decimal g.pid _
    ∙ printed-decimal (length g.cmds) _
    ∙ ap
        (λ t.
          t
          +? (strlen g.bcsttty.link +? some 1)
          +? some (length (decimal g.pid) + 1)
          +? some 5
          +? some (length (decimal (length g.cmds)) + 2)
          +? (strlen g.mon.tty.link +? some 1)
          +? some (length (decimal g.pid) + 1)
          +? some 6)
        (strlen-ttys (decimal g.pid) g.cmds)
    ∙ strlen-rows (lines (map (tty_row (decimal g.pid)) g.cmds)) g.bcsttty.link g.mon.tty.link
        (decimal g.pid) (decimal (length g.cmds))

-- A read of a file sends just these bytes, and writes none behind the end of its buffer: of /pid the
-- process id; of /cmds a line with the name of each command; of /lcmds one with its name, the link of
-- its client tty, the process id and its command line; of /ttys one with that link, the process id,
-- "cmd", its name and its command line, then a line with the link of the broadcast tty, the process
-- id, "bcst", the number of commands and an empty field, and one with the link of the monitor's tty,
-- the process id, "mon" and two empty fields; of /bcst the link of the broadcast tty and a null. It is
-- undefined exactly if one of these strings is null.
pub file_content-listing : (f : YarFile) (g : Globals) → file_content f g ≡ listing f g
unfolding file_content
file_content-listing pid_file g = refl
file_content-listing cmds_file g =
    rw (strlen-names g.cmds) (fill-Adds _ _ (Fills-Adds (put_names-Fills g.cmds)))
file_content-listing lcmds_file g = rw (cmds_info_size-listing g) (
    fill-Adds _ _ (
      printed-Adds g.pid (put_infos (decimal g.pid) g.cmds) _
        (Fills-Adds (put_infos-Fills (decimal g.pid) g.cmds))))
file_content-listing ttys_file g = rw (ttys_info_size-listing g) (
    fill-Adds _ (listing ttys_file g) (
      printed-Adds g.pid (λ b. printed (decimal (length g.cmds)) (put_ttys_file g b)) _
        (printed-Adds (length g.cmds) (put_ttys_file g) (listing ttys_file g)
          (Fills-Adds (put_ttys_file-Fills g)))))
file_content-listing bcst_file g = fill-bcst g.bcsttty.link

bcst_size-listing :
    (link : Option Str) (t : Str)
    → link ++? some (0 ∷ []) ≡ some t
    → bcst_size link ≡ strlen (link ++? some (0 ∷ []))
unfolding bcst_size
bcst_size-listing none t h = cc
bcst_size-listing (some s) t h = ap some (sym (length-append s (0 ∷ [])))

file_size-listing :
    (f : YarFile) (g : Globals) (t : Str)
    → listing f g ≡ some t
    → file_size f g ≡ strlen (listing f g)
unfolding file_size pid_size
file_size-listing pid_file g t h = refl
file_size-listing cmds_file g t h = strlen-names g.cmds
file_size-listing lcmds_file g t h = cmds_info_size-listing g
file_size-listing ttys_file g t h = ttys_info_size-listing g
file_size-listing bcst_file g t h = bcst_size-listing g.bcsttty.link t h

-- Whenever a file can be read, the size in its attributes is the length of what is sent.
pub file_size-file_content :
    (f : YarFile) (g : Globals) (t : Str)
    → file_content f g ≡ some t
    → file_size f g ≡ some (length t)
file_size-file_content f g t h =
    let e : listing f g ≡ some t = sym (file_content-listing f g) ∙ h in
    file_size-listing f g t e ∙ ap strlen e
