-- ===== src/Bcst/Delays.antt =====
-- main.c: the slowest command of a table.
use yar.Base.{
  ℕ, ◌≡◌, refl, ap₂, inl, inr, Bool, true, false, not, ◌&&◌, Option, none, some, List, [], ◌∷◌,
  ◌++◌, ◌==◌, ==_iff, Bool-cases, if◌then◌else◌, arith,
}
use yar.Kernel.{ℤ, pos, negsuc}
use yar.State.{Cmd}
use yar.Registry.{find_addr, addrs}
use yar.Registry.Table.{absent}
use yar.Bcst.{ltℤ}

-- No command of the table has a delay above `d`.
abbrev pub none_slower : ℤ → List Cmd → Bool
none_slower d [] = true
none_slower d (c ∷ cs) = not (ltℤ d c.delay) && none_slower d cs

-- The pointer to the slowest command: null for an empty table, else to a command of it that has
-- the greatest delay.
abbrev pub Slowest : Option ℕ → List Cmd → Type 0
Slowest none cs = cs ≡ []
Slowest (some p) cs = (c : Cmd) × (find_addr cs p ≡ some c) × (none_slower c.delay cs ≡ true)

pub ltℤ_irrefl : (d : ℤ) → ltℤ d d ≡ false
ltℤ_irrefl (pos a) = ground arith
ltℤ_irrefl (negsuc a) = ground arith

-- What is not above `d` is not above a greater delay.
ltℤ_mono : (d e x : ℤ) → ltℤ d e ≡ true → ltℤ d x ≡ false → ltℤ e x ≡ false
ltℤ_mono (pos d) (pos e) (pos x) h k = ground arith
ltℤ_mono (pos d) (pos e) (negsuc x) h k = refl
ltℤ_mono (pos d) (negsuc e) x h k = absurd (cc)
ltℤ_mono (negsuc d) (pos e) (pos x) h k = absurd (cc)
ltℤ_mono (negsuc d) (pos e) (negsuc x) h k = refl
ltℤ_mono (negsuc d) (negsuc e) (pos x) h k = absurd (cc)
ltℤ_mono (negsuc d) (negsuc e) (negsuc x) h k = ground arith

pub none_slower-append :
    (d : ℤ) (cs : List Cmd) (cmd : Cmd)
    → none_slower d cs ≡ true
    → ltℤ d cmd.delay ≡ false
    → none_slower d (cs ++ (cmd ∷ [])) ≡ true
none_slower-append d [] cmd h k = rw k refl
none_slower-append d (c ∷ cs) cmd h k =
    let head : ltℤ d c.delay ≡ false = ground arith in
    let rest : none_slower d cs ≡ true = ground arith in
    ap₂ (λ b r. not b && r) head (none_slower-append d cs cmd rest k)

none_slower_mono :
    (d e : ℤ) (cs : List Cmd) → ltℤ d e ≡ true → none_slower d cs ≡ true → none_slower e cs ≡ true
none_slower_mono d e [] lt h = refl
none_slower_mono d e (c ∷ cs) lt h =
    let head : ltℤ d c.delay ≡ false = ground arith in
    let rest : none_slower d cs ≡ true = ground arith in
    ap₂ (λ b r. not b && r) (ltℤ_mono d e c.delay lt head) (none_slower_mono d e cs lt rest)

find_addr-old :
    (cs : List Cmd) (cmd c : Cmd) (p : ℕ)
    → find_addr cs p ≡ some c
    → find_addr (cs ++ (cmd ∷ [])) p ≡ some c
unfolding find_addr
find_addr-old [] cmd c p h = absurd (cc)
find_addr-old (x ∷ cs) cmd c p h = elim (Bool-cases (x.addr == p)) [
  | inl e ↦ rw e (rw e at h)
  | inr e ↦ rw e (find_addr-old cs cmd c p (rw e at h))
]

pub find_addr-new :
    (cs : List Cmd) (cmd : Cmd) (p : ℕ)
    → cmd.addr ≡ p
    → absent p (addrs cs) ≡ true
    → find_addr (cs ++ (cmd ∷ [])) p ≡ some cmd
unfolding find_addr absent
find_addr-new [] cmd p e far =
    let hit : (cmd.addr == p) ≡ true = (==_iff cmd.addr p).1 e in rw hit refl
find_addr-new (x ∷ cs) cmd p e far =
    let miss : (x.addr == p) ≡ false = ground arith in
    let rest : absent p (addrs cs) ≡ true = ground arith in rw miss (find_addr-new cs cmd p e rest)

-- The command that `slower` chooses is the slowest with the new one in the table.
pub Slowest-append :
    (cs : List Cmd) (cmd c : Cmd) (p q : ℕ)
    → cmd.addr ≡ p
    → absent p (addrs cs) ≡ true
    → find_addr cs q ≡ some c
    → none_slower c.delay cs ≡ true
    → Slowest (some (if ltℤ c.delay cmd.delay then p else q)) (cs ++ (cmd ∷ []))
Slowest-append cs cmd c p q e far found top = elim (Bool-cases (ltℤ c.delay cmd.delay)) [
  | inl lt ↦ rw lt (
    cmd,
    find_addr-new cs cmd p e far,
    none_slower-append cmd.delay cs cmd (none_slower_mono c.delay cmd.delay cs lt top)
        (ltℤ_irrefl cmd.delay),
  )
  | inr ge ↦ rw ge (c, find_addr-old cs cmd c q found, none_slower-append c.delay cs cmd top ge)
]
