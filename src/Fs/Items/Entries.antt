-- ===== src/Fs/Items/Entries.antt =====
-- fs.c: a directory as a map from names to items, and what adding an item does to it.
use yar.Base.{
  ℕ, zero, suc, ◌≡◌, ◌≢◌, refl, ap, subst, ◌∙◌, true, false, ◌⊎◌, not, inl, inr, Option, none, some,
  List, [], ◌∷◌, ◌++◌, str_eq, ◌==◌, if◌then◌else◌, length, get_or, set, get_or-set_self,
  get_or-set_ne, Bool-cases, Option-cases, arith, ==_iff, str_eq→eq, str_eq_refl, ◌<◌,
}
use yar.Kernel.{Str}
use yar.Fs.{Fs, FsFile, FsDir, dir_data, directory, is_null, done}
use yar.Fs.Items.{
  found, bears_name, is_named, find_ino, lookup_name, dir_add, add_entry, if_absent, as_dir,
}

-- The place `a` of the heap holds the directory `dir` with the tables `dd`.
pub record Directory (s : Fs) (a : ℕ) (dir : FsFile) (dd : FsDir) : Type 0 where
  pub here : get_or s.files a none ≡ some dir
  pub type : dir.type ≡ directory
  pub tables : dir.contents ≡ dir_data dd

abbrev pub names_of : Option FsFile → List ℕ
names_of none = []
names_of (some f) = names (as_dir f.contents)
  where
    names : Option FsDir → List ℕ
    names none = []
    names (some dd) = dd.nm_files

-- The item with a name in the directory at `a`.
abbrev pub dir_find : Fs → ℕ → Str → Option ℕ
dir_find s a name = lookup_name s.files (names_of (get_or s.files a none)) name

-- `dir` with `item` added to its tables.
abbrev pub with_item : FsFile → FsDir → ℕ → FsFile
with_item dir dd item = record dir {
  contents =
      dir_data
        (record { ino_files = dd.ino_files ++ (item ∷ []); nm_files = dd.nm_files ++ (item ∷ []) });
}

abbrev pub with_entry : Fs → ℕ → FsFile → FsDir → ℕ → Fs
with_entry s a dir dd item = record s { files = set s.files a (some (with_item dir dd item)) }

in_heap :
    (files : List (Option FsFile)) (a : ℕ) (f : FsFile)
    → get_or files a none ≡ some f
    → a < length files
in_heap [] a f e = absurd (nothing_there e)
  where
    nothing_there : none ≡ some f → ⊥
    nothing_there e = cc
in_heap (x ∷ files) zero f e = omega arith
in_heap (x ∷ files) (suc a) f e = omega (arith, in_heap files a f e)

lookup_name-append :
    (files : List (Option FsFile)) (l : List ℕ) (a : ℕ) (name : Str)
    → lookup_name files l name ≡ none
    → lookup_name files (l ++ (a ∷ [])) name ≡ found (bears_name (get_or files a none) name) a none
unfolding lookup_name
lookup_name-append files [] a name h = refl
lookup_name-append files (b ∷ l) a name h =
    elim (Bool-cases (bears_name (get_or files b none) name)) [
      | inl e ↦ absurd (no (rw e at h))
      | inr e ↦ rw e (lookup_name-append files l a name (rw e at h))
    ]
  where
    no : some b ≡ none → ⊥
    no e = cc

lookup_name-append_other :
    (files : List (Option FsFile)) (l : List ℕ) (a : ℕ) (name : Str)
    → bears_name (get_or files a none) name ≡ false
    → lookup_name files (l ++ (a ∷ [])) name ≡ lookup_name files l name
unfolding lookup_name
lookup_name-append_other files [] a name h = rw h refl
lookup_name-append_other files (b ∷ l) a name h =
    rw (lookup_name-append_other files l a name h) refl

-- A change of a file that keeps its name is not seen by a search.
differ : (a b : ℕ) → (a == b) ≡ false → a ≢ b
differ a b h = ground arith

bears_name-set :
    (files : List (Option FsFile)) (a b : ℕ) (f f' : FsFile) (name : Str)
    → get_or files a none ≡ some f
    → f'.name ≡ f.name
    → bears_name (get_or (set files a (some f')) b none) name
      ≡ bears_name (get_or files b none) name
bears_name-set files a b f f' name h e = elim (Bool-cases (a == b)) [
  | inl same ↦
      let (to, of) = ==_iff a b in
      subst
        (λ j.
          bears_name (get_or (set files a (some f')) j none) name
          ≡ bears_name (get_or files j none) name)
        (to same)
        (rw (get_or-set_self files a (some f') none (in_heap files a f h), h)
          (ap (λ n. is_named n name) e))
  | inr other ↦ rw (get_or-set_ne files a b (some f') none (differ a b other)) refl
]

lookup_name-set :
    (files : List (Option FsFile)) (a : ℕ) (f f' : FsFile) (l : List ℕ) (name : Str)
    → get_or files a none ≡ some f
    → f'.name ≡ f.name
    → lookup_name (set files a (some f')) l name ≡ lookup_name files l name
unfolding lookup_name
lookup_name-set files a f f' [] name h e = refl
lookup_name-set files a f f' (b ∷ l) name h e =
    rw (bears_name-set files a b f f' name h e, lookup_name-set files a f f' l name h e) refl

-- The asserts of `dir_add` hold of a directory, and it goes on to look the item up.
dir_add-looks_up :
    (s : Fs) (a item : ℕ) (dir f : FsFile) (dd : FsDir) (name : Str)
    → Directory s a dir dd
    → get_or s.files item none ≡ some f
    → f.name ≡ some name
    → dir_add a item s
      ≡ if_absent
          (find_ino s.files dd.ino_files f.ino)
          (if_absent (lookup_name s.files dd.nm_files name) (add_entry a dir dd item))
          s
unfolding dir_add
dir_add-looks_up s a item dir f dd name d h n = rw (d.here, d.type, d.tables, h, n) refl

lookup_name-append_named :
    (files : List (Option FsFile)) (l : List ℕ) (item : ℕ) (f : FsFile) (name other : Str)
    → get_or files item none ≡ some f
    → f.name ≡ some name
    → lookup_name files l name ≡ none
    → lookup_name files (l ++ (item ∷ [])) other
      ≡ (if str_eq name other then some item else lookup_name files l other)
lookup_name-append_named files l item f name other h n m = elim (Bool-cases (str_eq name other)) [
  | inl e ↦ rw e (
      subst (λ o. lookup_name files (l ++ (item ∷ [])) o ≡ some item) (str_eq→eq name other e)
        (lookup_name-append files l item name m ∙ rw (h, n, str_eq_refl name) refl))
  | inr e ↦ rw e (lookup_name-append_other files l item other (rw (h, n) e))
]

-- What a search finds after the addition.
with_entry-dir_find :
    (s : Fs) (a item : ℕ) (dir f : FsFile) (dd : FsDir) (name : Str)
    → Directory s a dir dd
    → get_or s.files item none ≡ some f
    → f.name ≡ some name
    → lookup_name s.files dd.nm_files name ≡ none
    → (other : Str)
    → dir_find (with_entry s a dir dd item) a other
      ≡ (if str_eq name other then some item else dir_find s a other)
with_entry-dir_find s a item dir f dd name d h n m other =
    rw
      (
        get_or-set_self s.files a (some (with_item dir dd item)) none
            (in_heap s.files a dir d.here),
        d.here,
        d.tables,
        lookup_name-set s.files a dir (with_item dir dd item) (dd.nm_files ++ (item ∷ [])) other
            d.here refl,
      )
      (lookup_name-append_named s.files dd.nm_files item f name other h n m)

-- The ways in which an addition ends.
pub data Addition (s : Fs) (a item : ℕ) (name : Str) (same_ino : Option ℕ) : Type 0 where
  refused :
      (not (is_null same_ino) ≡ true) ⊎ (not (is_null (dir_find s a name)) ≡ true)
      → dir_add a item s ≡ done false s
      → Addition s a item name same_ino
  inserted :
      (s' : Fs)
      → same_ino ≡ none
      → dir_add a item s ≡ done true s'
      → dir_find s a name ≡ none
      → ((other : Str)
          → dir_find s' a other ≡ (if str_eq name other then some item else dir_find s a other))
      → Addition s a item name same_ino

-- Adding a named item to a directory changes nothing if its name or its inode is there already.
-- Otherwise it inserts the item under its name, and every other name is found as before.
pub dir_add-Addition :
    (s : Fs) (a item : ℕ) (dir f : FsFile) (dd : FsDir) (name : Str)
    → Directory s a dir dd
    → get_or s.files item none ≡ some f
    → f.name ≡ some name
    → Addition s a item name (find_ino s.files dd.ino_files f.ino)
dir_add-Addition s a item dir f dd name d h n =
    let go = dir_add-looks_up s a item dir f dd name d h n in
    elim (Option-cases (find_ino s.files dd.ino_files f.ino)) [
      | inr (b, e) ↦ refused (inl (rw e refl)) (go ∙ rw e refl)
      | inl i ↦ elim (Option-cases (lookup_name s.files dd.nm_files name)) [
        | inr (b, e) ↦ refused (inr (rw (d.here, d.tables) (rw e refl))) (go ∙ rw (i, e) refl)
        | inl m ↦
            inserted (with_entry s a dir dd item) i (go ∙ rw (i, m) refl) (rw (d.here, d.tables) m)
              (with_entry-dir_find s a item dir f dd name d h n m)
      ]
    ]
