-- ===== src/Folders/Tests.antt =====
-- The folder picker on small inputs.
use restic_ui.Base.{
  ℕ, ◌≤◌, ◌<◌, ◌==◌, Bool, true, false, List, [], ◌∷◌, ◌++◌, ◌≡◌, refl, ◌⊎◌, if◌then◌else◌, any,
  length, arith, Bool-cases, inl, inr, subst, sym,
}
use restic_ui.Base.Text.{Text, codes, text_eq}
use restic_ui.Folders.{
  Paths, DirEntry, ReadDir, entries, unreadable, View, loading, answered, Click, up, enter, root,
  run, up_disabled, body, message, browse, click, visible, no_subfolders,
}
use restic_ui.Folders.Reachable.{IsLawful}
use restic_ui.Folders.Up.{press_up, press_up_ends}

-- The part of a path before its last slash.
abbrev before_slash : Text → Text
before_slash [] = []
before_slash (c ∷ p) = let rest = before_slash p in if any (λ d. d == b'/') p then c ∷ rest else []

abbrev or_root : Text → Text
or_root [] = root
or_root (c ∷ p) = c ∷ p

abbrev starts_with_slash : Text → Bool
starts_with_slash [] = false
starts_with_slash (c ∷ p) = c == b'/'

-- For paths without "." and "..", which are clean.
abbrev simple_paths : Paths
simple_paths = record {
  clean = λ p. p;
  is_abs = starts_with_slash;
  dir = λ p. or_root (before_slash p);
  join = λ p name. if text_eq p root then root ++ name else p ++ (root ++ name);
  sort = λ es. es;
}

length-before_slash : (c : ℕ) (p : Text) → length (before_slash (c ∷ p)) ≤ length p
length-before_slash c [] = omega arith
length-before_slash c (d ∷ p) = ground (arith, length-before_slash d p)

dir-shorter :
    (p : Text)
    → starts_with_slash p ≡ true
    → text_eq p root ≡ false
    → length (or_root (before_slash p)) < length p
dir-shorter [] abs other = cc abs
dir-shorter (c ∷ []) abs other = ground arith
dir-shorter (c ∷ d ∷ p) abs other = ground (arith, length-before_slash c (d ∷ p))

abs-or_root :
    (p : Text) → starts_with_slash p ≡ true → starts_with_slash (or_root (before_slash p)) ≡ true
abs-or_root [] abs = refl
abs-or_root (c ∷ p) abs = elim (Bool-cases (any (λ d. d == b'/') p)) [
  | inl e ↦ rw e abs
  | inr e ↦ rw e refl
]

abs-join_paths :
    (p name : Text)
    → starts_with_slash p ≡ true
    → starts_with_slash (simple_paths.join p name) ≡ true
abs-join_paths [] name abs = refl
abs-join_paths (c ∷ p) name abs = elim (Bool-cases (text_eq (c ∷ p) root)) [
  | inl e ↦ rw e refl
  | inr e ↦ rw e abs
]

simple_paths-IsLawful : IsLawful simple_paths
simple_paths-IsLawful = record {
  abs-root = refl;
  abs-nil = refl;
  abs-dir = abs-or_root;
  abs-join = abs-join_paths;
  clean-root = refl;
  clean-dir = λ p. refl;
  clean-join = λ p name abs. refl;
  length-dir = λ p abs same other. dir-shorter p abs other;
  sort-all = λ P es h. h;
}

abbrev dir_entry : Text → DirEntry
dir_entry name = record { name = name; is_dir = true }

-- "/" and "/srv" can be read, and no other folder.
abbrev disk : ReadDir
disk p =
    if text_eq p root
    then entries (dir_entry (codes ".git") ∷ dir_entry (codes "srv") ∷ [])
    else if text_eq p (codes "/srv")
    then entries (dir_entry (codes "data") ∷ [])
    else unreadable (codes "permission denied")

abbrev entered : List (View × Click)
entered = (answered disk, enter 0) ∷ (loading, up) ∷ (answered disk, enter 0) ∷ []

at_data : run simple_paths entered root ≡ codes "/srv/data"
unfolding run click browse visible
at_data = refl

-- A folder that cannot be read has no way up.
dead_end :
    (up_disabled simple_paths (answered disk) (codes "/srv/data") ≡ true)
    × (body simple_paths (answered disk) (codes "/srv/data") ≡ message (codes "permission denied"))
unfolding up_disabled body browse
dead_end = (refl, refl)

abbrev readable_disk : ReadDir
readable_disk p = entries []

way_up : press_up simple_paths readable_disk 2 (codes "/srv/data") ≡ root
unfolding press_up click browse visible
way_up = refl

nothing_below : body simple_paths (answered readable_disk) root ≡ no_subfolders
unfolding body browse visible
nothing_below = refl

nine_characters : length (run simple_paths entered root) ≤ 9
nine_characters = subst (λ q. length q ≤ 9) (sym at_data) (omega arith)

press_up_ends_example :
    let p = press_up simple_paths readable_disk 9 (run simple_paths entered root) in
    (up_disabled simple_paths (answered readable_disk) p ≡ true)
    × ((p ≡ root) ⊎ ((m : Text) × (body simple_paths (answered readable_disk) p ≡ message m)))
press_up_ends_example =
    press_up_ends simple_paths simple_paths-IsLawful entered readable_disk 9 nine_characters
