-- ===== src/Folders/Reachable.antt =====
-- web/src/components/plans/DirBrowser.tsx with internal/fsbrowse/fsbrowse.go: the paths that the
-- picker can reach.
use restic_ui.Base.{
  ℕ, zero, suc, ◌<◌, true, false, not, ◌||◌, some, List, [], ◌∷◌, ◌≡◌, refl, ap, sym, ◌∙◌, subst,
  inl, inr, if◌then◌else◌, length, get_elem?, All, Bool-cases,
}
use restic_ui.Base.Text.{Text, codes, text_eq, is_empty}
use restic_ui.Folders.{
  Paths, FsEntry, DirEntry, ReadResult, entries, unreadable, ReadDir, View, loading, answered,
  Click, up, enter, root, visible, is_hidden, parent_of, list_dir, browse_clean, browse, refused,
  data_of, up_from, entry_path, enter_from, click, run, listing_of,
}

-- What the documentation of Go says of `Clean`, `IsAbs`, `Dir`, `Join` and `sort.Slice`: `Dir` drops
-- the last element of an absolute path that is clean, the results of `Dir` are clean, those of `Join`
-- are if the path is absolute, both stay absolute, and sorting keeps the elements.
pub record IsLawful (fs : Paths) : Type 1 where
  pub abs-root : fs.is_abs root ≡ true
  pub abs-nil : fs.is_abs [] ≡ false
  pub abs-dir : (p : Text) → fs.is_abs p ≡ true → fs.is_abs (fs.dir p) ≡ true
  pub abs-join : (p name : Text) → fs.is_abs p ≡ true → fs.is_abs (fs.join p name) ≡ true
  pub clean-root : fs.clean root ≡ root
  pub clean-dir : (p : Text) → fs.clean (fs.dir p) ≡ fs.dir p
  pub clean-join : (p name : Text) → fs.is_abs p ≡ true → fs.clean (fs.join p name) ≡ fs.join p name
  pub length-dir :
      (p : Text)
      → fs.is_abs p ≡ true
      → fs.clean p ≡ p
      → text_eq p root ≡ false
      → length (fs.dir p) < length p
  pub sort-all : (P : FsEntry → Type 0) (es : List FsEntry) → All P es → All P (fs.sort es)

module _ (fs : Paths) (laws : IsLawful fs) where
  -- An absolute path that is clean.
  abbrev pub Normal : Text → Type 0
  Normal p = (fs.is_abs p ≡ true) × (fs.clean p ≡ p)

  pub Normal-root : Normal root
  Normal-root = (laws.abs-root, laws.clean-root)

  visible-Normal :
      (p : Text) (es : List DirEntry) → Normal p → All (λ e. Normal e.path) (visible fs p es)
  unfolding visible
  visible-Normal p [] h = tt
  visible-Normal p (e ∷ es) h = elim (Bool-cases (not e.is_dir || is_hidden e.name)) [
    | inl skip ↦ rw skip (visible-Normal p es h)
    | inr keep ↦
        rw keep ((laws.abs-join p e.name h.0, laws.clean-join p e.name h.0), visible-Normal p es h)
  ]

  not_empty : (p : Text) → fs.is_abs p ≡ true → is_empty p ≡ false
  not_empty [] h = cc (laws.abs-nil, h)
  not_empty (c ∷ p) h = refl

  -- A path that is normal is listed under its own name.
  pub browse-Normal :
      (read_dir : ReadDir) (p : Text) → Normal p → browse fs read_dir p ≡ list_dir fs p (read_dir p)
  unfolding browse
  browse-Normal read_dir p h =
      ap (λ b. browse_clean fs read_dir (fs.clean (if b then root else p))) (not_empty p h.0)
      ∙ ap (browse_clean fs read_dir) h.1
      ∙ ap (λ b. if b then list_dir fs p (read_dir p) else refused (codes "path must be absolute"))
          h.0

  pub data_of-Normal :
      (read_dir : ReadDir) (p : Text)
      → Normal p
      → data_of fs (answered read_dir) p ≡ listing_of (list_dir fs p (read_dir p))
  data_of-Normal read_dir p h = ap listing_of (browse-Normal read_dir p h)

  -- "Up" at the root, in a folder that cannot be read, and in any other.
  pub up_from-root : (r : ReadResult) → up_from root (listing_of (list_dir fs root r)) ≡ root
  up_from-root (unreadable m) = refl
  up_from-root (entries es) = refl

  pub parent_of_lem :
      (p : Text) → Normal p → text_eq p root ≡ false → parent_of fs p ≡ some (fs.dir p)
  parent_of_lem p h other = rw (other, not_empty (fs.dir p) (laws.abs-dir p h.0)) refl

  Normal-dir : (p : Text) → Normal p → Normal (fs.dir p)
  Normal-dir p h = (laws.abs-dir p h.0, laws.clean-dir p)

  up_from-Normal :
      (p : Text) (r : ReadResult) → Normal p → Normal (up_from p (listing_of (list_dir fs p r)))
  up_from-Normal p (unreadable m) h = h
  up_from-Normal p (entries es) h = elim (Bool-cases (text_eq p root)) [
    | inl e ↦ rw e h
    | inr e ↦ rw (parent_of_lem p h e) (Normal-dir p h)
  ]

  entry-Normal :
      (p : Text) (es : List FsEntry) (i : ℕ)
      → Normal p
      → All (λ e. Normal e.path) es
      → Normal (entry_path p (get_elem? es i))
  entry-Normal p [] i h a = h
  entry-Normal p (e ∷ es) zero h a = a.0
  entry-Normal p (e ∷ es) (suc i) h a = entry-Normal p es i h a.1

  enter_from-Normal :
      (p : Text) (r : ReadResult) (i : ℕ)
      → Normal p
      → Normal (enter_from p i (listing_of (list_dir fs p r)))
  enter_from-Normal p (unreadable m) i h = h
  enter_from-Normal p (entries es) i h =
      entry-Normal p (fs.sort (visible fs p es)) i h
        (laws.sort-all (λ e. Normal e.path) (visible fs p es) (visible-Normal p es h))

  pub click-Normal : (v : View) (c : Click) (p : Text) → Normal p → Normal (click fs v c p)
  unfolding click
  click-Normal loading up p h = h
  click-Normal loading (enter i) p h = h
  click-Normal (answered read_dir) up p h =
      subst (λ o. Normal (up_from p o)) (sym (data_of-Normal read_dir p h))
        (up_from-Normal p (read_dir p) h)
  click-Normal (answered read_dir) (enter i) p h =
      subst (λ o. Normal (enter_from p i o)) (sym (data_of-Normal read_dir p h))
        (enter_from-Normal p (read_dir p) i h)

  pub run-Normal : (clicks : List (View × Click)) (p : Text) → Normal p → Normal (run fs clicks p)
  unfolding run
  run-Normal [] p h = h
  run-Normal ((v, c) ∷ clicks) p h = run-Normal clicks (click fs v c p) (click-Normal v c p h)
