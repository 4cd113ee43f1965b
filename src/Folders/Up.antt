-- ===== src/Folders/Up.antt =====
-- web/src/components/plans/DirBrowser.tsx with internal/fsbrowse/fsbrowse.go: the way up.
use restic_ui.Base.{
  ℕ, zero, suc, ◌≤◌, ◌<◌, true, some, List, [], ◌∷◌, ◌≡◌, refl, ap, sym, ◌∙◌, subst, ◌⊎◌, inl, inr,
  length, Bool-cases, arith,
}
use restic_ui.Base.Text.{Text, text_eq, text_eq_iff}
use restic_ui.Folders.{
  Paths, ReadResult, entries, unreadable, ReadDir, View, answered, Click, up, root, visible,
  list_dir, browse, refused, data_of, up_from, click, run, up_disabled, listing_of, body, no_parent,
  message, browsed_body,
}
use restic_ui.Folders.Reachable.{
  IsLawful, Normal, Normal-root, browse-Normal, data_of-Normal, up_from-root, parent_of_lem,
  click-Normal, run-Normal,
}

-- "Up", pressed `n` times while every listing has arrived.
unfoldable pub press_up : Paths → ReadDir → ℕ → Text → Text
unfolding click
press_up fs read_dir zero p = p
press_up fs read_dir (suc n) p = press_up fs read_dir n (click fs (answered read_dir) up p)

-- The path is the root, or the folder cannot be read.
abbrev pub IsEnd : Paths → ReadDir → Text → Type 0
IsEnd fs read_dir p = (p ≡ root) ⊎ ((m : Text) × (browse fs read_dir p ≡ refused m))

module _ (fs : Paths) (laws : IsLawful fs) (read_dir : ReadDir) where
  IsEnd-read :
      (p : Text) (r : ReadResult)
      → Normal fs laws p
      → browse fs read_dir p ≡ list_dir fs p r
      → IsEnd fs read_dir p
        ⊎ (listing_of (browse fs read_dir p) ≡ listing_of (list_dir fs p r))
          × (up_from p (listing_of (list_dir fs p r)) ≡ fs.dir p)
          × (length (fs.dir p) < length p)
  IsEnd-read p (unreadable m) h e = inl (inr (m, e))
  IsEnd-read p (entries es) h e = elim (Bool-cases (text_eq p root)) [
    | inl same ↦ inl (inl ((text_eq_iff p root).0 same))
    | inr other ↦ inr (
      ap listing_of e,
      ap
          (λ o.
            up_from p (some (record { path = p; parent = o; entries = fs.sort (visible fs p es) })))
          (parent_of_lem fs laws p h other),
      laws.length-dir p h.0 h.1 other,
    )
  ]

  -- A press goes to a shorter path, but at the end.
  click-up :
      (p : Text)
      → Normal fs laws p
      → IsEnd fs read_dir p ⊎ (length (click fs (answered read_dir) up p) < length p)
  unfolding click
  click-up p h = elim (IsEnd-read p (read_dir p) h (browse-Normal fs laws read_dir p h)) [
    | inl e ↦ inl e
    | inr (same, goes, shorter) ↦
        inr (subst (λ q. length q < length p) (sym (ap (up_from p) same ∙ goes)) shorter)
  ]

  no_parent-root : (r : ReadResult) → no_parent (listing_of (list_dir fs root r)) ≡ true
  no_parent-root (unreadable m) = refl
  no_parent-root (entries es) = refl

  at_root : data_of fs (answered read_dir) root ≡ listing_of (list_dir fs root (read_dir root))
  at_root = data_of-Normal fs laws read_dir root (Normal-root fs laws)

  -- At the end "Up" is disabled and would do nothing.
  IsEnd-disabled : (p : Text) → IsEnd fs read_dir p → up_disabled fs (answered read_dir) p ≡ true
  unfolding up_disabled
  IsEnd-disabled p (inl e) =
      subst (λ q. no_parent (data_of fs (answered read_dir) q) ≡ true) (sym e)
        (ap no_parent at_root ∙ no_parent-root (read_dir root))
  IsEnd-disabled p (inr (m, e)) = ap (λ b. no_parent (listing_of b)) e

  IsEnd-stays : (p : Text) → IsEnd fs read_dir p → click fs (answered read_dir) up p ≡ p
  unfolding click
  IsEnd-stays p (inl e) =
      subst (λ q. up_from q (data_of fs (answered read_dir) q) ≡ q) (sym e)
        (ap (up_from root) at_root ∙ up_from-root fs laws (read_dir root))
  IsEnd-stays p (inr (m, e)) = ap (λ b. up_from p (listing_of b)) e

  press_up-stays : (n : ℕ) (p : Text) → IsEnd fs read_dir p → press_up fs read_dir n p ≡ p
  unfolding press_up
  press_up-stays zero p e = refl
  press_up-stays (suc n) p e = ap (press_up fs read_dir n) (IsEnd-stays p e) ∙ press_up-stays n p e

  press_up-IsEnd :
      (n : ℕ) (p : Text)
      → Normal fs laws p
      → length p ≤ n
      → IsEnd fs read_dir (press_up fs read_dir n p)
  unfolding press_up
  press_up-IsEnd zero [] h fits = cc (laws.abs-nil, h.0)
  press_up-IsEnd zero (c ∷ p) h fits = ground arith
  press_up-IsEnd (suc n) p h fits = elim (click-up p h) [
    | inl e ↦ subst (IsEnd fs read_dir) (sym (press_up-stays (suc n) p e)) e
    | inr shorter ↦
        press_up-IsEnd n (click fs (answered read_dir) up p)
          (click-Normal fs laws (answered read_dir) up p h) (omega arith)
  ]

-- Whatever folders were entered and left before, with whatever the server read meanwhile: if from
-- then on every listing arrives and the directories stay as they are, "Up" is disabled after as many
-- presses as the path has characters, and then the picker is at the root, or in a folder that the
-- server cannot read, where it shows the message of the error.
pub press_up_ends :
    (fs : Paths) (laws : IsLawful fs) (clicks : List (View × Click)) (read_dir : ReadDir) (n : ℕ)
    → length (run fs clicks root) ≤ n
    → let p = press_up fs read_dir n (run fs clicks root) in
      (up_disabled fs (answered read_dir) p ≡ true)
      × ((p ≡ root) ⊎ ((m : Text) × (body fs (answered read_dir) p ≡ message m)))
unfolding body
press_up_ends fs laws clicks read_dir n fits =
    let e =
      press_up-IsEnd fs laws read_dir n (run fs clicks root)
        (run-Normal fs laws clicks root (Normal-root fs laws)) fits in
    (
      IsEnd-disabled fs laws read_dir (press_up fs read_dir n (run fs clicks root)) e,
      elim e [ inl at_top ↦ inl at_top | inr (m, refused_m) ↦ inr (m, ap browsed_body refused_m) ],
    )
