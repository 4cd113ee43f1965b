-- ===== src/Repos/Browser/Crumbs.antt =====
-- web/src/components/repos/SnapshotBrowser.tsx: where the breadcrumbs lead.
use restic_ui.Base.{
  ℕ, zero, suc, false, not, List, [], ◌∷◌, ◌++◌, ◌==◌, ◌≡◌, refl, ap, sym, ◌∙◌, append_assoc,
  append-nil, filter, take, drop, All, arith,
}
use restic_ui.Base.Text.{Text, codes, is_empty}
use restic_ui.Repos.Browser.{
  Browser, split_slash, join_slash, crumbs, crumb_path, path_at, act, go_to,
}

-- The name of a file or directory.
abbrev pub IsSegment : Text → Type 0
IsSegment p = All (λ c. (c == b'/') ≡ false) p × (is_empty p ≡ false)

-- The absolute path of a directory; the root has no segment.
abbrev pub path_of : List Text → Text
path_of ps = b'/' ∷ join_slash ps

split_slash-next :
    (cur : Text) (c : ℕ) (s : Text)
    → (c == b'/') ≡ false
    → split_slash cur (c ∷ s) ≡ split_slash (cur ++ c ∷ []) s
unfolding split_slash
split_slash-next cur c s h = rw h refl

split_slash-slash : (cur s : Text) → split_slash cur (b'/' ∷ s) ≡ cur ∷ split_slash [] s
unfolding split_slash
split_slash-slash cur s = refl

split_slash-nil : (cur : Text) → split_slash cur [] ≡ cur ∷ []
unfolding split_slash
split_slash-nil cur = refl

split_slash-append :
    (cur p rest : Text)
    → All (λ c. (c == b'/') ≡ false) p
    → split_slash cur (p ++ rest) ≡ split_slash (cur ++ p) rest
split_slash-append cur [] rest h = rw append-nil
split_slash-append cur (c ∷ p) rest h =
    split_slash-next cur c (p ++ rest) h.0
    ∙ split_slash-append (cur ++ c ∷ []) p rest h.1
    ∙ ap (λ t. split_slash t rest) (append_assoc cur (c ∷ []) p)

split_slash-last : (p : Text) → All (λ c. (c == b'/') ≡ false) p → split_slash [] p ≡ p ∷ []
split_slash-last p h =
    ap (split_slash []) (sym (append-nil p)) ∙ split_slash-append [] p [] h ∙ split_slash-nil p

abbrev full : List Text → List Text
full ps = filter (λ p. not (is_empty p)) ps

full-cons : (p : Text) (ps : List Text) → is_empty p ≡ false → full (p ∷ ps) ≡ p ∷ full ps
full-cons p ps h = rw h refl

full-split_slash : (ps : List Text) → All IsSegment ps → full (split_slash [] (join_slash ps)) ≡ ps
full-split_slash [] h = ap full (split_slash-nil [])
full-split_slash (p ∷ []) h = ap full (split_slash-last p h.0.0) ∙ full-cons p [] h.0.1
full-split_slash (p ∷ q ∷ ps) h =
    ap full (
      split_slash-append [] p (b'/' ∷ join_slash (q ∷ ps)) h.0.0
      ∙ split_slash-slash p (join_slash (q ∷ ps)))
    ∙ full-cons p (split_slash [] (join_slash (q ∷ ps))) h.0.1
    ∙ ap (λ l. p ∷ l) (full-split_slash (q ∷ ps) h.1)

crumbs-path_of : (ps : List Text) → All IsSegment ps → crumbs (path_of ps) ≡ codes "/" ∷ ps
unfolding crumbs
crumbs-path_of ps h =
    ap (λ l. codes "/" ∷ full l) (split_slash-slash [] (join_slash ps))
    ∙ ap (λ l. codes "/" ∷ l) (full-split_slash ps h)

path_at-cons : (path : Text) (i : ℕ) → path_at path (suc i) ≡ crumb_path path (suc i)
unfolding path_at
path_at-cons path i = ground arith

crumb_path-path_of :
    (ps : List Text) (i : ℕ) → All IsSegment ps → crumb_path (path_of ps) i ≡ path_of (take i ps)
unfolding crumb_path
crumb_path-path_of ps i h =
    ap (λ l. b'/' ∷ join_slash (drop 1 (take (suc i) l))) (crumbs-path_of ps h)

path_at-path_of :
    (ps : List Text) (i : ℕ) → All IsSegment ps → path_at (path_of ps) i ≡ path_of (take i ps)
path_at-path_of ps zero h = unfold path_at in refl
path_at-path_of ps (suc i) h = path_at-cons (path_of ps) i ∙ crumb_path-path_of ps (suc i) h

-- In a directory of the snapshot, the breadcrumbs are the root and the directory's segments, and a
-- click on the breadcrumb at position `i` goes to the directory of the first `i` segments: to the
-- root for `i = 0`, and for the last one it stays.
pub act-go_to :
    (snapshot_id : Text) (ps : List Text) (i : ℕ) (s : Browser)
    → All IsSegment ps
    → s.path ≡ path_of ps
    → (crumbs s.path ≡ codes "/" ∷ ps)
      × (act snapshot_id (go_to i) s ≡ record s { path = path_of (take i ps) })
unfolding act
act-go_to snapshot_id ps i s h e = (
  ap crumbs e ∙ crumbs-path_of ps h,
  ap (λ path. record s { path = path }) (ap (λ path. path_at path i) e ∙ path_at-path_of ps i h),
)
