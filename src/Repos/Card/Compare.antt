-- ===== src/Repos/Card/Compare.antt =====
-- web/src/components/repos/RepoCard.tsx: the comparison of two snapshots.
use restic_ui.Base.{
  ℕ, Bool, true, false, not, ◌&&◌, some, List, [], ◌∷◌, ◌++◌, ◌==◌, ◌≡◌, if◌then◌else◌, any, leb,
  length, map, All, arith, ap, ◌∙◌, or_else,
}
use restic_ui.Base.Text.{Text, codes, decimal, text_eq}
use restic_ui.Types.Bytes.{whole, format_bytes}
use restic_ui.Types.Repositories.{Snapshot, DiffChange, DiffStats, DiffResult}
use restic_ui.Plans.Form.Previews.{plural}
use restic_ui.Repos.Card.{
  Loaded, System, snapshots_of, id_at, diff_from_val, diff_to_val, press_diff, diff, diffs, or_text,
}
use restic_ui.Repos.Card.Buttons.{click, idle, send_if}

-- `modifier.includes(c)`
abbrev pub has_char : ℕ → Text → Bool
has_char c modifier = any (λ d. d == c) modifier

pub data Shade : Type 0 where
  green red grey : Shade

-- The color of a change's modifier.
unfoldable pub shade_of : DiffChange → Shade
shade_of c =
    if has_char b'+' c.modifier then green else if has_char b'-' c.modifier then red else grey

unfoldable pub stats_line : DiffStats → Text
stats_line s =
    decimal s.changed_files
    ++ (codes " changed file"
        ++ (plural s.changed_files
            ++ (codes " · +"
                ++ (format_bytes (whole s.added.bytes)
                    ++ (codes " added · −"
                        ++ (format_bytes (whole s.removed.bytes) ++ codes " removed"))))))

-- The lines below the statistics: a note if there is no change, or each change with its color and a
-- note if the list was cut.
pub data DiffLine : Type 0 where
  no_changes cut_off : DiffLine
  change : Shade → (modifier path : Text) → DiffLine

unfoldable pub diff_lines : DiffResult → List DiffLine
unfolding shade_of
diff_lines d = elim d.changes [
  | [] ↦ no_changes ∷ []
  | c ∷ cs ↦
      map (λ x. change (shade_of x) x.modifier x.path) (c ∷ cs)
      ++ (if d.truncated then cut_off ∷ [] else [])
]

-- An entry of the two lists; `when` is `formatWhen`.
abbrev pub option_text : (Text → Text) → Snapshot → Text
option_text when s = s.short_id ++ (codes " — " ++ when s.time)

all_hold :
    {a b c d : Bool} → a ≡ true → b ≡ true → c ≡ true → d ≡ false → (a && b && c && not d) ≡ true
all_hold h k l m = ground arith

-- What the button sends for two ids that the lists show.
sends_diff :
    (env : Loaded) (sys : System) (from to : Text)
    → diff_from_val env sys.card ≡ from
    → diff_to_val env sys.card ≡ to
    → text_eq from to ≡ false
    → sys.card.show_snapshots ≡ true
    → leb 2 (length (snapshots_of env)) ≡ true
    → idle diffs sys ≡ true
    → click env sys press_diff ≡ (sys.card, some (diff from to))
unfolding click
sends_diff env sys from to f t differ shown two free =
    ap
      (λ enabled.
        send_if enabled sys.card (diff (diff_from_val env sys.card) (diff_to_val env sys.card))
          sys.card)
      (all_hold shown two free
        (ap (λ a. text_eq a (diff_to_val env sys.card)) f ∙ ap (text_eq from) t ∙ differ))
    ∙ ap (λ a. (sys.card, some (diff a (diff_to_val env sys.card)))) f
    ∙ ap (λ b. (sys.card, some (diff from b))) t

-- Where nothing was chosen, "Diff" compares the second snapshot of the list with the first, that is,
-- the one before the newest with the newest. A snapshot that was chosen on the left is compared
-- even if it is gone from the list since, as after it was forgotten.
pub press_diff-defaults_and_stale :
    (sys : System) (newest second : Snapshot) (rest : List Snapshot) (env : Loaded) (c : ℕ)
    (gone : Text)
    → env.snapshots ≡ some (newest ∷ second ∷ rest)
    → sys.card.show_snapshots ≡ true
    → idle diffs sys ≡ true
    → sys.card.diff_to ≡ []
    → (sys.card.diff_from ≡ []
        → text_eq second.id newest.id ≡ false
        → click env sys press_diff ≡ (sys.card, some (diff second.id newest.id)))
      × (sys.card.diff_from ≡ c ∷ gone
          → All (λ s. text_eq s.id (c ∷ gone) ≡ false) (newest ∷ second ∷ rest)
          → text_eq (c ∷ gone) newest.id ≡ false
          → click env sys press_diff ≡ (sys.card, some (diff (c ∷ gone) newest.id)))
press_diff-defaults_and_stale sys newest second rest env c gone loaded shown free no_to = (
  λ no_from differ.
      sends_diff env sys second.id newest.id
        (ap (λ a. or_text a (id_at (snapshots_of env) 1)) no_from
          ∙ ap (λ o. id_at (or_else o []) 1) loaded)
        to_newest differ shown two free,
  λ chosen absent differ.
      sends_diff env sys (c ∷ gone) newest.id
        (ap (λ a. or_text a (id_at (snapshots_of env) 1)) chosen) to_newest differ shown two free,
)
  where
    to_newest : diff_to_val env sys.card ≡ newest.id
    to_newest =
        ap (λ a. or_text a (id_at (snapshots_of env) 0)) no_to
        ∙ ap (λ o. id_at (or_else o []) 0) loaded

    two : leb 2 (length (snapshots_of env)) ≡ true
    two = ap (λ o. leb 2 (length (or_else o []))) loaded ∙ ground arith
