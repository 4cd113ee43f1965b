-- ===== src/Plans/Form/Previews.antt =====
-- web/src/components/plans/PlanForm.tsx: the dry run and the preview of a retention.
use restic_ui.Base.{
  ℕ, ◌+◌, List, [], ◌∷◌, ◌++◌, some, or_else, ◌==◌, if◌then◌else◌, length, ◌≡◌, refl, length-append,
  arith, ◌∙◌,
}
use restic_ui.Base.Text.{Text, codes, decimal}
use restic_ui.Types.{BackupOptions, BackupPreview, ForgetGroup, ForgetSnapshot, Retention}
use restic_ui.Types.Bytes.{whole, format_bytes}
use restic_ui.Plans.Form.{FormState}

-- The body of /api/plans/retention-preview.
pub record RetentionBody : Type 0 where
  pub repo_id : ℕ
  pub sources : List Text
  pub retention : Retention

unfoldable pub retention_body : FormState → RetentionBody
retention_body s = record {
  repo_id = or_else s.repo_id 0;
  sources = s.sources;
  retention = record s.retention { prune = some s.prune };
}

-- The body of /api/plans/dry-run.
pub record DryRunBody : Type 0 where
  pub repo_id : ℕ
  pub sources : List Text
  pub excludes : List Text
  pub options : BackupOptions

unfoldable pub dry_run_body : FormState → DryRunBody
dry_run_body s = record {
  repo_id = or_else s.repo_id 0;
  sources = s.sources;
  excludes = s.excludes;
  options = s.options;
}

-- `n === 1 ? "" : "s"`
abbrev pub plural : ℕ → Text
plural n = if n == 1 then [] else codes "s"

unfoldable pub dry_run_text : BackupPreview → Text
dry_run_text p =
    codes "Would add "
    ++ (format_bytes (whole p.data_added)
        ++ (codes " — "
            ++ (decimal p.files_new
                ++ (codes " new, "
                    ++ (decimal p.files_changed
                        ++ (codes " changed, "
                            ++ (decimal p.files_unmodified
                                ++ (codes " unchanged file"
                                    ++ (plural p.files_unmodified ++ codes ".")))))))))

-- `preview.reduce((n, g) => n + g.keep.length, 0)`
unfoldable pub kept_from : ℕ → List ForgetGroup → ℕ
kept_from n [] = n
kept_from n (g ∷ groups) = kept_from (n + length g.keep) groups

-- `preview.flatMap((g) => g.remove)`
unfoldable pub removed : List ForgetGroup → List ForgetSnapshot
removed [] = []
removed (g ∷ groups) = g.remove ++ removed groups

unfoldable pub preview_text : List ForgetGroup → Text
unfolding kept_from removed
preview_text groups =
    codes "Would keep "
    ++ (decimal (kept_from 0 groups)
        ++ (codes " snapshot"
            ++ (plural (kept_from 0 groups)
                ++ (codes " and remove " ++ (decimal (length (removed groups)) ++ codes ".")))))

-- The line of a snapshot that goes; `when` is `formatWhen`.
abbrev pub removed_line : (Text → Text) → ForgetSnapshot → Text
removed_line when s = s.short_id ++ (codes " — " ++ when s.time)

-- All snapshots of the groups.
abbrev pub snapshots_of : List ForgetGroup → List ForgetSnapshot
snapshots_of [] = []
snapshots_of (g ∷ groups) = g.keep ++ (g.remove ++ snapshots_of groups)

kept_from_lem :
    (n : ℕ) (groups : List ForgetGroup)
    → kept_from n groups + length (removed groups) ≡ n + length (snapshots_of groups)
unfolding kept_from removed
kept_from_lem n [] = refl
kept_from_lem n (g ∷ groups) = omega (
  arith,
  kept_from_lem (n + length g.keep) groups,
  length-append g.remove (removed groups),
  length-append g.keep (g.remove ++ snapshots_of groups),
  length-append g.remove (snapshots_of groups),
)

-- The numbers of snapshots that the preview says would be kept and removed add up to the number of
-- snapshots in its groups.
pub kept_from-removed :
    (groups : List ForgetGroup)
    → kept_from 0 groups + length (removed groups) ≡ length (snapshots_of groups)
kept_from-removed groups = kept_from_lem 0 groups ∙ omega arith
