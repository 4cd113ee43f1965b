-- ===== src/Plans/Form/View.antt =====
-- web/src/components/plans/PlanForm.tsx: what the form shows for its state.
use restic_ui.Base.{
  ◌||◌, ℕ, Bool, false, Option, none, some, List, [], ◌∷◌, ◌++◌, if◌then◌else◌, map, or_else,
}
use restic_ui.Base.Text.{Text, codes, decimal, is_empty, text_eq}
use restic_ui.Base.Text.Trim.{trim}
use restic_ui.Cron.{humanize_cron}
use restic_ui.Types.{BackendType, Plan, Repo, Retention}
use restic_ui.Plans.Form.{FormState, Bucket, custom}

-- The title and the button that submits.
abbrev pub title : Option Plan → Text
title none = codes "Add backup plan"
title (some p) = codes "Edit plan: " ++ p.name

abbrev pub submit_text : Option Plan → Text
submit_text none = codes "Create plan"
submit_text (some p) = codes "Save changes"

abbrev pub backend_name : BackendType → Text
backend_name BackendType.local_path = codes "local"
backend_name BackendType.s3 = codes "s3"
backend_name BackendType.sftp = codes "sftp"
backend_name BackendType.rclone = codes "rclone"

-- An entry of the list of repositories: its value and its text.
unfoldable pub repo_choices : Option (List Repo) → List (ℕ × Text)
repo_choices repos =
    map (λ r. (r.id, r.name ++ (codes " (" ++ (backend_name r.backend_type ++ codes ")"))))
      (or_else repos [])

-- A chip: its text and the label of the button that removes it.
unfoldable pub chip_list : List Text → List (Text × Text)
chip_list items = map (λ it. (it, codes "Remove " ++ it)) items

-- The field for a cron expression, if "Custom" is selected: its value, and the line under it.
unfoldable pub cron_field : FormState → Option (Text × Option Text)
cron_field s =
    if text_eq s.preset custom
    then some (
      s.custom_cron,
      if is_empty (trim s.custom_cron) then none else some (humanize_cron s.custom_cron),
    )
    else none

-- `value ?? ""` of a number.
abbrev pub number_text : Option ℕ → Text
number_text none = []
number_text (some n) = decimal n

-- The two limits and the two boxes of the backup options.
pub record OptionsView : Type 0 where
  pub upload_limit : Text
  pub download_limit : Text
  pub skip_caches : Bool
  pub one_file_system : Bool

unfoldable pub options_view : FormState → OptionsView
options_view s = record {
  upload_limit = number_text s.options.upload_limit_kib;
  download_limit = number_text s.options.download_limit_kib;
  skip_caches = or_else s.options.exclude_caches false;
  one_file_system = or_else s.options.one_file_system false;
}

-- The numbers of the retention with their labels.
abbrev pub bucket_label : Bucket → Text
bucket_label Bucket.last = codes "Last"
bucket_label Bucket.daily = codes "Daily"
bucket_label Bucket.weekly = codes "Weekly"
bucket_label Bucket.monthly = codes "Monthly"
bucket_label Bucket.yearly = codes "Yearly"

abbrev pub get_bucket : Bucket → Retention → Option ℕ
get_bucket Bucket.last r = r.keep_last
get_bucket Bucket.daily r = r.keep_daily
get_bucket Bucket.weekly r = r.keep_weekly
get_bucket Bucket.monthly r = r.keep_monthly
get_bucket Bucket.yearly r = r.keep_yearly

abbrev pub bucket_field : Retention → Bucket → Text × Text
bucket_field r b = (bucket_label b, number_text (get_bucket b r))

unfoldable pub retention_fields : FormState → List (Text × Text)
retention_fields s =
    map (bucket_field s.retention)
      (Bucket.last ∷ Bucket.daily ∷ Bucket.weekly ∷ Bucket.monthly ∷ Bucket.yearly ∷ [])

-- While a request is under way, neither saving nor cancelling is possible.
abbrev pub is_busy : (create_pending update_pending : Bool) → Bool
is_busy create_pending update_pending = create_pending || update_pending
