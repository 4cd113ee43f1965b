-- ===== src/Plans/Form.antt =====
-- web/src/components/plans/PlanForm.tsx: the state of the form and its event handlers. `Submit` has what
-- it sends.
pub mod Submit
pub mod Chips
pub mod Reopen
pub mod Previews
pub mod Panels
pub mod View
mod Tests
use restic_ui.Base.{
  ℕ, Bool, true, false, not, ◌&&◌, ◌||◌, Option, none, some, List, [], ◌∷◌, ◌++◌, ltb, ◌==◌,
  if◌then◌else◌, filter, any, or_else, is_some, head?,
}
use mathlib.Core.Option
use restic_ui.Base.Text.{Text, codes, text_eq, is_empty}
use restic_ui.Base.Text.Trim.{trim}
use restic_ui.Types.{Plan, PlanInput, Repo, Retention, BackupOptions}
use restic_ui.Cron.{Preset, schedule_presets, is_preset}

-- The variables of `useState`; `repo_id` is `none` where the source has "".
pub record FormState : Type 0 where
  pub sources : List Text
  pub excludes : List Text
  pub tags : List Text
  pub preset : Text
  pub custom_cron : Text
  pub browsing : Bool
  pub manual_path : Text
  pub exclude_input : Text
  pub tag_input : Text
  pub error : Text
  pub retention : Retention
  pub prune : Bool
  pub repo_id : Option ℕ
  pub options : BackupOptions

-- The inputs that the form leaves to the document, as `FormData` reads them.
pub record Fields : Type 0 where
  pub name : Text
  pub enabled : Bool
  pub notify_muted : Bool

abbrev pub no_retention : Retention
no_retention = record {
  keep_last = none;
  keep_hourly = none;
  keep_daily = none;
  keep_weekly = none;
  keep_monthly = none;
  keep_yearly = none;
  prune = none;
}

abbrev pub no_options : BackupOptions
no_options = record {
  upload_limit_kib = none;
  download_limit_kib = none;
  exclude_caches = none;
  one_file_system = none;
}

abbrev pub custom : Text
custom = codes "custom"

-- The preset that is selected for a cron expression.
abbrev pub preset_of : Text → Text
preset_of cron = if any (is_preset cron) schedule_presets then cron else custom

unfoldable pub initial : Option Plan → FormState
initial none = record {
  sources = [];
  excludes = [];
  tags = [];
  preset = [];
  custom_cron = [];
  browsing = false;
  manual_path = [];
  exclude_input = [];
  tag_input = [];
  error = [];
  retention = no_retention;
  prune = true;
  repo_id = none;
  options = no_options;
}
initial (some p) = record {
  sources = p.sources;
  excludes = p.excludes;
  tags = p.tags;
  preset = preset_of p.schedule_cron;
  custom_cron = if text_eq (preset_of p.schedule_cron) custom then p.schedule_cron else [];
  browsing = false;
  manual_path = [];
  exclude_input = [];
  tag_input = [];
  error = [];
  retention = p.retention;
  prune = or_else p.retention.prune true;
  repo_id = some p.repo_id;
  options = p.options;
}

-- The default values of the document's inputs.
unfoldable pub initial_fields : Option Plan → Fields
initial_fields none = record { name = []; enabled = true; notify_muted = false }
initial_fields (some p) = record {
  name = p.name;
  enabled = p.enabled;
  notify_muted = p.notify_muted;
}

-- The effect that selects the first repository for a new plan.
unfoldable pub select_first_repo : Option Plan → List Repo → FormState → FormState
select_first_repo existing repos s =
    if not (is_some existing) && not (is_some s.repo_id)
    then record s { repo_id = Option.map (λ r. r.id) (head? repos) }
    else s

-- `xs.includes(x)`
abbrev pub includes : List Text → Text → Bool
includes xs x = any (λ y. text_eq y x) xs

-- `if (v && !items.includes(v)) setItems([...items, v])`, for the trimmed input.
unfoldable pub add_chip : List Text → Text → List Text
add_chip items input =
    let v = trim input in
    if not (is_empty v) && not (includes items v) then items ++ v ∷ [] else items

-- `items.filter((x) => x !== it)`
abbrev pub remove_chip : List Text → Text → List Text
remove_chip items it = filter (λ x. not (text_eq x it)) items

-- `Number(e.target.value) || 0`, where the conversion gives `none` for NaN.
abbrev pub number_or_0 : Option ℕ → ℕ
number_or_0 v = or_else v 0

pub data Bucket : Type 0 where
  last daily weekly monthly yearly : Bucket

abbrev pub set_bucket : Bucket → ℕ → Retention → Retention
set_bucket Bucket.last n r = record r { keep_last = some n }
set_bucket Bucket.daily n r = record r { keep_daily = some n }
set_bucket Bucket.weekly n r = record r { keep_weekly = some n }
set_bucket Bucket.monthly n r = record r { keep_monthly = some n }
set_bucket Bucket.yearly n r = record r { keep_yearly = some n }

-- What a user does to the form, short of submitting it.
pub data Action : Type 0 where
  type_path type_exclude type_tag type_cron choose_preset browse_to : Text → Action
  add_source add_exclude add_tag toggle_browsing close_browser : Action
  remove_source remove_exclude remove_tag : Text → Action
  choose_repo : ℕ → Action
  limit_upload limit_download : Option ℕ → Action
  check_caches check_file_system check_prune : Bool → Action
  keep : Bucket → Option ℕ → Action

unfoldable pub act : Action → FormState → FormState
unfolding add_chip
act (type_path v) s = record s { manual_path = v }
act (type_exclude v) s = record s { exclude_input = v }
act (type_tag v) s = record s { tag_input = v }
act (type_cron v) s = record s { custom_cron = v }
act (choose_preset v) s = record s { preset = v }
act (browse_to path) s = record s { sources = add_chip s.sources path; browsing = false }
act add_source s = record s { sources = add_chip s.sources s.manual_path; manual_path = [] }
act add_exclude s = record s { excludes = add_chip s.excludes s.exclude_input; exclude_input = [] }
act add_tag s = record s { tags = add_chip s.tags s.tag_input; tag_input = [] }
act toggle_browsing s = record s { browsing = not s.browsing }
act close_browser s = record s { browsing = false }
act (remove_source it) s = record s { sources = remove_chip s.sources it }
act (remove_exclude it) s = record s { excludes = remove_chip s.excludes it }
act (remove_tag it) s = record s { tags = remove_chip s.tags it }
act (choose_repo id) s = record s { repo_id = some id }
act (limit_upload v) s = record s {
  options = record s.options { upload_limit_kib = some (number_or_0 v) };
}
act (limit_download v) s = record s {
  options = record s.options { download_limit_kib = some (number_or_0 v) };
}
act (check_caches v) s = record s { options = record s.options { exclude_caches = some v } }
act (check_file_system v) s = record s { options = record s.options { one_file_system = some v } }
act (check_prune v) s = record s { prune = v }
act (keep bucket v) s = record s { retention = set_bucket bucket (number_or_0 v) s.retention }
