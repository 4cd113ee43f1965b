-- ===== src/Plans/Form/Submit.antt =====
-- web/src/components/plans/PlanForm.tsx: what the form of a plan sends, and which buttons are
-- enabled.
use restic_ui.Base.{
  ℕ, Bool, true, false, not, ◌||◌, Option, none, some, [], ◌∷◌, ltb, ◌==◌, if◌then◌else◌, or_else,
}
use restic_ui.Base.Text.{Text, codes, text_eq}
use restic_ui.Base.Text.Trim.{trim}
use restic_ui.Types.{Plan, PlanInput, Retention}
use restic_ui.Plans.Form.{Fields, FormState, custom, no_retention}

abbrev pub is_positive : Option ℕ → Bool
is_positive none = false
is_positive (some n) = ltb 0 n

-- `Object.values(retention).some((v) => typeof v === "number" && v > 0)`
unfoldable pub has_retention : Retention → Bool
has_retention r =
    is_positive r.keep_last
    || is_positive r.keep_hourly
    || is_positive r.keep_daily
    || is_positive r.keep_weekly
    || is_positive r.keep_monthly
    || is_positive r.keep_yearly

abbrev pub schedule_of : FormState → Text
schedule_of s = if text_eq s.preset custom then trim s.custom_cron else s.preset

-- The body that `onSubmit` sends; `Number("")` is 0.
unfoldable pub plan_input : Fields → FormState → PlanInput
unfolding has_retention
plan_input f s = record {
  name = trim f.name;
  repo_id = or_else s.repo_id 0;
  sources = s.sources;
  excludes = s.excludes;
  tags = s.tags;
  schedule_cron = schedule_of s;
  retention =
      if has_retention s.retention
      then record s.retention { prune = some s.prune }
      else no_retention;
  options = s.options;
  enabled = f.enabled;
  notify_muted = f.notify_muted;
}

pub data Request : Type 0 where
  update : (id : ℕ) → PlanInput → Request
  create : PlanInput → Request

unfoldable pub request_of : Option Plan → Fields → FormState → Request
unfolding plan_input
request_of (some p) f s = update p.id (plan_input f s)
request_of none f s = create (plan_input f s)

-- How a request ends: an answer, an `ApiError` with its message, or another exception.
pub data Answer : Type 0 where
  answered : Answer
  api_error : Text → Answer
  failed : Answer

-- The form after `onSubmit`, and whether `onDone` was called.
unfoldable pub finish_submit : Answer → FormState → FormState × Bool
finish_submit answered s = (record s { error = [] }, true)
finish_submit (api_error message) s = (record s { error = message }, false)
finish_submit failed s = (record s { error = codes "Request failed" }, false)

-- `!repoId`
abbrev pub no_repo : FormState → Bool
no_repo s = or_else s.repo_id 0 == 0

abbrev pub no_sources : FormState → Bool
no_sources s = elim s.sources [ [] ↦ true | x ∷ xs ↦ false ]

-- The `disabled` of the buttons "Dry-run this backup" and "Preview what this would keep".
unfoldable pub dry_run_disabled : Bool → FormState → Bool
dry_run_disabled pending s = no_repo s || no_sources s || pending

unfoldable pub preview_disabled : Bool → FormState → Bool
unfolding has_retention
preview_disabled pending s = not (has_retention s.retention) || no_repo s || no_sources s || pending
