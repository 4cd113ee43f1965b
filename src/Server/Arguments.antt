-- ===== src/Server/Arguments.antt =====
-- internal/plan/plan.go: Input.Validate, Retention.Empty, and the flags of a retention and of the
-- options; the command lines of a backup (runBackup in internal/ops/runner.go) and of a retention
-- (EnqueueForget in internal/ops/commands.go). A number of a plan is a natural one, so that it is
-- never negative; one that the JSON leaves out is 0.
pub mod Line
pub mod Accepted
pub mod Read
mod Tests
use restic_ui.Base.{
  ℕ, Bool, true, false, not, ◌&&◌, ◌||◌, Option, none, some, List, [], ◌∷◌, ◌++◌, ◌==◌, ltb, any,
  if◌then◌else◌, or_else,
}
use restic_ui.Base.Text.{Text, codes, is_empty, decimal}
use restic_ui.Types.{PlanInput, Retention, BackupOptions}

-- `filepath.IsAbs`, on Unix.
abbrev pub is_abs : Text → Bool
is_abs [] = false
is_abs (c ∷ rest) = c == b'/'

-- `strings.ContainsAny(t, ", ")`
abbrev pub has_separator : Text → Bool
has_separator t = any (λ c. c == b',' || c == b' ') t

pub data Complaint : Type 0 where
  no_name no_repo no_source bad_schedule : Complaint
  relative_source bad_tag : Text → Complaint

-- The loops of Validate go on to the next check when they find nothing.
unfoldable pub check_sources : List Text → Option Complaint → Option Complaint
check_sources [] next = next
check_sources (s ∷ sources) next =
    let rest = check_sources sources next in if is_abs s then rest else some (relative_source s)

unfoldable pub check_tags : List Text → Option Complaint
check_tags [] = none
check_tags (t ∷ tags) =
    let rest = check_tags tags in if has_separator t then some (bad_tag t) else rest

abbrev pub has_any : List Text → Bool
has_any [] = false
has_any (s ∷ sources) = true

-- Whether a name is blank, and whether a schedule can be parsed, is what the libraries say.
module _ (is_blank : Text → Bool) (can_parse : Text → Bool) where
  unfoldable pub validate : PlanInput → Option Complaint
  unfolding check_sources check_tags
  validate p =
      if is_blank p.name
      then some no_name
      else if p.repo_id == 0
      then some no_repo
      else if not (has_any p.sources)
      then some no_source
      else check_sources p.sources (
          if not (is_empty p.schedule_cron) && not (can_parse p.schedule_cron)
          then some bad_schedule
          else check_tags p.tags)

-- A flag with a value for each of the texts.
unfoldable pub each_flag : Text → List Text → List Text
each_flag flag [] = []
each_flag flag (v ∷ values) = flag ∷ v ∷ each_flag flag values

-- `if n > 0 { args = append(args, flag, fmt.Sprint(n)) }`
unfoldable pub count_flag : Text → Option ℕ → List Text
count_flag flag n = if ltb 0 (or_else n 0) then flag ∷ decimal (or_else n 0) ∷ [] else []

unfoldable pub bool_flag : Text → Option Bool → List Text
bool_flag flag b = if or_else b false then flag ∷ [] else []

-- `BackupOptions.Args`
unfoldable pub options_args : BackupOptions → List Text
unfolding count_flag bool_flag
options_args o =
    count_flag (codes "--limit-upload") o.upload_limit_kib
    ++ (count_flag (codes "--limit-download") o.download_limit_kib
        ++ (bool_flag (codes "--exclude-caches") o.exclude_caches
            ++ bool_flag (codes "--one-file-system") o.one_file_system))

-- The arguments of a backup, behind the word "backup".
unfoldable pub backup_args : PlanInput → List Text
unfolding each_flag options_args
backup_args p =
    p.sources
    ++ (each_flag (codes "--exclude") p.excludes
        ++ (each_flag (codes "--tag") p.tags ++ (options_args p.options ++ codes "--json" ∷ [])))

-- `Retention.Empty`
unfoldable pub is_empty_retention : Retention → Bool
is_empty_retention r =
    or_else r.keep_last 0 == 0
    && or_else r.keep_hourly 0 == 0
    && or_else r.keep_daily 0 == 0
    && or_else r.keep_weekly 0 == 0
    && or_else r.keep_monthly 0 == 0
    && or_else r.keep_yearly 0 == 0

-- `Retention.Args`
unfoldable pub retention_args : Retention → List Text
unfolding count_flag
retention_args r =
    count_flag (codes "--keep-last") r.keep_last
    ++ (count_flag (codes "--keep-hourly") r.keep_hourly
        ++ (count_flag (codes "--keep-daily") r.keep_daily
            ++ (count_flag (codes "--keep-weekly") r.keep_weekly
                ++ (count_flag (codes "--keep-monthly") r.keep_monthly
                    ++ count_flag (codes "--keep-yearly") r.keep_yearly))))

-- `EnqueueForget`: the arguments behind the word "forget", or an error without a retention.
unfoldable pub forget_args : PlanInput → Option (List Text)
unfolding is_empty_retention retention_args each_flag bool_flag
forget_args p =
    if is_empty_retention p.retention
    then none
    else some (
        retention_args p.retention
        ++ (each_flag (codes "--path") p.sources ++ bool_flag (codes "--prune") p.retention.prune))
