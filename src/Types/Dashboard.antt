-- ===== src/Types/Dashboard.antt =====
-- web/src/lib/types.ts: what the dashboard shows.
use restic_ui.Base.{ℕ, Bool, Option, List}
use restic_ui.Base.Text.{Text}
use restic_ui.Base.Dict.{Dict}
use restic_ui.Types.{OpStatus, Operation}

pub record DashboardPlan : Type 0 where
  pub id : ℕ
  pub name : Text
  pub repo_name : Text
  pub schedule_cron : Text
  pub enabled : Bool
  pub next_run : Option Text
  pub last_status : Option OpStatus
  pub last_run : Option Text
  pub overdue : Bool

pub record GrowthPoint : Type 0 where
  pub t : Text
  pub size : ℕ

pub record RepoGrowth : Type 0 where
  pub repo_id : ℕ
  pub repo_name : Text
  pub points : List GrowthPoint

-- The time of a backup, in milliseconds.
pub record DurationPoint : Type 0 where
  pub t : Text
  pub seconds : ℕ

pub record Dashboard : Type 0 where
  pub repo_count : ℕ
  pub plan_count : ℕ
  pub running_ops : ℕ
  pub issues24h : ℕ
  pub plans : List DashboardPlan
  pub recent_ops : List Operation
  pub repo_growth : List RepoGrowth
  pub plan_durations : Dict (List DurationPoint)
