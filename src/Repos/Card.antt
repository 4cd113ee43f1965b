-- ===== src/Repos/Card.antt =====
-- web/src/components/repos/RepoCard.tsx: the state of a repository's card, with its requests in flight.
-- `Buttons` has what a click changes and sends, `Run` what an answer changes.
pub mod Buttons
pub mod Run
pub mod InFlight
pub mod Schedule
pub mod Compare
pub mod Snapshots
pub mod Requests
mod Tests
use restic_ui.Base.{
  ℕ, zero, suc, Bool, true, false, not, ◌&&◌, Option, none, some, List, [], ◌∷◌, ◌++◌, ◌==◌,
  if◌then◌else◌, any, leb, length, get_elem?, take, or_else, is_some,
}
use restic_ui.Base.Text.{Text, codes, text_eq, is_empty}
use restic_ui.Base.Text.Trim.{trim}
use restic_ui.Cron.{humanize_cron}
use restic_ui.Types.{Repo}
use restic_ui.Types.Repositories.{Snapshot}
use restic_ui.Plans.Form.{preset_of, custom}
use restic_ui.Session.Requests.{Result, value, api_error, thrown}

pub data Task : Type 0 where
  init test unlock : Task

-- A request that the card sends.
pub data Job : Type 0 where
  task : Task → Job
  check prune delete : Job
  forget save find : Text → Job
  diff : (from to : Text) → Job
  copy : (dest : ℕ) → Job

pub data Tone : Type 0 where
  good bad : Tone

pub record Feedback : Type 0 where
  pub kind : Tone
  pub text : Text

-- The variables of `useState`.
pub record RepoCard : Type 0 where
  pub feedback : Option Feedback
  pub busy_action : Option Task
  pub confirm_delete : Bool
  pub confirm_prune : Bool
  pub confirm_forget : Option Text
  pub show_snapshots : Bool
  pub browsing_snap : Option Text
  pub copy_dest : Option ℕ
  pub check_preset : Text
  pub check_cron_draft : Text
  pub find_pattern : Text
  pub diff_from : Text
  pub diff_to : Text

unfoldable pub initial : Repo → RepoCard
initial repo = record {
  feedback = none;
  busy_action = none;
  confirm_delete = false;
  confirm_prune = false;
  confirm_forget = none;
  show_snapshots = false;
  browsing_snap = none;
  copy_dest = none;
  check_preset = preset_of repo.check_schedule_cron;
  check_cron_draft = repo.check_schedule_cron;
  find_pattern = [];
  diff_from = [];
  diff_to = [];
}

-- What the queries of the card hold: the snapshots, newest first, and the other repositories.
pub record Loaded : Type 0 where
  pub snapshots : Option (List Snapshot)
  pub other_repos : List Repo

abbrev pub snapshots_of : Loaded → List Snapshot
snapshots_of env = or_else env.snapshots []

-- The part of the card below the list of snapshots is shown if there is one.
abbrev pub shows_rows : Loaded → RepoCard → Bool
shows_rows env s = s.show_snapshots && leb 1 (length (snapshots_of env))

abbrev pub id_at : List Snapshot → ℕ → Text
id_at xs i = elim (get_elem? xs i) [ none ↦ [] | some s ↦ s.id ]

abbrev pub or_text : Text → Text → Text
or_text a b = if is_empty a then b else a

-- `diffFrom || snapshots.data?.[1]?.id || ""`, and the same for `diffTo`.
abbrev pub diff_from_val : Loaded → RepoCard → Text
diff_from_val env s = or_text s.diff_from (id_at (snapshots_of env) 1)

abbrev pub diff_to_val : Loaded → RepoCard → Text
diff_to_val env s = or_text s.diff_to (id_at (snapshots_of env) 0)

pub data Kind : Type 0 where
  tasks checks prunes deletes forgets saves finds diffs copies : Kind

-- The `useMutation` of a request.
abbrev pub kind_of : Job → Kind
kind_of (task t) = tasks
kind_of check = checks
kind_of prune = prunes
kind_of delete = deletes
kind_of (forget id) = forgets
kind_of (save cron) = saves
kind_of (find pattern) = finds
kind_of (diff from to) = diffs
kind_of (copy dest) = copies

abbrev pub same_kind : Kind → Kind → Bool
same_kind tasks tasks = true
same_kind checks checks = true
same_kind prunes prunes = true
same_kind deletes deletes = true
same_kind forgets forgets = true
same_kind saves saves = true
same_kind finds finds = true
same_kind diffs diffs = true
same_kind copies copies = true
same_kind _ _ = false

abbrev pub is_kind : Kind → Job → Bool
is_kind k job = same_kind k (kind_of job)

-- The card, its requests that are not answered yet, the latest first, and whether the latest save of
-- a schedule is one of them (`setSchedule.isPending`: an observer follows the latest call).
pub record System : Type 0 where
  pub card : RepoCard
  pub in_flight : List Job
  pub save_pending : Bool

pub data Click : Type 0 where
  press_task : Task → Click
  press_check ask_delete keep_repo press_delete : Click
  ask_prune cancel_prune press_prune toggle_snapshots : Click
  choose_preset type_cron : Text → Click
  press_save : Click
  type_pattern : Text → Click
  press_find : Click
  browse toggle_row : Text → Click
  close_browser : Click
  ask_forget press_forget : Text → Click
  cancel_forget : Click
  choose_from choose_to : Text → Click
  press_diff : Click
  choose_dest : ℕ → Click
  press_copy : Click
