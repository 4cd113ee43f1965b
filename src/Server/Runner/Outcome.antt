-- ===== src/Server/Runner/Outcome.antt =====
-- internal/ops/runner.go and commands.go: the types of operations, and what an operation's process
-- makes of its status.
use restic_ui.Base.{Bool, true, false, Option, none, some, ◌==◌, if◌then◌else◌}
use restic_ui.Base.Text.{Text, codes}
use restic_ui.Types.{OpStatus, ℤ, pos, negsuc}

-- The types of operations that the requests enqueue.
pub data Work : Type 0 where
  backup retention restore check forget prune copy : Work

abbrev pub type_of : Work → Text
type_of Work.backup = codes "backup"
type_of Work.retention = codes "retention"
type_of Work.restore = codes "restore"
type_of Work.check = codes "check"
type_of Work.forget = codes "forget"
type_of Work.prune = codes "prune"
type_of Work.copy = codes "copy"

-- How an operation's process went: restic was not started, since the repository could not be
-- prepared or the start failed; it succeeded; or `Wait` failed, with the exit code or -1.
pub data Exit : Type 0 where
  not_started succeeded : Exit
  failed : ℤ → Exit

-- Code 3 of a backup says that some files could not be read.
abbrev pub is_partial : Work → ℤ → Bool
is_partial Work.backup (pos n) = n == 3
is_partial _ _ = false

-- The final status, given whether the context was canceled when the process had ended.
unfoldable pub final_status : Work → Bool → Exit → OpStatus
final_status w canceled not_started = OpStatus.error
final_status w true _ = OpStatus.canceled
final_status w false succeeded = OpStatus.success
final_status w false (failed code) = if is_partial w code then OpStatus.warning else OpStatus.error

-- The exit code that is stored with it; a backup that was not started stores none.
unfoldable pub final_code : Work → Bool → Exit → Option ℤ
final_code Work.backup canceled not_started = none
final_code w canceled not_started = some (negsuc 0)
final_code w true _ = some (pos 0)
final_code w false succeeded = some (pos 0)
final_code w false (failed code) = some code
