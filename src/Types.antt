-- ===== src/Types.antt =====
-- web/src/lib/types.ts: the shapes of the API's data. An optional field is an `Option`, a string a
-- `Text`, a count or an id a natural number. A duration is in milliseconds and a fraction in
-- millionths, both whole numbers.
pub mod Bytes
pub mod Repositories
pub mod Dashboard
use restic_ui.Base.{ℕ, Bool, Option, List}
use restic_ui.Base.Text.{Text}

-- `negsuc n` is -(n + 1). An exit code of -1 stands for a process that gave none.
pub data ℤ : Type 0 where
  pos negsuc : ℕ → ℤ

pub data BackendType : Type 0 where
  local_path s3 sftp rclone : BackendType

pub record RepoConfig : Type 0 where
  pub path : Option Text
  pub endpoint : Option Text
  pub bucket : Option Text
  pub prefix : Option Text
  pub region : Option Text
  pub access_key_id : Option Text
  pub use_http : Option Bool
  pub host : Option Text
  pub port : Option ℤ
  pub user : Option Text
  pub remote : Option Text

pub record RepoSecrets : Type 0 where
  pub secret_access_key : Option Text
  pub private_key : Option Text
  pub rclone_conf : Option Text

pub record Repo : Type 0 where
  pub id : ℕ
  pub name : Text
  pub backend_type : BackendType
  pub config : RepoConfig
  pub has_secrets : Bool
  pub check_schedule_cron : Text
  pub next_check : Option Text
  pub created_at : Text
  pub updated_at : Text

pub record RepoInput : Type 0 where
  pub name : Text
  pub backend_type : BackendType
  pub config : RepoConfig
  pub password : Text
  pub secrets : RepoSecrets
  pub check_schedule_cron : Text

pub record Retention : Type 0 where
  pub keep_last : Option ℕ
  pub keep_hourly : Option ℕ
  pub keep_daily : Option ℕ
  pub keep_weekly : Option ℕ
  pub keep_monthly : Option ℕ
  pub keep_yearly : Option ℕ
  pub prune : Option Bool

pub record BackupOptions : Type 0 where
  pub upload_limit_kib : Option ℕ
  pub download_limit_kib : Option ℕ
  pub exclude_caches : Option Bool
  pub one_file_system : Option Bool

pub record Plan : Type 0 where
  pub id : ℕ
  pub name : Text
  pub repo_id : ℕ
  pub repo_name : Text
  pub sources : List Text
  pub excludes : List Text
  pub tags : List Text
  pub schedule_cron : Text
  pub retention : Retention
  pub options : BackupOptions
  pub enabled : Bool
  pub notify_muted : Bool
  pub next_run : Option Text
  pub created_at : Text
  pub updated_at : Text

pub record PlanInput : Type 0 where
  pub name : Text
  pub repo_id : ℕ
  pub sources : List Text
  pub excludes : List Text
  pub tags : List Text
  pub schedule_cron : Text
  pub retention : Retention
  pub options : BackupOptions
  pub enabled : Bool
  pub notify_muted : Bool

pub record BackupPreview : Type 0 where
  pub files_new : ℕ
  pub files_changed : ℕ
  pub files_unmodified : ℕ
  pub data_added : ℕ
  pub total_files_processed : ℕ
  pub total_bytes_processed : ℕ
  pub total_duration : ℕ

pub record ForgetSnapshot : Type 0 where
  pub id : Text
  pub short_id : Text
  pub time : Text
  pub paths : List Text

pub record ForgetGroup : Type 0 where
  pub host : Text
  pub paths : List Text
  pub tags : Option (List Text)
  pub keep : List ForgetSnapshot
  pub remove : List ForgetSnapshot

pub record LsNode : Type 0 where
  pub name : Text
  pub type : Text
  pub path : Text
  pub size : ℕ
  pub mtime : Text

pub data OpStatus : Type 0 where
  queued running success warning error canceled : OpStatus

pub record OpSummary : Type 0 where
  pub snapshot_id : Option Text
  pub files_new : Option ℕ
  pub files_changed : Option ℕ
  pub files_unmodified : Option ℕ
  pub data_added : Option ℕ
  pub total_duration : Option ℕ

pub record Operation : Type 0 where
  pub id : ℕ
  pub type : Text
  pub repo_id : Option ℕ
  pub repo_name : Option Text
  pub plan_id : Option ℕ
  pub plan_name : Option Text
  pub status : OpStatus
  pub started_at : Option Text
  pub ended_at : Option Text
  pub exit_code : Option ℤ
  pub summary : Option OpSummary
  pub created_at : Text

pub data LogLevel : Type 0 where
  info warn error : LogLevel

pub record LogLine : Type 0 where
  pub seq : ℕ
  pub ts : Text
  pub level : LogLevel
  pub message : Text

-- `percentDone` is a part of 1; it is counted in millionths here.
pub record OpProgress : Type 0 where
  pub percent_done : ℕ
  pub total_files : ℕ
  pub files_done : ℕ
  pub total_bytes : ℕ
  pub bytes_done : ℕ
  pub seconds_left : ℕ
  pub current_file : Option Text

-- The source tags an event by a string and leaves the payload of the other kinds out; `op!` and
-- `log!` say that the payload of the tag's kind is there.
pub data StreamEvent : Type 0 where
  op : Operation → StreamEvent
  log : (op_id : ℕ) → LogLine → StreamEvent
  progress : (op_id : ℕ) → OpProgress → StreamEvent
