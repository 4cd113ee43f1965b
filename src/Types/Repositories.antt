-- ===== src/Types/Repositories.antt =====
-- web/src/lib/types.ts: snapshots, statistics, search results and comparisons.
use restic_ui.Base.{ℕ, Bool, Option, List}
use restic_ui.Base.Text.{Text}

pub record SnapshotSummary : Type 0 where
  pub total_files_processed : ℕ
  pub total_bytes_processed : ℕ

pub record Snapshot : Type 0 where
  pub id : Text
  pub short_id : Text
  pub time : Text
  pub hostname : Text
  pub username : Text
  pub paths : List Text
  pub tags : Option (List Text)
  pub summary : Option SnapshotSummary

pub record RepoStats : Type 0 where
  pub total_size : ℕ
  pub total_file_count : ℕ
  pub snapshots_count : ℕ

pub record RepoStatsPoint : Type 0 where
  pub captured_at : Text
  pub total_size : ℕ
  pub total_file_count : ℕ
  pub snapshots_count : ℕ

pub record DiffChange : Type 0 where
  pub path : Text
  pub modifier : Text

pub record DiffCount : Type 0 where
  pub files : ℕ
  pub dirs : ℕ
  pub bytes : ℕ

pub record DiffStats : Type 0 where
  pub source_snapshot : Text
  pub target_snapshot : Text
  pub changed_files : ℕ
  pub added : DiffCount
  pub removed : DiffCount

pub record DiffResult : Type 0 where
  pub changes : List DiffChange
  pub truncated : Bool
  pub stats : Option DiffStats

pub record FindMatch : Type 0 where
  pub path : Text
  pub type : Text
  pub size : ℕ
  pub mtime : Text

pub record FindResult : Type 0 where
  pub snapshot : Text
  pub hits : ℕ
  pub matches : List FindMatch
