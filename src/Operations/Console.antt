-- ===== src/Operations/Console.antt =====
-- web/src/pages/OperationsPage.tsx: OpDetail, the console of an operation, with useOpLogs and
-- useOpProgress of web/src/hooks/useOperations.ts; web/src/components/ops/ProgressBar.tsx and
-- web/src/components/StatusBadge.tsx.
use restic_ui.Base.{
  ℕ, ◌+◌, ◌*◌, ◌/◌, Bool, true, false, not, Option, none, some, List, [], ◌∷◌, ◌++◌, if◌then◌else◌,
  map,
}
use restic_ui.Base.Text.{Text, codes, is_empty, decimal}
use restic_ui.Types.{Operation, OpStatus, OpProgress, LogLine, LogLevel}
use restic_ui.Types.Bytes.{whole, format_bytes}

-- `STYLES` of StatusBadge.
abbrev pub badge_style : OpStatus → Text
badge_style OpStatus.queued = codes "bg-secondary text-secondary-foreground"
badge_style OpStatus.running = codes "bg-blue-500/15 text-blue-500"
badge_style OpStatus.success = codes "bg-green-500/15 text-green-500"
badge_style OpStatus.warning = codes "bg-amber-500/15 text-amber-500"
badge_style OpStatus.error = codes "bg-destructive/15 text-destructive"
badge_style OpStatus.canceled = codes "bg-secondary text-muted-foreground"

-- `LEVEL_STYLES`
abbrev pub level_style : LogLevel → Text
level_style LogLevel.info = codes "text-foreground/90"
level_style LogLevel.warn = codes "text-amber-500"
level_style LogLevel.error = codes "text-destructive"

-- `Math.round(progress.percentDone * 100)`
unfoldable pub percent : OpProgress → ℕ
percent p = (p.percent_done * 100 + 500000) / 1000000

-- `progress.currentFile && <> · {progress.currentFile}</>`
abbrev pub current_file_text : Option Text → Text
current_file_text none = []
current_file_text (some f) = if is_empty f then [] else codes " · " ++ f

unfoldable pub counts_text : OpProgress → Text
counts_text p =
    decimal p.files_done
    ++ (codes "/"
        ++ (decimal p.total_files
            ++ (codes " files · "
                ++ (format_bytes (whole p.bytes_done)
                    ++ (codes "/"
                        ++ (format_bytes (whole p.total_bytes)
                            ++ current_file_text p.current_file))))))

-- The bar: its text, its numeral and its width, which are the same percentage.
pub record Bar : Type 0 where
  pub text : Text
  pub numeral : Text
  pub width : ℕ

unfoldable pub progress_bar : Option OpProgress → Option Bar
unfolding percent counts_text
progress_bar none = none
progress_bar (some p) =
    some (record {
      text = counts_text p;
      numeral = decimal (percent p) ++ codes "%";
      width = percent p;
    })

abbrev pub is_active : OpStatus → Bool
is_active OpStatus.running = true
is_active OpStatus.queued = true
is_active _ = false

-- A line of the log; `time` is `toLocaleTimeString` of its date.
pub record Line : Type 0 where
  pub style : Text
  pub time : Text
  pub message : Text

abbrev pub line_of : (Text → Text) → LogLine → Line
line_of time l = record { style = level_style l.level; time = time l.ts; message = l.message }

pub data LogView : Type 0 where
  loading no_output : LogView
  lines : List Line → LogView

unfoldable pub log_view : (Text → Text) → Option (List LogLine) → LogView
log_view time none = loading
log_view time (some []) = no_output
log_view time (some (l ∷ ls)) = lines (map (line_of time) (l ∷ ls))

-- The console of an operation: the bar and the button "Cancel" while it is queued or running.
pub record Console : Type 0 where
  pub bar : Option Bar
  pub log : LogView
  pub cancel : Option Bool

unfoldable pub console :
    (time : Text → Text)
    → (cancel_pending : Bool) → Option (List LogLine)
    → Option OpProgress
    → Operation
    → Console
unfolding progress_bar log_view
console time cancel_pending logs progress op = record {
  bar = if is_active op.status then progress_bar progress else none;
  log = log_view time logs;
  cancel = if is_active op.status then some (not cancel_pending) else none;
}

-- The effect that follows the end of the log, on the scroll position and the height of the console.
abbrev pub follow_tail : OpStatus → (scroll_top scroll_height : ℕ) → ℕ
follow_tail status top height = if is_active status then height else top

abbrev pub logs_url : ℕ → Text
logs_url id = codes "/api/operations/" ++ (decimal id ++ codes "/logs")

abbrev pub cancel_url : ℕ → Text
cancel_url id = codes "/api/operations/" ++ (decimal id ++ codes "/cancel")
