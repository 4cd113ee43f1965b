-- ===== src/Operations/Logs.antt =====
-- The log of one operation, while the operation writes it: opLogger.log and GetLogs of
-- internal/ops/runner.go, the event stream that carries the lines, and the query of useOpLogs with
-- the case "log" of useEventStream in web/src/hooks/useOperations.ts. The database stores every
-- line, and no event is dropped.
pub mod Accounts
pub mod Race
mod Tests
use restic_ui.Base.{ℕ, Option, none, some, List, [], ◌∷◌, ◌++◌}
use restic_ui.Base.Dict.{lookup, insert}
use restic_ui.Types.{LogLine}
use restic_ui.Operations.Cache.{QueryCache, apply_log}

-- The rows of the operation in the database; the line that is stored and not yet published; the
-- events on their way, the oldest first; the lines whose events are over, since the browser has
-- handled them or was not connected then; the answer of GET .../logs on its way; and the cache.
pub record Logs : Type 0 where
  pub written : List LogLine
  pub unpublished : Option LogLine
  pub queued : List LogLine
  pub passed : List LogLine
  pub reply : Option (List LogLine)
  pub cache : QueryCache

-- The lines that were written before the browser connected are past.
abbrev pub connected : List LogLine → QueryCache → Logs
connected lines cache = record {
  written = lines;
  unpublished = none;
  queued = [];
  passed = lines;
  reply = none;
  cache = cache;
}

-- A line goes its way: it is stored, published, and handled by the browser.
pub data Flow : Type 0 where
  store : LogLine → Flow
  publish receive : Flow

pub data Step : Type 0 where
  flow : Flow → Step
  -- The server answers a request for the log, and the answer reaches the browser.
  read arrive : Step

-- The logger stores a line when it has published the one before.
abbrev pub store_line : LogLine → Option LogLine → Logs → Logs
store_line l none s = record s { written = s.written ++ l ∷ []; unpublished = some l }
store_line l (some m) s = s

abbrev pub publish_line : Option LogLine → Logs → Logs
publish_line none s = s
publish_line (some l) s = record s { unpublished = none; queued = s.queued ++ l ∷ [] }

-- The case "log" of the message handler.
unfoldable pub receive_line : ℕ → List LogLine → Logs → Logs
unfolding apply_log
receive_line id [] s = s
receive_line id (l ∷ queued) s = record s {
  queued = queued;
  passed = s.passed ++ l ∷ [];
  cache = apply_log id l s.cache;
}

-- One request at a time is under way for a query.
abbrev pub read_rows : Option (List LogLine) → Logs → Logs
read_rows none s = record s { reply = some s.written }
read_rows (some rows) s = s

abbrev pub arrive_rows : ℕ → Option (List LogLine) → Logs → Logs
arrive_rows id none s = s
arrive_rows id (some rows) s = record s {
  reply = none;
  cache = record s.cache { op_logs = insert id rows s.cache.op_logs };
}

unfoldable pub move : ℕ → Flow → Logs → Logs
unfolding receive_line
move id (store l) s = store_line l s.unpublished s
move id publish s = publish_line s.unpublished s
move id receive s = receive_line id s.queued s

unfoldable pub move_all : ℕ → List Flow → Logs → Logs
unfolding move
move_all id [] s = s
move_all id (f ∷ fs) s = move_all id fs (move id f s)

unfoldable pub step : ℕ → Step → Logs → Logs
unfolding move
step id (flow f) s = move id f s
step id read s = read_rows s.reply s
step id arrive s = arrive_rows id s.reply s

unfoldable pub run : ℕ → List Step → Logs → Logs
unfolding step
run id [] s = s
run id (t ∷ ts) s = run id ts (step id t s)

-- The log that the console shows, if it is loaded.
abbrev pub shown_log : ℕ → Logs → Option (List LogLine)
shown_log id s = lookup id s.cache.op_logs
