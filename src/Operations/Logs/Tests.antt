-- ===== src/Operations/Logs/Tests.antt =====
-- A log that is fetched while it grows, on small inputs.
use restic_ui.Base.{ℕ, none, some, List, [], ◌∷◌, ◌++◌, ◌≡◌, ◌↔◌, refl}
use restic_ui.Base.Text.{codes}
use restic_ui.Types.{LogLevel, LogLine}
use restic_ui.Operations.Cache.{QueryCache, apply_log, append_log}
use restic_ui.Operations.Logs.{
  Flow, store, publish, receive, Step, flow, shown_log, move_all, step, run, move, receive_line,
}
use restic_ui.Operations.Logs.Race.{at_read, at_arrival, at_end, log_raced}

abbrev line : ℕ → LogLine
line n = record { seq = n; ts = []; level = LogLevel.info; message = codes "x" }

abbrev no_cache : QueryCache
no_cache = record {
  operations = none;
  filtered = [];
  op_logs = [];
  op_progress = [];
  invalidated = [];
}

-- The second line is stored and published before the rows are read.
abbrev stored_twice : List Step
stored_twice =
    flow (store (line 1)) ∷ flow publish ∷ flow receive ∷ flow (store (line 2)) ∷ flow publish ∷ []

-- Its event is handled after the answer.
twice :
    shown_log 7 (at_end 7 [] no_cache stored_twice [] (receive ∷ []))
    ≡ some (line 1 ∷ line 2 ∷ line 2 ∷ [])
unfolding run step move move_all receive_line apply_log append_log
twice = refl

-- A line that is stored after the rows were read, and handled before the answer arrives.
abbrev third : List Flow
third = receive ∷ store (line 3) ∷ publish ∷ receive ∷ []

missing : shown_log 7 (at_end 7 [] no_cache stored_twice third []) ≡ some (line 1 ∷ line 2 ∷ [])
unfolding run step move move_all receive_line apply_log append_log
missing = refl

idle : (at_read 7 [] no_cache stored_twice third []).reply ≡ none
unfolding run step move receive_line
idle = refl

drained : (at_end 7 [] no_cache stored_twice third []).queued ≡ []
unfolding run step move move_all receive_line apply_log
drained = refl

published : (at_end 7 [] no_cache stored_twice third []).unpublished ≡ none
unfolding run step move move_all receive_line apply_log
published = refl

log_raced_example :
    (later : List LogLine) × ((at_end 7 [] no_cache stored_twice third []).written
      ≡ (at_arrival 7 [] no_cache stored_twice third []).passed ++ later)
    × (shown_log 7 (at_end 7 [] no_cache stored_twice third [])
        ≡ some ((at_read 7 [] no_cache stored_twice third []).written ++ later))
    × ((shown_log 7 (at_end 7 [] no_cache stored_twice third [])
          ≡ some (at_end 7 [] no_cache stored_twice third []).written)
        ↔ ((at_arrival 7 [] no_cache stored_twice third []).passed
            ≡ (at_read 7 [] no_cache stored_twice third []).written))
log_raced_example = log_raced 7 [] no_cache stored_twice third [] idle drained published
