-- ===== src/Operations/Tests.antt =====
-- Operations, events and pages on small inputs.
use restic_ui.Base.{
  ℕ, suc, ◌≡◌, ◌≢◌, refl, true, false, Option, none, some, List, [], ◌∷◌, arith, map, find?, length,
  if◌then◌else◌, any, ◌==◌,
}
use restic_ui.Base.Text.{Text, codes, decimal, text_eq}
use restic_ui.Types.Bytes.{format_bytes}
use restic_ui.Types.{OpStatus, OpSummary, Operation, LogLevel, LogLine, StreamEvent}
use restic_ui.Toasts.{Kind, initial}
use restic_ui.Operations.Notify.{toast, toast_all, maybe_toast}
use restic_ui.Operations.Notify.Once.{toasts_for, toast_all_once}
use restic_ui.Operations.Cache.{
  OpHistoryFilters, QueryCache, snapshots, repo_stats, repo_stats_history, plans, has_id, upsert,
  apply_op,
}
use restic_ui.Operations.Cache.Upsert.{upsert_lem}
use restic_ui.Operations.Cache.Pages.{flat, IsFolded, apply_op_lem}
use restic_ui.Operations.Stream.{Client, on_message, receive}
use restic_ui.Operations.Stream.Latest.{decoded, IsCaughtUp, receive-IsCaughtUp}
use restic_ui.Operations.Socket.{
  connect, mount, drop_socket, on_open, opened, cleanup, fire, dropped, Reach, start, next, Effect,
}
use restic_ui.Operations.Socket.Single.{Attempt, Reach-Attempt}
use restic_ui.Operations.Socket.Leak.{here, later, cleanup-leaks}
use restic_ui.Operations.History.{load_more, selects}
use restic_ui.Operations.History.Complete.{selected, load_more_complete}

abbrev summary : OpSummary
summary = record {
  snapshot_id = none;
  files_new = some 3;
  files_changed = none;
  files_unmodified = none;
  data_added = some 1536;
  total_duration = none;
}

abbrev backup : ℕ → OpStatus → Operation
backup id status = record {
  id = id;
  type = codes "backup";
  repo_id = some 1;
  repo_name = some (codes "nas");
  plan_id = some 4;
  plan_name = some (codes "photos");
  status = status;
  started_at = none;
  ended_at = none;
  exit_code = none;
  summary = some summary;
  created_at = codes "2026-07-12";
}

abbrev reports : List Operation
reports =
    backup 7 OpStatus.running
    ∷ backup 8 OpStatus.running
    ∷ backup 7 OpStatus.success
    ∷ backup 8 OpStatus.canceled
    ∷ backup 7 OpStatus.success
    ∷ []

success_toast :
    (maybe_toast (backup 7 OpStatus.success) []).1
    ≡ toast (record {
      kind = Kind.success;
      title = codes "Backup \"photos\" succeeded";
      message = some (codes "1.5 KiB added");
    })
unfolding maybe_toast format_bytes decimal
success_toast = refl

toast_all_once_example : toasts_for 7 (toast_all reports []) ≡ 1
toast_all_once_example =
    toast_all_once 7 reports (OpStatus.running ∷ []) (OpStatus.success ∷ []) OpStatus.success
      ((λ e. cc), ((λ e. cc), ((λ e. cc), ((λ e. cc), ((λ e. cc), tt))))) refl (refl, tt) refl
      (refl, tt)

abbrev no_filters : OpHistoryFilters
no_filters = record { type = none; status = none; repo_id = none; plan_id = none }

abbrev cache : QueryCache
cache = record {
  operations = some (backup 7 OpStatus.running ∷ backup 6 OpStatus.success ∷ []);
  filtered =
      record {
        filters = no_filters;
        state =
            some (record { pages = (backup 7 OpStatus.queued ∷ []) ∷ []; page_params = none ∷ [] });
      }
      ∷ [];
  op_logs = (7, []) ∷ [];
  op_progress = [];
  invalidated = [];
}

upsert_lem_case :
    (find? (has_id 7) (upsert (backup 7 OpStatus.error) (backup 6 OpStatus.success ∷ []))
      ≡ some (backup 7 OpStatus.error))
    × ((k : ℕ)
        → k ≢ 7
        → find? (has_id k) (upsert (backup 7 OpStatus.error) (backup 6 OpStatus.success ∷ []))
          ≡ find? (has_id k) (backup 6 OpStatus.success ∷ []))
    × (map (λ o. o.id) (upsert (backup 7 OpStatus.error) (backup 6 OpStatus.success ∷ []))
        ≡ 7 ∷ 6 ∷ [])
upsert_lem_case = upsert_lem (backup 7 OpStatus.error) (backup 6 OpStatus.success ∷ [])

apply_op_lem_example :
    IsFolded
      (backup 7 OpStatus.error)
      cache.filtered
      (apply_op (backup 7 OpStatus.error) cache).filtered
    × ((apply_op (backup 7 OpStatus.error) cache).invalidated
        ≡ snapshots ∷ repo_stats ∷ repo_stats_history ∷ plans ∷ [])
    × ((apply_op (backup 7 OpStatus.error) cache).op_logs ≡ cache.op_logs)
    × ((apply_op (backup 7 OpStatus.error) cache).op_progress ≡ cache.op_progress)
apply_op_lem_example = apply_op_lem (backup 7 OpStatus.error) cache

abbrev line : LogLine
line = record { seq = 1; ts = codes "t"; level = LogLevel.info; message = codes "m" }

-- A stand-in for the JSON parser: "op" and "log" are messages, the rest cannot be parsed.
abbrev parse : Text → Option StreamEvent
parse s =
    if text_eq s (codes "op")
    then some (StreamEvent.op (backup 7 OpStatus.success))
    else if text_eq s (codes "log")
    then some (StreamEvent.log 7 line)
    else none

abbrev messages : List (ℕ × Text)
messages = (10, codes "log") ∷ (20, codes "?") ∷ (30, codes "op") ∷ []

abbrev client : Client
client = record { seen = []; cache = cache; toasts = initial }

received_toasts : length (receive parse messages client).toasts.toasts ≡ 1
unfolding receive on_message
received_toasts = refl

receive-IsCaughtUp_example :
    IsCaughtUp 7 (decoded parse messages) client.cache (receive parse messages client).cache
receive-IsCaughtUp_example = receive-IsCaughtUp parse 7 messages client (tt, ((λ e. cc), tt))

dropped_once : Reach (drop_socket 0 mount)
unfolding mount connect
dropped_once = next start (dropped 0 refl)

first_delay : (drop_socket 0 mount).timeouts ≡ 2000 ∷ []
unfolding mount drop_socket
first_delay = refl

Reach-Attempt_example : Attempt (drop_socket 0 mount)
Reach-Attempt_example = Reach-Attempt dropped_once

dropped_closed : (drop_socket 0 mount).closed ≡ false
unfolding mount drop_socket
dropped_closed = refl

dropped_sockets : (drop_socket 0 mount).sockets ≡ []
unfolding mount drop_socket
dropped_sockets = refl

-- The cleanup while the first reconnect is pending, and the timeout.
abbrev leaked : Effect
leaked = fire (cleanup (drop_socket 0 mount)).timeouts (cleanup (drop_socket 0 mount))

one_there : any (λ m. m == 1) leaked.sockets ≡ true
unfolding mount drop_socket cleanup fire
one_there = refl

cleanup-leaks_example :
    ((on_open leaked).sockets ≡ (drop_socket 0 mount).next_socket ∷ [])
    × ((on_open leaked).closed ≡ true)
cleanup-leaks_example =
    cleanup-leaks dropped_once dropped_closed dropped_sockets
      (later here (opened 1 one_there) (λ e. cc))

-- `n` operations, numbered down from `n`.
countdown : ℕ → List Operation
countdown ℕ.zero = []
countdown (suc n) = backup (suc n) OpStatus.success ∷ countdown n

two_pages : map length (load_more 4 (countdown 70) no_filters none) ≡ 50 ∷ 20 ∷ []
unfolding countdown load_more selects
two_pages = refl

abbrev failures : OpHistoryFilters
failures = record no_filters { status = some (codes "error") }

abbrev table : List Operation
table = backup 9 OpStatus.error ∷ backup 5 OpStatus.success ∷ backup 2 OpStatus.error ∷ []

load_more_complete_example : flat (load_more 4 table failures none) ≡ selected failures table
load_more_complete_example = load_more_complete 4 table failures (omega arith) (omega arith)
