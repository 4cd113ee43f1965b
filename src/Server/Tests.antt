-- ===== src/Server/Tests.antt =====
-- The server on small inputs.
use restic_ui.Base.{ℕ, ◌≡◌, refl, false, none, some, List, [], ◌∷◌, ◌++◌, arith, Option, true, All}
use restic_ui.Base.Text.{codes, Text}
use restic_ui.Types.{Operation, pos, StreamEvent, OpStatus}
use restic_ui.Operations.Notify.{toast_all, is_terminal}
use restic_ui.Operations.Notify.Once.{toasts_for, statuses}
use restic_ui.Server.Runner.Outcome.{Work, failed}
use restic_ui.Server.Runner.{
  waiting, working, done, Task, Turn, Target, queued_task, enqueued, advanced, Move, run, empty,
  started_row, final_row,
}
use restic_ui.Server.Hub
use restic_ui.Server.Runner.Exclusive.{run-one_running}
use restic_ui.Server.Runner.Progress.{CanGoOn, run-CanGoOn}
use restic_ui.Server.Runner.Cancel.{IsCancelable, cancel_lem}
use restic_ui.Server.Runner.Once.{run-toasts_once}
use restic_ui.Server.Hub.{
  Channel, new_channel, Action, subscribed, unsubscribed, published, forwarded, subscribe,
}
use restic_ui.Server.Hub.Channels.{publications, keep, stop}
use restic_ui.Server.Hub.Delivery.{Delivers, subscribe-Delivers}
use restic_ui.Server.Runner.Resume.{resumed, resumed-unannounced}
use restic_ui.Server.Missed.{end-missed}
use restic_ui.Operations.Stream.{Client, receive}
use restic_ui.Operations.Stream.Latest.{listed}
use restic_ui.Base.Dict.{lookup}
use restic_ui.Toasts.{initial}

abbrev target : Target
target = record { repo = 4; repo_name = some (codes "nas"); plan_id = some 2; plan_name = none }

abbrev unreadable : Turn
unreadable = record { time = codes "t1"; exit = failed (pos 3); summary = none }

abbrev go : ℕ → List Move
go k = advanced unreadable k ∷ []

-- Two backups to one repository: the first is at work, and the second waits.
abbrev contended : List Move
contended =
    enqueued Work.backup (some target) (codes "t0")
    ∷ enqueued Work.backup (some target) (codes "t0")
    ∷ (go 1 ++ (go 2 ++ (go 1 ++ (go 2 ++ (go 1 ++ (go 1 ++ (go 1 ++ go 2)))))))

abbrev first : Task
first =
    let t : Task = queued_task 1 Work.backup target (codes "t0") in
    record t { phase = working; row = started_row unreadable t.row }

abbrev second : Task
second = record (queued_task 2 Work.backup target (codes "t0")) { phase = waiting }

first_there : (run contended empty).tasks 1 ≡ some first
unfolding run
first_there = refl

second_there : (run contended empty).tasks 2 ≡ some second
unfolding run
second_there = refl

run-one_running_example : ◌≡◌ {A = ℕ} 1 1
run-one_running_example =
    run-one_running contended 1 1 first first first_there first_there refl refl refl

run-CanGoOn_example : (j : ℕ) × CanGoOn unreadable 4 j (run contended empty)
run-CanGoOn_example = run-CanGoOn contended unreadable 2 second second_there (λ e. ground arith)

cancel_lem_example : IsCancelable contended 2 second
cancel_lem_example = cancel_lem contended 2 second second_there

-- The first one goes on to its end.
abbrev drained : List Move
drained = contended ++ (go 1 ++ (go 1 ++ (go 1 ++ (go 1 ++ (go 1 ++ (go 2 ++ go 2))))))

abbrev first_done : Task
first_done = record first { phase = done; row = final_row Work.backup false unreadable first.row }

first_done_there : (run drained empty).tasks 1 ≡ some first_done
unfolding run
first_done_there = refl

abbrev missed_events : List Operation
missed_events = (queued_task 1 Work.backup target (codes "t0")).row ∷ []

abbrev received_events : List Operation
received_events = second.row ∷ first.row ∷ first_done.row ∷ []

run-toasts_once_example : toasts_for 1 (toast_all received_events []) ≡ 1
unfolding run final_row
run-toasts_once_example =
    run-toasts_once drained 1 first_done missed_events received_events first_done_there refl refl
      (refl, tt)

abbrev busy : List (Action ℕ)
busy = published 5 ∷ subscribed ∷ forwarded 0 ∷ published 6 ∷ unsubscribed 1 ∷ []

subscribe-Delivers_example :
    (c : Channel ℕ) × (lookup 0 (Hub.run busy (subscribe (record { next = 0; subs = [] }))).subs
      ≡ some c)
    × Delivers (publications busy) new_channel c
subscribe-Delivers_example =
    subscribe-Delivers (record { next = 0; subs = [] }) busy
      (tt, (tt, (tt, (tt, (omega arith, tt)))))

-- Then the second one starts.
abbrev later : List Move
later = go 2 ++ go 2

abbrev second_running : Operation
second_running = started_row unreadable second.row

abbrev parse : Text → Option StreamEvent
parse s = some (StreamEvent.op second_running)

-- The browser has seen that the first one runs.
abbrev client : Client
client = record {
  seen = [];
  cache = record {
    operations = some (first.row ∷ []);
    filtered = [];
    op_logs = [];
    op_progress = [];
    invalidated = [];
  };
  toasts = initial;
}

end-missed_example :
    listed 1 (receive parse ((0, codes "{}") ∷ []) client).cache ≡ listed 1 client.cache
unfolding run
end-missed_example =
    end-missed drained later 1 first_done (second_running ∷ []) parse ((0, codes "{}") ∷ []) client
      first_done_there refl refl (keep stop)

interrupted : (resumed (codes "t9") second.row).status ≡ OpStatus.error
unfolding resumed
interrupted = refl

-- The second one is interrupted while it waits.
pending_rows : (run contended empty).events ≡ [] ++ (run contended empty).events
pending_rows = refl

resumed-unannounced_example :
    (is_terminal (resumed (codes "t9") second.row).status ≡ true)
    × All (λ s. is_terminal s ≡ false) (statuses 2 (run contended empty).events)
    × (toasts_for 2 (toast_all (run contended empty).events []) ≡ 0)
resumed-unannounced_example =
    resumed-unannounced contended 2 second (codes "t9") [] (run contended empty).events second_there
      refl pending_rows
