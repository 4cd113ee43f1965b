-- ===== src/Plans/Card.antt =====
-- web/src/pages/PlansPage.tsx: a plan's card, and the operation that it follows.
pub mod First
pub mod Follow
pub mod View
use restic_ui.Base.{
  ℕ, Bool, true, false, not, ◌&&◌, ◌||◌, Option, none, some, List, [], ◌∷◌, ◌==◌, if◌then◌else◌,
  find?, is_some,
}
use mathlib.Core.Option
use restic_ui.Base.Text.{Text, codes, is_empty}
use restic_ui.Cron.{humanize_cron}
use restic_ui.Types.{Plan, Operation, OpStatus}

-- The variables of `useState`.
pub record Card : Type 0 where
  pub confirm_delete : Bool
  pub started : Bool
  pub running_op : Option ℕ

abbrev pub initial : Card
initial = record { confirm_delete = false; started = false; running_op = none }

-- `o.status === "running" || o.status === "queued"`
abbrev pub is_live : OpStatus → Bool
is_live OpStatus.running = true
is_live OpStatus.queued = true
is_live _ = false

abbrev pub same_plan : ℕ → Option ℕ → Bool
same_plan id none = false
same_plan id (some p) = p == id

abbrev pub is_live_of : Plan → Operation → Bool
is_live_of plan o = same_plan plan.id o.plan_id && is_live o.status

-- The operations are `none` until the query has data.
unfoldable pub live_op : Option (List Operation) → Plan → Option Operation
live_op none plan = none
live_op (some ops) plan = find? (is_live_of plan) ops

abbrev pub tracked : Option Operation → Option ℕ → Option ℕ
tracked (some o) running = some o.id
tracked none running = running

unfoldable pub tracked_op : Option (List Operation) → Plan → Card → Option ℕ
unfolding live_op
tracked_op ops plan s = tracked (live_op ops plan) s.running_op

abbrev pub by_id : ℕ → Operation → Bool
by_id id o = o.id == id

unfoldable pub find_op : Option (List Operation) → ℕ → Option Operation
find_op none id = none
find_op (some ops) id = find? (by_id id) ops

abbrev pub is_over : Option Operation → Bool
is_over none = false
is_over (some o) = not (is_live o.status)

-- The running operation that is left by the effect.
abbrev pub still_running : Option (List Operation) → Option ℕ → Option ℕ
still_running ops none = none
still_running ops (some id) = if is_over (find_op ops id) then none else some id

-- The effect that forgets an operation which has ended.
unfoldable pub clear_running : Option (List Operation) → Card → Card
clear_running ops s = record s { running_op = still_running ops s.running_op }

-- "Run now": `started` is reset, and the answer names the operation. A request that fails throws
-- out of the handler.
unfoldable pub run_now : Option Operation → Card → Card
run_now none s = record s { started = false }
run_now (some op) s = record s { started = true; running_op = some op.id }

-- `!trackedOpId`, where 0 is falsy too.
abbrev pub is_truthy : Option ℕ → Bool
is_truthy none = false
is_truthy (some id) = not (id == 0)

-- What the card shows below the plan, and its line for the schedule.
unfoldable pub shows_started : Option (List Operation) → Plan → Card → Bool
unfolding tracked_op
shows_started ops plan s = s.started && not (is_truthy (tracked_op ops plan s))

unfoldable pub shows_progress : Option (List Operation) → Plan → Card → Bool
unfolding tracked_op
shows_progress ops plan s = is_truthy (tracked_op ops plan s)

unfoldable pub schedule_line : Plan → Text
schedule_line plan =
    if is_empty plan.schedule_cron then codes "manual only" else humanize_cron plan.schedule_cron

-- The first press of the bin asks; "Delete" then sends the plan's id, "Keep" takes it back.
pub data Press : Type 0 where
  bin delete keep : Press

unfoldable pub press : Plan → Press → Card → Card × Option ℕ
press plan bin s = (record s { confirm_delete = true }, none)
press plan delete s = (s, some plan.id)
press plan keep s = (record s { confirm_delete = false }, none)
