-- ===== src/Server/Runner.antt =====
-- internal/ops/runner.go and commands.go: the Runner, which runs operations in goroutines, one at a
-- time per repository. A goroutine goes from one of its phases to the next by a step; between two
-- steps any other goroutine or request may run. Of the events that it publishes the model has those
-- about operations; every write to the database succeeds.
pub mod Outcome
pub mod Local
pub mod Invariant
pub mod Exclusive
pub mod Progress
pub mod Cancel
pub mod Once
pub mod Resume
use restic_ui.Base.{
  ℕ, suc, Bool, true, false, Option, none, some, List, [], ◌∷◌, ◌++◌, ◌==◌, if◌then◌else◌,
}
use restic_ui.Base.Text.{Text, codes}
use restic_ui.Types.{OpStatus, OpSummary, Operation, ℤ, pos, negsuc}
use restic_ui.Server.Runner.Outcome.{Work, type_of, Exit, not_started, final_status, final_code}

-- Where an operation stands: its row is written and not yet published; its goroutine waits for the
-- mutex of the repository; it has the mutex; its cancel function is registered; its row says that
-- it runs, not yet published; restic is at work; its row says how it ended, not yet published; that
-- is published; its cancel function is deleted; the mutex is unlocked.
pub data Phase : Type 0 where
  announcing waiting locked registered starting working ending ended unregistered done : Phase

pub record Task : Type 0 where
  pub row : Operation
  pub work : Work
  pub repo : ℕ
  pub phase : Phase
  pub canceled : Bool

-- What the surroundings give a step: the time, how the process went, and the last summary that it
-- printed, which only a backup reads.
pub record Turn : Type 0 where
  pub time : Text
  pub exit : Exit
  pub summary : Option OpSummary

-- What a step of one operation leaves: the operation, who has the mutex of its repository, whether
-- its cancel function is registered, and the events that it has published.
pub record Change : Type 0 where
  pub task : Task
  pub holder : Option ℕ
  pub cancelable : Bool
  pub published : List Operation

-- `setStatus` at the start and at the end, in the database.
abbrev pub started_row : Turn → Operation → Operation
started_row turn row = record row { status = OpStatus.running; started_at = some turn.time }

abbrev pub stored_summary : Work → Exit → Option OpSummary → Option OpSummary → Option OpSummary
stored_summary w not_started new old = old
stored_summary Work.backup _ (some s) old = some s
stored_summary _ _ _ old = old

unfoldable pub final_row : Work → Bool → Turn → Operation → Operation
unfolding final_status final_code
final_row w canceled turn row = record row {
  status = final_status w canceled turn.exit;
  ended_at = some turn.time;
  exit_code = final_code w canceled turn.exit;
  summary = stored_summary w turn.exit turn.summary row.summary;
}

-- `lock.Lock()` returns when no other goroutine has the mutex.
abbrev pub acquire : ℕ → Task → Option ℕ → Change
acquire k t none = record {
  task = record t { phase = locked };
  holder = some k;
  cancelable = false;
  published = [];
}
acquire k t (some j) = record { task = t; holder = some j; cancelable = false; published = [] }

-- One step of the operation `k`.
unfoldable pub step : Turn → ℕ → Phase → Task → Option ℕ → Bool → Change
unfolding final_row
step turn k announcing t held c = record {
  task = record t { phase = waiting };
  holder = held;
  cancelable = c;
  published = t.row ∷ [];
}
step turn k waiting t held c = record (acquire k t held) { cancelable = c }
step turn k locked t held c = record {
  task = record t { phase = registered };
  holder = held;
  cancelable = true;
  published = [];
}
step turn k registered t held c = record {
  task = record t { phase = starting; row = started_row turn t.row };
  holder = held;
  cancelable = c;
  published = [];
}
step turn k starting t held c = record {
  task = record t { phase = working };
  holder = held;
  cancelable = c;
  published = t.row ∷ [];
}
step turn k working t held c = record {
  task = record t { phase = ending; row = final_row t.work t.canceled turn t.row };
  holder = held;
  cancelable = c;
  published = [];
}
step turn k ending t held c = record {
  task = record t { phase = ended };
  holder = held;
  cancelable = c;
  published = t.row ∷ [];
}
step turn k ended t held c = record {
  task = record t { phase = unregistered };
  holder = held;
  cancelable = false;
  published = [];
}
step turn k unregistered t held c = record {
  task = record t { phase = done };
  holder = none;
  cancelable = c;
  published = [];
}
step turn k done t held c = record { task = t; holder = held; cancelable = c; published = [] }

-- The operations by their ids, who has the mutex of a repository, the registered cancel functions,
-- and the events about operations, the oldest first.
pub record Runner : Type 0 where
  pub next : ℕ
  pub tasks : ℕ → Option Task
  pub held : ℕ → Option ℕ
  pub cancels : ℕ → Bool
  pub events : List Operation

abbrev pub empty : Runner
empty = record {
  next = 1;
  tasks = λ k. none;
  held = λ repo. none;
  cancels = λ k. false;
  events = [];
}

abbrev pub update {ℓ} : {A : Type ℓ} → (ℕ → A) → ℕ → A → ℕ → A
update f k v j = if k == j then v else f j

-- What the database gives for the plan or the repository of a request.
pub record Target : Type 0 where
  pub repo : ℕ
  pub repo_name : Option Text
  pub plan_id : Option ℕ
  pub plan_name : Option Text

abbrev pub queued_task : ℕ → Work → Target → Text → Task
queued_task id w target time = record {
  row = record {
    id = id;
    type = type_of w;
    repo_id = some target.repo;
    repo_name = target.repo_name;
    plan_id = target.plan_id;
    plan_name = target.plan_name;
    status = OpStatus.queued;
    started_at = none;
    ended_at = none;
    exit_code = none;
    summary = none;
    created_at = time;
  };
  work = w;
  repo = target.repo;
  phase = announcing;
  canceled = false;
}

-- `EnqueueBackup` and `enqueue`: the row with the next id. Without the plan or the repository they
-- end with an error.
unfoldable pub enqueue : Work → Option Target → Text → Runner → Runner
enqueue w none time r = r
enqueue w (some target) time r = record r {
  next = suc r.next;
  tasks = update r.tasks r.next (some (queued_task r.next w target time));
}

abbrev pub put : ℕ → ℕ → Change → Runner → Runner
put k repo change r = record r {
  tasks = update r.tasks k (some change.task);
  held = update r.held repo change.holder;
  cancels = update r.cancels k change.cancelable;
  events = r.events ++ change.published;
}

-- A step of an operation that there is.
unfoldable pub advance_task : Turn → ℕ → Option Task → Runner → Runner
unfolding step
advance_task turn k none r = r
advance_task turn k (some t) r =
    put k t.repo (step turn k t.phase t (r.held t.repo) (r.cancels k)) r

abbrev pub canceled_task : Option Task → Option Task
canceled_task none = none
canceled_task (some t) = some (record t { canceled = true })

-- `Cancel`: the runner after it, and whether the operation was running.
unfoldable pub cancel : ℕ → Runner → Runner × Bool
cancel k r =
    if r.cancels k
    then (record r { tasks = update r.tasks k (canceled_task (r.tasks k)) }, true)
    else (r, false)

pub data Move : Type 0 where
  enqueued : Work → Option Target → Text → Move
  advanced : Turn → ℕ → Move
  cancel_asked : ℕ → Move

unfoldable pub move : Move → Runner → Runner
unfolding enqueue advance_task cancel
move (enqueued w target time) r = enqueue w target time r
move (advanced turn k) r = advance_task turn k (r.tasks k) r
move (cancel_asked k) r = (cancel k r).0

unfoldable pub run : List Move → Runner → Runner
unfolding move
run [] r = r
run (m ∷ moves) r = run moves (move m r)
