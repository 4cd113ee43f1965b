-- ===== src/Server/Runner/Cancel.antt =====
-- internal/ops/runner.go: Cancel, and the button "Cancel" of web/src/pages/OperationsPage.tsx.
use restic_ui.Base.{
  ℕ, ◌≡◌, ◌∙◌, refl, Bool, true, false, Option, some, List, arith, if◌then◌else◌, subst, sym,
}
use restic_ui.Base.Text.{Text}
use restic_ui.Types.{OpStatus, OpProgress, LogLine}
use restic_ui.Operations.Console.{console, is_active}
use restic_ui.Server.Runner.Outcome.{Exit, not_started, succeeded, failed, final_status, Work}
use restic_ui.Server.Runner.{
  Phase, waiting, working, final_row, Task, Turn, Runner, cancel, advanced, move, advance_task,
  step, Move, run, empty,
}
use restic_ui.Server.Runner.Local.{fits, has_cancel}
use restic_ui.Server.Runner.Invariant.Advance.{run-IsSound}

-- Whether restic was started.
abbrev pub was_started : Exit → Bool
was_started not_started = false
was_started _ = true

-- What the console shows of the operation's row, and what the server does if it is asked to cancel
-- the operation.
pub record IsCancelable (moves : List Move) (k : ℕ) (t : Task) : Type 0 where
  -- One that waits for its repository has the button, and the request is refused.
  pub waits :
      (time : Text → Text) (logs : Option (List LogLine)) (progress : Option OpProgress)
      → t.phase ≡ waiting
      → ((console time false logs progress t.row).cancel ≡ some true)
        × (cancel k (run moves empty) ≡ (run moves empty, false))
  pub runs : t.row.status ≡ OpStatus.running → (cancel k (run moves empty)).1 ≡ true
  pub ends :
      (turn : Turn)
      → t.phase ≡ working
      → (u : Task) × ((move (advanced turn k) (cancel k (run moves empty)).0).tasks k ≡ some u)
        × (u.row.status ≡ (if was_started turn.exit then OpStatus.canceled else OpStatus.error))

canceled_status :
    (w : Work) (exit : Exit)
    → final_status w true exit ≡ (if was_started exit then OpStatus.canceled else OpStatus.error)
unfolding final_status
canceled_status w not_started = refl
canceled_status w succeeded = refl
canceled_status w (failed code) = refl

waiting-queued : (p : Phase) (s : OpStatus) → fits p s ≡ true → p ≡ waiting → s ≡ OpStatus.queued
waiting-queued p s h e = ground arith

running-has_cancel :
    (p : Phase) (s : OpStatus) → fits p s ≡ true → s ≡ OpStatus.running → has_cancel p ≡ true
running-has_cancel p s h e = ground arith

module _ (r : Runner) (k : ℕ) (t : Task) where
  cancel-refused : r.cancels k ≡ false → cancel k r ≡ (r, false)
  unfolding cancel
  cancel-refused e = rw e refl

  cancel-done :
      r.tasks k ≡ some t
      → r.cancels k ≡ true
      → ((cancel k r).1 ≡ true) × ((cancel k r).0.tasks k ≡ some (record t { canceled = true }))
  unfolding cancel
  cancel-done there e = rw e (refl, rw there (ground arith))

step-ends :
    (turn : Turn) (k : ℕ) (t : Task) (held : Option ℕ) (c : Bool)
    → t.canceled ≡ true
    → (step turn k working t held c).task.row.status
      ≡ (if was_started turn.exit then OpStatus.canceled else OpStatus.error)
unfolding step final_row
step-ends turn k t held c e = rw e (canceled_status t.work turn.exit)

advance-ends :
    (turn : Turn) (k : ℕ) (t : Task) (r : Runner)
    → t.phase ≡ working
    → t.canceled ≡ true
    → r.tasks k ≡ some t
    → (u : Task) × ((move (advanced turn k) r).tasks k ≡ some u)
      × (u.row.status ≡ (if was_started turn.exit then OpStatus.canceled else OpStatus.error))
unfolding move advance_task
advance-ends turn k t r at asked there = (
  (step turn k t.phase t (r.held t.repo) (r.cancels k)).task,
  rw there (ground arith),
  subst
      (λ p.
        (step turn k p t (r.held t.repo) (r.cancels k)).task.row.status
        ≡ (if was_started turn.exit then OpStatus.canceled else OpStatus.error))
      (sym at) (step-ends turn k t (r.held t.repo) (r.cancels k) asked),
)

queued-active : (s : OpStatus) → s ≡ OpStatus.queued → is_active s ≡ true
queued-active s e = ground arith

-- Whatever was enqueued, canceled and run: of an operation that waits for its repository the console
-- offers to cancel it, but the server refuses that and changes nothing; one whose row says that it
-- runs can be canceled, and if it is canceled while restic is at work its row will say so when
-- restic ends, unless restic could not be started.
pub cancel_lem :
    (moves : List Move) (k : ℕ) (t : Task)
    → (run moves empty).tasks k ≡ some t
    → IsCancelable moves k t
cancel_lem moves k t there =
    let r = run moves empty in
    let own = (run-IsSound moves).each k t there in
    record {
      waits = λ time logs progress w. (
        unfold console in
            rw (queued-active t.row.status (waiting-queued t.phase t.row.status own.fitting w))
              refl,
        cancel-refused r k t (own.cancelable ∙ rw w refl),
      );
      runs = λ e.
          (cancel-done r k t there
            (own.cancelable ∙ running-has_cancel t.phase t.row.status own.fitting e)).0;
      ends = λ turn w.
          advance-ends turn k (record t { canceled = true }) (cancel k r).0 w refl
            (cancel-done r k t there (own.cancelable ∙ rw w refl)).1;
    }
