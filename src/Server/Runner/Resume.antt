-- ===== src/Server/Runner/Resume.antt =====
-- internal/ops/runner.go: ResumeInterrupted, which a new process runs at its start on the rows that
-- the previous one left behind. Its goroutines, mutexes and cancel functions are gone.
use restic_ui.Base.{
  ◌++◌, ◌≢◌, [], ap, ◌∙◌, ℕ, ◌≡◌, Bool, true, false, some, List, All, arith, if◌then◌else◌, subst,
  sym,
}
use restic_ui.Base.Text.{Text}
use restic_ui.Types.{OpStatus, Operation}
use restic_ui.Operations.Notify.{is_terminal, toast_all}
use restic_ui.Operations.Notify.Once.{statuses, toasts_for, toast_all_pending}
use restic_ui.Server.Runner.{Phase, Task, Move, run, empty}
use restic_ui.Server.Runner.Local.{trail}
use restic_ui.Server.Runner.Invariant.Advance.{run-IsSound}
use restic_ui.Server.Runner.Once.{is_over, All-suffix}
use restic_ui.Server.Runner.Invariant.{statuses-append}

-- `WHERE status IN ('running','queued')`
abbrev pub is_left_behind : OpStatus → Bool
is_left_behind OpStatus.queued = true
is_left_behind OpStatus.running = true
is_left_behind _ = false

unfoldable pub resumed : Text → Operation → Operation
resumed time row =
    if is_left_behind row.status
    then record row { status = OpStatus.error; ended_at = some time }
    else row

left_or_terminal : (s : OpStatus) → is_left_behind s ≡ false → is_terminal s ≡ true
left_or_terminal s h = ground arith

resumed-is_terminal : (time : Text) (row : Operation) → is_terminal (resumed time row).status ≡ true
unfolding resumed
resumed-is_terminal time row = ground (arith, left_or_terminal row.status)

trail-pending :
    (p : Phase) (s : OpStatus) → is_over p ≡ false → All (λ x. is_terminal x ≡ false) (trail p s)
trail-pending p s h = ground arith

-- When the process stops before the end of an operation was published, the database has it as ended
-- after the new start. But no event has ever said that it ended, and a browser that received all events since
-- some moment until the stop has announced it by no toast.
pub resumed-unannounced :
    (moves : List Move) (k : ℕ) (t : Task) (time : Text) (missed received : List Operation)
    → (run moves empty).tasks k ≡ some t
    → is_over t.phase ≡ false
    → (run moves empty).events ≡ missed ++ received
    → (is_terminal (resumed time t.row).status ≡ true)
      × All (λ s. is_terminal s ≡ false) (statuses k (run moves empty).events)
      × (toasts_for k (toast_all received []) ≡ 0)
resumed-unannounced moves k t time missed received there h split =
    let sound = run-IsSound moves in
    let pending : All (λ s. is_terminal s ≡ false) (statuses k (run moves empty).events) =
      subst (All (λ s. is_terminal s ≡ false)) (sym (sound.each k t there).told)
        (trail-pending t.phase t.row.status h) in
    let parts : statuses k (run moves empty).events ≡ statuses k missed ++ statuses k received =
      ap (statuses k) split ∙ statuses-append k missed received in
    (
      resumed-is_terminal time t.row,
      pending,
      toast_all_pending k received
          (All-suffix _ missed received (subst (All (λ o. o.type ≢ [])) split sound.named))
          (All-suffix _ (statuses k missed) (statuses k received)
            (subst (All (λ s. is_terminal s ≡ false)) parts pending)),
    )
