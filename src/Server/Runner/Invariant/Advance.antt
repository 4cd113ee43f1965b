-- ===== src/Server/Runner/Invariant/Advance.antt =====
-- internal/ops/runner.go and commands.go: every step keeps what holds of the Runner.
use restic_ui.Base.{
  ℕ, ◌≡◌, ◌≢◌, ◌↔◌, ◌⊎◌, refl, sym, ap, ◌∙◌, Option, none, some, List, [], ◌∷◌, ◌++◌, ◌==◌, arith,
  All, All-append, All-imp, Bool-cases, inl, inr, append-nil,
}
use restic_ui.Types.{Operation}
use restic_ui.Operations.Notify.Once.{statuses}
use restic_ui.Server.Runner.{
  Turn, Task, Change, Runner, empty, update, put, step, advance_task, Move, enqueued, advanced,
  cancel_asked, move, run,
}
use restic_ui.Server.Runner.Local.{IsLocal, told_by, step-IsLocal, step-holder, step-repo}
use restic_ui.Server.Runner.Invariant.{
  IsSound, statuses-append, statuses-told_by, statuses-eq_nil, IsLocal-moved, update-cases,
  enqueue-IsSound, cancel-IsSound, empty-IsSound, renewed-IsSound,
}

module _ (r : Runner) (sound : IsSound r) where
  module _ (turn : Turn) (k : ℕ) (t : Task) (there : r.tasks k ≡ some t) where
    changed : Change
    changed = step turn k t.phase t (r.held t.repo) (r.cancels k)

    there-IsLocal : IsLocal k t (r.held t.repo) (r.cancels k) (statuses k r.events)
    there-IsLocal = sound.each k t there

    same_repo : (changed.task.repo ≡ t.repo) × All (λ o. o ≡ t.row) changed.published
    unfolding changed
    same_repo = step-repo turn k t (r.cancels k) t.phase (r.held t.repo)

    -- Whether another operation has the mutex stays as it was.
    others_hold :
        (j : ℕ)
        → j ≢ k
        → (repo : ℕ) → (update r.held t.repo changed.holder repo ≡ some j) ↔ (r.held repo ≡ some j)
    unfolding changed
    others_hold j other repo = elim (Bool-cases (t.repo == repo)) [
      | inl same ↦
          let e : t.repo ≡ repo = ground arith in
          rw (same, sym e)
            (step-holder turn k t (r.cancels k) t.phase (r.held t.repo) j other
              there-IsLocal.holding)
      | inr differs ↦ rw differs (λ e. e, λ e. e)
    ]

    changed-IsLocal :
        IsLocal k changed.task changed.holder changed.cancelable
          (statuses k r.events ++ told_by changed.published)
    unfolding changed
    changed-IsLocal =
        step-IsLocal turn k t (r.cancels k) _ t.phase (r.held t.repo) refl there-IsLocal

    told_after :
        statuses k (r.events ++ changed.published)
        ≡ statuses k r.events ++ told_by changed.published
    told_after =
        statuses-append k r.events changed.published
        ∙ ap (λ l. statuses k r.events ++ l)
            (statuses-told_by k t.row changed.published there-IsLocal.own same_repo.1)

    silent_after :
        (j : ℕ) → j ≢ k → statuses j (r.events ++ changed.published) ≡ statuses j r.events
    silent_after j other =
        statuses-append j r.events changed.published
        ∙ (ap (λ l. statuses j r.events ++ l)
              (statuses-eq_nil j t.row changed.published (λ e. other (sym e ∙ there-IsLocal.own))
                same_repo.1)
            ∙ append-nil (statuses j r.events))

    holder_after : update r.held t.repo changed.holder changed.task.repo ≡ changed.holder
    holder_after = ground (arith, same_repo.0)

    owned_after :
        (repo j : ℕ)
        → update r.held t.repo changed.holder repo ≡ some j
        → ((j ≢ k) × (r.held repo ≡ some j)) ⊎ ((j ≡ k) × (changed.task.repo ≡ repo))
    owned_after repo j e = elim (Bool-cases (j == k)) [
      | inl same ↦
          let j_k : j ≡ k = ground arith in
          elim (update-cases r.held t.repo changed.holder repo (some j) e) [
            | inl (at, _) ↦ inr (j_k, same_repo.0 ∙ at)
            | inr (_, old) ↦
                let (u, has, at) = sound.owned repo j old in
                let u_t : u ≡ t = cc (has, there, j_k) in
                inr (j_k, same_repo.0 ∙ (ap (λ (x : Task). x.repo) (sym u_t) ∙ at))
          ]
      | inr other ↦
          let differs : j ≢ k = ground arith in inl (differs, (others_hold j differs repo).0 e)
    ]

    advanced-IsSound : IsSound (put k t.repo changed r)
    advanced-IsSound =
        renewed-IsSound r sound k t changed.task there (update r.held t.repo changed.holder)
          (update r.cancels k changed.cancelable) (r.events ++ changed.published)
          (IsLocal-moved k changed.task _ _ _ _ _ _
            (λ e. sym holder_after ∙ e, λ e. holder_after ∙ e) (ground arith) told_after
            changed-IsLocal)
          (λ j u other has.
            IsLocal-moved j u _ _ _ _ _ _ (others_hold j other u.repo) (ground arith)
              (silent_after j other) (sound.each j u has))
          (λ j other. (ground arith, silent_after j other)) owned_after
          (All-append _ r.events changed.published sound.named (
            All-imp _ _ (λ (o : Operation) (e : o ≡ t.row). rw e there-IsLocal.named) _
              same_repo.1))

module _ (r : Runner) (sound : IsSound r) where
  advance_task-IsSound :
      (turn : Turn) (k : ℕ) (o : Option Task) → r.tasks k ≡ o → IsSound (advance_task turn k o r)
  unfolding advance_task
  advance_task-IsSound turn k none e = sound
  advance_task-IsSound turn k (some t) e = unfold changed in advanced-IsSound r sound turn k t e

  move-IsSound : (m : Move) → IsSound (move m r)
  unfolding move
  move-IsSound (enqueued w target time) = enqueue-IsSound r sound w target time
  move-IsSound (advanced turn k) = advance_task-IsSound turn k (r.tasks k) refl
  move-IsSound (cancel_asked k) = cancel-IsSound r sound k

pub run-IsSound_from : (moves : List Move) (r : Runner) → IsSound r → IsSound (run moves r)
unfolding run
run-IsSound_from [] r h = h
run-IsSound_from (m ∷ moves) r h = run-IsSound_from moves (move m r) (move-IsSound r h m)

pub run-IsSound : (moves : List Move) → IsSound (run moves empty)
run-IsSound moves = run-IsSound_from moves empty empty-IsSound
