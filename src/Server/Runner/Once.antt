-- ===== src/Server/Runner/Once.antt =====
-- internal/ops/runner.go with `maybeToast` of web/src/hooks/useOperations.ts: an operation's events
-- and the toast that announces how it ended.
use restic_ui.Base.{
  ℕ, ◌≡◌, ◌≢◌, refl, sym, ap, subst, ◌∙◌, Bool, true, false, some, List, [], ◌∷◌, ◌++◌, All, arith,
  if◌then◌else◌,
}
use restic_ui.Types.{OpStatus, Operation}
use restic_ui.Operations.Notify.{is_terminal, is_canceled, toast_all}
use restic_ui.Operations.Notify.Once.{toasts_for, statuses, toast_all_once}
use restic_ui.Server.Runner.{Phase, ended, unregistered, done, Task, Move, run, empty}
use restic_ui.Server.Runner.Local.{fits, trail}
use restic_ui.Server.Runner.Invariant.{statuses-append}
use restic_ui.Server.Runner.Invariant.Advance.{run-IsSound}

-- Whether the operation's end has been published.
abbrev pub is_over : Phase → Bool
is_over ended = true
is_over unregistered = true
is_over done = true
is_over _ = false

pub over-trail :
    (p : Phase) (s : OpStatus)
    → is_over p ≡ true
    → fits p s ≡ true
    → (trail p s ≡ OpStatus.queued ∷ OpStatus.running ∷ s ∷ []) × (is_terminal s ≡ true)
over-trail p s h f = ground arith

-- What is left of an operation's statuses behind some that are not terminal.
record Rest (s : OpStatus) (ys : List OpStatus) : Type 0 where
  pending : List OpStatus
  splits : ys ≡ pending ++ s ∷ []
  are_pending : All (λ x. is_terminal x ≡ false) pending

statuses-Rest :
    (s : OpStatus) (xs ys : List OpStatus)
    → is_terminal s ≡ true
    → All (λ x. is_terminal x ≡ false) xs
    → xs ++ ys ≡ OpStatus.queued ∷ OpStatus.running ∷ s ∷ []
    → Rest s ys
statuses-Rest s [] ys final h e = record {
  pending = OpStatus.queued ∷ OpStatus.running ∷ [];
  splits = e;
  are_pending = (refl, (refl, tt));
}
statuses-Rest s (x ∷ []) ys final h e = record {
  pending = OpStatus.running ∷ [];
  splits = cc e;
  are_pending = (refl, tt);
}
statuses-Rest s (x ∷ y ∷ []) ys final h e = record { pending = []; splits = cc e; are_pending = tt }
statuses-Rest s (x ∷ y ∷ z ∷ xs) ys final h e = absurd (ground (arith, h.1.1.0))

pub All-suffix {ℓ κ} : {A : Type ℓ} (P : A → Type κ) (xs ys : List A) → All P (xs ++ ys) → All P ys
All-suffix P [] ys h = h
All-suffix P (x ∷ xs) ys h = All-suffix P xs ys h.1

-- Whatever is enqueued, canceled and run, in whatever order: a browser that has received all events
-- since some moment announces an operation whose end has been published by exactly one toast, or by
-- none if it was canceled; provided that its end was published after that moment.
pub run-toasts_once :
    (moves : List Move) (k : ℕ) (t : Task) (missed received : List Operation)
    → (run moves empty).tasks k ≡ some t
    → is_over t.phase ≡ true
    → (run moves empty).events ≡ missed ++ received
    → All (λ s. is_terminal s ≡ false) (statuses k missed)
    → toasts_for k (toast_all received []) ≡ (if is_canceled t.row.status then 0 else 1)
run-toasts_once moves k t missed received there over split h =
    let sound = run-IsSound moves in
    let own = sound.each k t there in
    let (full, final) = over-trail t.phase t.row.status over own.fitting in
    let rest = statuses-Rest t.row.status (statuses k missed) (statuses k received) final h (
      sym (statuses-append k missed received)
      ∙ (ap (statuses k) (sym split) ∙ (own.told ∙ full))) in
    toast_all_once k received rest.pending [] t.row.status
      (All-suffix _ missed received (subst (All (λ o. o.type ≢ [])) split sound.named)) rest.splits
      rest.are_pending final tt
