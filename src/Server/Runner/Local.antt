-- ===== src/Server/Runner/Local.antt =====
-- internal/ops/runner.go and commands.go: what a phase says of an operation, and that each step
-- keeps it.
use restic_ui.Base.{
  ℕ, ◌≡◌, ◌≢◌, ◌↔◌, refl, All, Bool, true, false, Option, none, some, List, [], ◌∷◌, ◌++◌, arith,
  append-nil,
}
use restic_ui.Types.{OpStatus, Operation}
use restic_ui.Operations.Notify.{is_terminal}
use restic_ui.Server.Runner.Outcome.{Work, Exit, not_started, succeeded, failed, final_status}
use restic_ui.Server.Runner.{
  final_row, Phase, announcing, waiting, locked, registered, starting, working, ending, ended,
  unregistered, done, Task, Turn, Change, acquire, step,
}

-- Whether the row has a status that fits the phase.
abbrev pub fits : Phase → OpStatus → Bool
fits announcing OpStatus.queued = true
fits waiting OpStatus.queued = true
fits locked OpStatus.queued = true
fits registered OpStatus.queued = true
fits starting OpStatus.running = true
fits working OpStatus.running = true
fits ending s = is_terminal s
fits ended s = is_terminal s
fits unregistered s = is_terminal s
fits done s = is_terminal s
fits _ _ = false

-- Whether the goroutine has the mutex of its repository.
abbrev pub holds : Phase → Bool
holds announcing = false
holds waiting = false
holds done = false
holds _ = true

-- Whether the cancel function is registered.
abbrev pub has_cancel : Phase → Bool
has_cancel registered = true
has_cancel starting = true
has_cancel working = true
has_cancel ending = true
has_cancel ended = true
has_cancel _ = false

-- The statuses that have been published when the row has status `s`.
abbrev pub trail : Phase → OpStatus → List OpStatus
trail announcing s = []
trail waiting s = OpStatus.queued ∷ []
trail locked s = OpStatus.queued ∷ []
trail registered s = OpStatus.queued ∷ []
trail starting s = OpStatus.queued ∷ []
trail working s = OpStatus.queued ∷ OpStatus.running ∷ []
trail ending s = OpStatus.queued ∷ OpStatus.running ∷ []
trail _ s = OpStatus.queued ∷ OpStatus.running ∷ s ∷ []

pub final_status-is_terminal :
    (w : Work) (canceled : Bool) (e : Exit) → is_terminal (final_status w canceled e) ≡ true
unfolding final_status
final_status-is_terminal w canceled not_started = refl
final_status-is_terminal w true succeeded = refl
final_status-is_terminal w true (failed n) = refl
final_status-is_terminal w false succeeded = refl
final_status-is_terminal w false (failed n) = ground arith

-- What holds of the operation `k`, given who has the mutex of its repository, whether its cancel
-- function is registered, and the statuses that were published of it.
pub record IsLocal (k : ℕ) (t : Task) (held : Option ℕ) (c : Bool) (seen : List OpStatus)
    : Type 0 where
  pub own : t.row.id ≡ k
  pub named : t.row.type ≢ []
  pub fitting : fits t.phase t.row.status ≡ true
  pub cancelable : c ≡ has_cancel t.phase
  pub told : seen ≡ trail t.phase t.row.status
  pub holding : holds t.phase ≡ true → held ≡ some k
  pub held_back : held ≡ some k → holds t.phase ≡ true

abbrev pub told_by : List Operation → List OpStatus
told_by [] = []
told_by (o ∷ ops) = o.status ∷ told_by ops

module _ (turn : Turn) (k : ℕ) (t : Task) (c : Bool) (seen : List OpStatus) where
  abbrev After : Change → Type 0
  After ch = IsLocal k ch.task ch.holder ch.cancelable (seen ++ told_by ch.published)

  acquire-IsLocal :
      (held : Option ℕ)
      → t.phase ≡ waiting
      → IsLocal k t held c seen
      → After (record (acquire k t held) { cancelable = c })
  acquire-IsLocal none e h = ground (arith, append-nil seen)
  acquire-IsLocal (some j) e h = ground (arith, append-nil seen)

  pub step-IsLocal :
      (p : Phase) (held : Option ℕ)
      → t.phase ≡ p
      → IsLocal k t held c seen
      → After (step turn k p t held c)
  unfolding step final_row
  step-IsLocal announcing held e h = ground (arith, append-nil seen)
  step-IsLocal waiting held e h = acquire-IsLocal held e h
  step-IsLocal locked held e h = ground (arith, append-nil seen)
  step-IsLocal registered held e h = ground (arith, append-nil seen)
  step-IsLocal starting held e h = ground (arith, append-nil seen)
  step-IsLocal working held e h =
      ground (arith, append-nil seen, final_status-is_terminal t.work t.canceled turn.exit)
  step-IsLocal ending held e h = ground (arith, append-nil seen)
  step-IsLocal ended held e h = ground (arith, append-nil seen)
  step-IsLocal unregistered held e h = ground (arith, append-nil seen)
  step-IsLocal done held e h = ground (arith, append-nil seen)

module _ (turn : Turn) (k : ℕ) (t : Task) (c : Bool) where
  acquire-holder :
      (held : Option ℕ) (j : ℕ) → j ≢ k → ((acquire k t held).holder ≡ some j) ↔ (held ≡ some j)
  acquire-holder none j other = ground arith
  acquire-holder (some i) j other = ground arith

  -- A step of `k` does not change whether another operation has the mutex.
  pub step-holder :
      (p : Phase) (held : Option ℕ) (j : ℕ)
      → j ≢ k
      → (holds p ≡ true → held ≡ some k)
      → ((step turn k p t held c).holder ≡ some j) ↔ (held ≡ some j)
  unfolding step
  step-holder waiting held j other h = acquire-holder held j other
  step-holder announcing held j other h = ground arith
  step-holder locked held j other h = ground arith
  step-holder registered held j other h = ground arith
  step-holder starting held j other h = ground arith
  step-holder working held j other h = ground arith
  step-holder ending held j other h = ground arith
  step-holder ended held j other h = ground arith
  step-holder unregistered held j other h = ground arith
  step-holder done held j other h = ground arith

  acquire-repo :
      (held : Option ℕ)
      → ((acquire k t held).task.repo ≡ t.repo) × ((acquire k t held).published ≡ [])
  acquire-repo none = (refl, refl)
  acquire-repo (some i) = (refl, refl)

  -- It keeps the repository, and publishes nothing but its row.
  pub step-repo :
      (p : Phase) (held : Option ℕ)
      → ((step turn k p t held c).task.repo ≡ t.repo)
        × All (λ o. o ≡ t.row) (step turn k p t held c).published
  unfolding step
  step-repo waiting held = let e = acquire-repo held in (e.0, rw (e.1) tt)
  step-repo announcing held = (refl, (refl, tt))
  step-repo locked held = (refl, tt)
  step-repo registered held = (refl, tt)
  step-repo starting held = (refl, (refl, tt))
  step-repo working held = (refl, tt)
  step-repo ending held = (refl, (refl, tt))
  step-repo ended held = (refl, tt)
  step-repo unregistered held = (refl, tt)
  step-repo done held = (refl, tt)
