-- ===== src/Server/Runner/Progress.antt =====
-- internal/ops/runner.go and commands.go: the goroutines do not wait for each other in a circle.
use restic_ui.Base.{
  ℕ, suc, ◌≤◌, ◌≡◌, sym, ◌≢◌, inl, inr, refl, Bool, true, Option, none, some, List, arith,
  Option-cases,
}
use restic_ui.Server.Runner.{
  Phase, announcing, waiting, locked, registered, starting, working, ending, ended, unregistered,
  done, Task, Turn, Runner, advance_task, step, Move, run, empty,
}
use restic_ui.Server.Runner.Local.{holds}
use restic_ui.Server.Runner.Invariant.Advance.{run-IsSound}

-- The steps that an operation in a phase has left.
abbrev pub left : Phase → ℕ
left announcing = 9
left waiting = 8
left locked = 7
left registered = 6
left starting = 5
left working = 4
left ending = 3
left ended = 2
left unregistered = 1
left done = 0

left_le : (p : Phase) → left p ≤ 9
left_le p = ground arith

-- A step of an operation that does not wait for a mutex brings it one phase on.
step-left :
    (turn : Turn) (k : ℕ) (p : Phase) (t : Task) (held : Option ℕ) (c : Bool)
    → p ≢ done
    → (p ≡ waiting → held ≡ none)
    → suc (left (step turn k p t held c).task.phase) ≡ left p
unfolding step
step-left turn k announcing t held c h free = refl
step-left turn k waiting t none c h free = refl
step-left turn k waiting t (some j) c h free = absurd (cc (free refl))
step-left turn k locked t held c h free = refl
step-left turn k registered t held c h free = refl
step-left turn k starting t held c h free = refl
step-left turn k working t held c h free = refl
step-left turn k ending t held c h free = refl
step-left turn k ended t held c h free = refl
step-left turn k unregistered t held c h free = refl
step-left turn k done t held c h free = absurd (h refl)

-- The operation `j` is there, and its next step brings it on, one step nearer to its end.
pub record CanGoOn (turn : Turn) (repo j : ℕ) (r : Runner) : Type 0 where
  pub before : Task
  pub after : Task
  pub there : r.tasks j ≡ some before
  pub at : before.repo ≡ repo
  pub moved : (advance_task turn j (r.tasks j) r).tasks j ≡ some after
  pub nearer : suc (left after.phase) ≡ left before.phase
  pub few : left before.phase ≤ 9

free-CanGoOn :
    (turn : Turn) (j : ℕ) (t : Task) (r : Runner)
    → r.tasks j ≡ some t
    → t.phase ≢ done
    → (t.phase ≡ waiting → r.held t.repo ≡ none)
    → CanGoOn turn t.repo j r
unfolding advance_task
free-CanGoOn turn j t r e h free = record {
  before = t;
  after = (step turn j t.phase t (r.held t.repo) (r.cancels j)).task;
  there = e;
  at = refl;
  moved = rw e (ground arith);
  nearer = step-left turn j t.phase t (r.held t.repo) (r.cancels j) h free;
  few = left_le t.phase;
}

holds-busy : (p : Phase) → holds p ≡ true → (p ≢ done) × (p ≢ waiting)
holds-busy p h = ground arith

-- Whatever is enqueued, canceled and run: as long as an operation is not done, some operation of the
-- same repository can take its next step, which brings it one nearer to its end, of at most nine.
pub run-CanGoOn :
    (moves : List Move) (turn : Turn) (k : ℕ) (t : Task)
    → (run moves empty).tasks k ≡ some t
    → t.phase ≢ done
    → (j : ℕ) × CanGoOn turn t.repo j (run moves empty)
run-CanGoOn moves turn k t e h =
    let r = run moves empty in
    let sound = run-IsSound moves in
    elim (Option-cases (r.held t.repo)) [
      | inl free ↦ (k, free-CanGoOn turn k t r e h (λ w. free))
      | inr (j, held) ↦
          let (u, has, at) = sound.owned t.repo j held in
          let busy = holds-busy u.phase ((sound.each j u has).held_back (rw at held)) in
          (j, rw (sym at) (free-CanGoOn turn j u r has busy.0 (λ w. absurd (busy.1 w))))
    ]
