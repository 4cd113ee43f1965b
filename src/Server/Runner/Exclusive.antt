-- ===== src/Server/Runner/Exclusive.antt =====
-- internal/ops/runner.go and commands.go: the mutexes of the repositories (repoLock).
use restic_ui.Base.{ℕ, ◌≡◌, true, some, List, arith}
use restic_ui.Types.{OpStatus}
use restic_ui.Server.Runner.{Phase, Task, Move, run, empty}
use restic_ui.Server.Runner.Local.{fits, holds}
use restic_ui.Server.Runner.Invariant.Advance.{run-IsSound}

running-holds : (p : Phase) (s : OpStatus) → fits p s ≡ true → s ≡ OpStatus.running → holds p ≡ true
running-holds p s h e = ground arith

-- Whatever is enqueued, canceled and run, in whatever order the goroutines take their steps: of the
-- operations of one repository at most one has the status `running` in the database.
pub run-one_running :
    (moves : List Move) (i j : ℕ) (t u : Task)
    → (run moves empty).tasks i ≡ some t
    → (run moves empty).tasks j ≡ some u
    → t.repo ≡ u.repo
    → t.row.status ≡ OpStatus.running
    → u.row.status ≡ OpStatus.running
    → i ≡ j
run-one_running moves i j t u at_i at_j same run_i run_j =
    let sound = run-IsSound moves in
    let local_i = sound.each i t at_i in
    let local_j = sound.each j u at_j in
    let held_i = local_i.holding (running-holds t.phase t.row.status local_i.fitting run_i) in
    let held_j = local_j.holding (running-holds u.phase u.row.status local_j.fitting run_j) in
    cc (held_i, held_j, same)
