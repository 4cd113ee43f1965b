-- ===== src/Api.antt =====
-- web/src/hooks/useRepos.ts and web/src/hooks/usePlans.ts: the requests of the hooks, with the keys
-- of the cache that they fill and those that they invalidate.
mod Tests
use restic_ui.Base.{ℕ, Bool, true, false, Option, none, some, List, [], ◌∷◌, ◌++◌, ◌==◌}
use restic_ui.Base.Text.{Text, codes, decimal}
use restic_ui.Types.{RepoInput, PlanInput}
use restic_ui.Session.Requests.{Method, Sent, send}

-- The actions of `useRepoAction`.
pub data RepoAction : Type 0 where
  init test check unlock : RepoAction

abbrev pub action_name : RepoAction → Text
action_name init = codes "init"
action_name test = codes "test"
action_name check = codes "check"
action_name unlock = codes "unlock"

-- The mutations.
pub data Mutation : Type 0 where
  create_repo : RepoInput → Mutation
  delete_repo : (id : ℕ) → Mutation
  repo_action : (id : ℕ) → RepoAction → Mutation
  forget_snapshot : (repo_id : ℕ) → (snapshot_id : Text) → Mutation
  prune_repo check_repo : (repo_id : ℕ) → Mutation
  set_check_schedule : (repo_id : ℕ) → (cron : Text) → Mutation
  create_plan : PlanInput → Mutation
  update_plan : (id : ℕ) → PlanInput → Mutation
  delete_plan : (id : ℕ) → Mutation
  set_plan_enabled : (id : ℕ) → (enabled : Bool) → Mutation
  run_plan : (id : ℕ) → Mutation

-- The body that is sent as JSON.
pub data Body : Type 0 where
  repo_body : RepoInput → Body
  plan_body : PlanInput → Body
  schedule_body : (check_schedule_cron : Text) → Body
  enabled_body : Bool → Body

abbrev pub repo_path : ℕ → Text
repo_path id = codes "/api/repos/" ++ decimal id

abbrev pub plan_path : ℕ → Text
plan_path id = codes "/api/plans/" ++ decimal id

unfoldable pub method_of : Mutation → Method
method_of (delete_repo id) = Method.delete
method_of (delete_plan id) = Method.delete
method_of (update_plan id input) = Method.put
method_of _ = Method.post

unfoldable pub path_of : Mutation → Text
path_of (create_repo input) = codes "/api/repos"
path_of (delete_repo id) = repo_path id
path_of (repo_action id action) = repo_path id ++ (b'/' ∷ action_name action)
path_of (forget_snapshot id snapshot) =
    repo_path id ++ (codes "/snapshots/" ++ (snapshot ++ codes "/forget"))
path_of (prune_repo id) = repo_path id ++ codes "/prune"
path_of (check_repo id) = repo_path id ++ codes "/check"
path_of (set_check_schedule id cron) = repo_path id ++ codes "/check-schedule"
path_of (create_plan input) = codes "/api/plans"
path_of (update_plan id input) = plan_path id
path_of (delete_plan id) = plan_path id
path_of (set_plan_enabled id enabled) = plan_path id ++ codes "/enabled"
path_of (run_plan id) = plan_path id ++ codes "/run"

unfoldable pub body_of : Mutation → Option Body
body_of (create_repo input) = some (repo_body input)
body_of (set_check_schedule id cron) = some (schedule_body cron)
body_of (create_plan input) = some (plan_body input)
body_of (update_plan id input) = some (plan_body input)
body_of (set_plan_enabled id enabled) = some (enabled_body enabled)
body_of _ = none

unfoldable pub request : (token : Text) → Mutation → Sent Body
unfolding send method_of path_of body_of
request token m = send token (method_of m) (path_of m) (body_of m)

-- The key of a query in the cache.
pub data Key : Type 0 where
  repos plans operations : Key
  snapshots repo_stats repo_stats_history : (repo_id : Option ℕ) → Key
  fs : (path : Text) → Key

-- What `onSuccess` invalidates.
unfoldable pub on_success : Mutation → Option Key
on_success (create_repo input) = some repos
on_success (delete_repo id) = some repos
on_success (set_check_schedule id cron) = some repos
on_success (create_plan input) = some plans
on_success (update_plan id input) = some plans
on_success (delete_plan id) = some plans
on_success (set_plan_enabled id enabled) = some plans
on_success (run_plan id) = some operations
on_success _ = none

-- A query: its path, and whether it is enabled; without a repository it is not.
abbrev pub of_repo : Option ℕ → Text → Option Text
of_repo none rest = none
of_repo (some id) rest = some (repo_path id ++ rest)

-- The path that the query of a key gets, if it is enabled; `encode` is `encodeURIComponent`. The
-- operations are those of useOperations in web/src/hooks/useOperations.ts, by its default limit.
unfoldable pub query_path : (encode : Text → Text) → Key → Option Text
query_path encode repos = some (codes "/api/repos")
query_path encode plans = some (codes "/api/plans")
query_path encode operations = some (codes "/api/operations?limit=" ++ decimal 100)
query_path encode (snapshots repo) = of_repo repo (codes "/snapshots")
query_path encode (repo_stats repo) = of_repo repo (codes "/stats")
query_path encode (repo_stats_history repo) = of_repo repo (codes "/stats/history")
query_path encode (fs path) = some (codes "/api/fs/browse?path=" ++ encode path)
