-- ===== src/Repos/Card/Requests.antt =====
-- web/src/components/repos/RepoCard.tsx with web/src/hooks/useRepos.ts: what the card's requests send.
use restic_ui.Base.{ℕ, none, some, List, [], ◌++◌, Option}
use restic_ui.Base.Text.{Text, codes}
use restic_ui.Session.Requests.{Method, Sent, send}
use restic_ui.Api.{
  Mutation, RepoAction, Body, repo_action, forget_snapshot, prune_repo, check_repo, delete_repo,
  set_check_schedule, method_of, path_of, body_of, repo_path,
}
use restic_ui.Repos.Card.{
  Task, Job, init, test, unlock, task, check, prune, delete, forget, save, find, diff, copy,
}

abbrev pub action_of : Task → RepoAction
action_of init = RepoAction.init
action_of test = RepoAction.test
action_of unlock = RepoAction.unlock

-- The body of a copy; no ids stand for all snapshots.
pub record CopyBody : Type 0 where
  pub dest_repo_id : ℕ
  pub snapshot_ids : List Text

pub data CardBody : Type 0 where
  of_hook : Body → CardBody
  of_copy : CopyBody → CardBody

-- A request: a mutation of a hook, or one that the card makes itself.
pub record Call : Type 0 where
  pub method : Method
  pub path : Text
  pub body : Option CardBody

abbrev pub hook_body : Option Body → Option CardBody
hook_body none = none
hook_body (some b) = some (of_hook b)

abbrev pub of_mutation : Mutation → Call
of_mutation m = record { method = method_of m; path = path_of m; body = hook_body (body_of m) }

abbrev pub get_call : Text → Call
get_call path = record { method = Method.get; path = path; body = none }

-- `encode` is `encodeURIComponent`; the ids of a comparison are sent as they are.
unfoldable pub call_of : (encode : Text → Text) → (repo_id : ℕ) → Job → Call
call_of encode id (task t) = of_mutation (repo_action id (action_of t))
call_of encode id check = of_mutation (check_repo id)
call_of encode id prune = of_mutation (prune_repo id)
call_of encode id delete = of_mutation (delete_repo id)
call_of encode id (forget snapshot) = of_mutation (forget_snapshot id snapshot)
call_of encode id (save cron) = of_mutation (set_check_schedule id cron)
call_of encode id (find pattern) =
    get_call (repo_path id ++ (codes "/find?pattern=" ++ encode pattern))
call_of encode id (diff from to) =
    get_call (repo_path id ++ (codes "/diff?from=" ++ (from ++ (codes "&to=" ++ to))))
call_of encode id (copy dest) = record {
  method = Method.post;
  path = repo_path id ++ codes "/copy";
  body = some (of_copy (record { dest_repo_id = dest; snapshot_ids = [] }));
}

-- The request as `api` gives it to `fetch`.
unfoldable pub sent_call : (token : Text) → Call → Sent CardBody
unfolding send
sent_call token c = send token c.method c.path c.body
