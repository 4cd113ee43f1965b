-- ===== src/Api/Tests.antt =====
-- The requests of the hooks on small inputs.
use restic_ui.Base.{some, none, ◌≡◌, refl}
use restic_ui.Base.Text.{codes, decimal}
use restic_ui.Api.{
  forget_snapshot, delete_repo, set_plan_enabled, path_of, request, query_path, snapshots, fs,
  on_success, repos, true,
}

forget_path : path_of (forget_snapshot 12 (codes "ab")) ≡ codes "/api/repos/12/snapshots/ab/forget"
unfolding path_of decimal
forget_path = refl

delete_sends_token : (request (codes "t") (delete_repo 3)).csrf_header ≡ some (codes "t")
unfolding request
delete_sends_token = refl

enabled_sends_json :
    (request (codes "t") (set_plan_enabled 3 true)).content_type ≡ some (codes "application/json")
unfolding request
enabled_sends_json = refl

hidden_snapshots : query_path (λ v. v) (snapshots none) ≡ none
unfolding query_path
hidden_snapshots = refl

root_folder : query_path (λ v. v) (fs (codes "/")) ≡ some (codes "/api/fs/browse?path=/")
unfolding query_path
root_folder = refl

delete_refreshes : on_success (delete_repo 3) ≡ some repos
unfolding on_success
delete_refreshes = refl
