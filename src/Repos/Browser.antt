-- ===== src/Repos/Browser.antt =====
-- web/src/components/repos/SnapshotBrowser.tsx: the browser of a snapshot's files.
pub mod Crumbs
pub mod View
use restic_ui.Base.{
  ℕ, suc, ◌+◌, Bool, true, false, not, Option, none, some, List, [], ◌∷◌, ◌++◌, ◌==◌, if◌then◌else◌,
  filter, take, drop, is_some,
}
use mathlib.Core.Option
use restic_ui.Base.Text.{Text, codes, text_eq, is_empty, decimal}
use restic_ui.Types.{LsNode}
use restic_ui.Types.Bytes.{JsNumber, whole, format_bytes}
use restic_ui.Session.Requests.{Result, value, api_error, thrown}

-- The variables of `useState`.
pub record Browser : Type 0 where
  pub path : Text
  pub restoring : Option LsNode
  pub target : Text
  pub picking_target : Bool
  pub notice : Text

abbrev pub initial : Browser
initial = record {
  path = codes "/";
  restoring = none;
  target = codes "/restore";
  picking_target = false;
  notice = [];
}

abbrev pub whole_snapshot : Text → LsNode
whole_snapshot snapshot_id = record {
  name = take 8 snapshot_id;
  type = codes "dir";
  path = [];
  size = 0;
  mtime = [];
}

-- `s.split("/")`, with the field read so far.
unfoldable pub split_slash : Text → Text → List Text
split_slash cur [] = cur ∷ []
split_slash cur (c ∷ s) =
    let close = cur ∷ split_slash [] s in
    let longer = split_slash (cur ++ c ∷ []) s in if c == b'/' then close else longer

-- `parts.join("/")`
abbrev pub join_slash : List Text → Text
join_slash [] = []
join_slash (p ∷ []) = p
join_slash (p ∷ q ∷ ps) = p ++ (b'/' ∷ join_slash (q ∷ ps))

unfoldable pub crumbs : Text → List Text
unfolding split_slash
crumbs path = codes "/" ∷ filter (λ p. not (is_empty p)) (split_slash [] path)

unfoldable pub crumb_path : Text → ℕ → Text
unfolding crumbs
crumb_path path i = b'/' ∷ join_slash (drop 1 (take (suc i) (crumbs path)))

-- `i === 0 ? "/" : crumbPath(i)`
unfoldable pub path_at : Text → ℕ → Text
unfolding crumb_path
path_at path i = if i == 0 then codes "/" else crumb_path path i

abbrev pub is_dir : LsNode → Bool
is_dir node = text_eq node.type (codes "dir")

-- `encodeURIComponent` is the parameter.
unfoldable pub dump_url : (Text → Text) → ℕ → Text → LsNode → Text
dump_url encode repo_id snapshot_id node =
    codes "/api/repos/"
    ++ (decimal repo_id
        ++ (codes "/snapshots/"
            ++ (snapshot_id
                ++ (codes "/dump?path="
                    ++ (encode node.path ++ (if is_dir node then codes "&dir=1" else []))))))

-- `restoring?.path === path ? null : node`
abbrev pub toggle_restoring : LsNode → Option LsNode → Option LsNode
toggle_restoring node none = some node
toggle_restoring node (some r) = if text_eq r.path node.path then none else some node

pub data Action : Type 0 where
  open_dir : LsNode → Action
  go_to : (i : ℕ) → Action
  choose_node : LsNode → Action
  choose_whole : Action
  type_target pick_target : Text → Action
  toggle_picking close_picking : Action

unfoldable pub act : Text → Action → Browser → Browser
unfolding path_at
act snapshot_id (open_dir node) s = if is_dir node then record s { path = node.path } else s
act snapshot_id (go_to i) s = record s { path = path_at s.path i }
act snapshot_id (choose_node node) s = record s { restoring = toggle_restoring node s.restoring }
act snapshot_id choose_whole s = record s {
  restoring = toggle_restoring (whole_snapshot snapshot_id) s.restoring;
}
act snapshot_id (type_target v) s = record s { target = v }
act snapshot_id (pick_target v) s = record s { target = v; picking_target = false }
act snapshot_id toggle_picking s = record s { picking_target = not s.picking_target }
act snapshot_id close_picking s = record s { picking_target = false }

pub record RestoreBody : Type 0 where
  pub snapshot_id : Text
  pub include_path : Text
  pub target : Text

-- `doRestore`: the body of the request, and the browser after the answer.
abbrev pub restore_body : Text → LsNode → Browser → RestoreBody
restore_body snapshot_id node s = record {
  snapshot_id = snapshot_id;
  include_path = node.path;
  target = s.target;
}

unfoldable pub finish_restore : {A : Type 0} → LsNode → Result A → Browser → Browser
finish_restore node (value a) s = record s {
  notice =
      codes "Restore of " ++ (node.name ++ codes " started — follow it on the Operations page.");
  restoring = none;
}
finish_restore node (api_error status message) s = record s { notice = message }
finish_restore node thrown s = record s { notice = codes "Restore failed" }

-- The texts of a row; `when` is `formatWhen`.
unfoldable pub size_cell : LsNode → Text
size_cell node = if text_eq node.type (codes "file") then format_bytes (whole node.size) else []

abbrev pub when_cell : (Text → Text) → LsNode → Text
when_cell when node = if is_empty node.mtime then [] else when node.mtime
