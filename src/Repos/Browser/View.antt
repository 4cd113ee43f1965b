-- ===== src/Repos/Browser/View.antt =====
-- web/src/components/repos/SnapshotBrowser.tsx: what the browser shows of a directory.
use restic_ui.Base.{ℕ, Bool, Option, none, some, List, [], ◌∷◌, ◌++◌, if◌then◌else◌, map, take}
use restic_ui.Base.Text.{Text, codes, text_eq, is_empty, decimal}
use restic_ui.Types.{LsNode}
use restic_ui.Session.Requests.{Result, value, api_error, thrown}
use restic_ui.Repos.Browser.{Browser, crumbs, is_dir, dump_url, size_cell, when_cell}

-- The key of the query, and its URL; `encodeURIComponent` is the parameter.
pub record ListKey : Type 0 where
  pub repo_id : ℕ
  pub snapshot_id : Text
  pub path : Text

abbrev pub list_key : ℕ → Text → Browser → ListKey
list_key repo_id snapshot_id s = record {
  repo_id = repo_id;
  snapshot_id = snapshot_id;
  path = s.path;
}

unfoldable pub list_url : (Text → Text) → ListKey → Text
list_url encode k =
    codes "/api/repos/"
    ++ (decimal k.repo_id
        ++ (codes "/snapshots/" ++ (k.snapshot_id ++ (codes "/ls?path=" ++ encode k.path))))

pub record Row : Type 0 where
  pub name : Text
  pub opens : Bool
  pub size : Text
  pub time : Text
  pub download : Text
  pub restore_label : Text

unfoldable pub row_of : (encode when : Text → Text) → ℕ → Text → LsNode → Row
unfolding dump_url size_cell
row_of encode when repo_id snapshot_id node = record {
  name = node.name;
  opens = is_dir node;
  size = size_cell node;
  time = when_cell when node;
  download = dump_url encode repo_id snapshot_id node;
  restore_label = codes "Restore " ++ node.name;
}

-- The query's state below the breadcrumbs: it has no answer yet, it failed, or there are rows.
pub data Listing : Type 0 where
  reading empty_directory : Listing
  failed : Text → Listing
  rows : List Row → Listing

unfoldable pub listing :
    (encode when : Text → Text) → ℕ → Text → Option (Result (List LsNode)) → Listing
unfolding row_of
listing encode when repo_id snapshot_id none = reading
listing encode when repo_id snapshot_id (some (api_error status message)) = failed message
listing encode when repo_id snapshot_id (some thrown) = failed (codes "Failed to list snapshot")
listing encode when repo_id snapshot_id (some (value [])) = empty_directory
listing encode when repo_id snapshot_id (some (value (n ∷ nodes))) =
    rows (map (row_of encode when repo_id snapshot_id) (n ∷ nodes))

-- The panel for a restore.
pub record RestorePanel : Type 0 where
  pub subject : Text
  pub target : Text
  pub picker : Bool
  pub is_pending : Bool

abbrev pub subject_of : LsNode → Text
subject_of node = if is_empty node.path then codes "entire snapshot" else node.name

unfoldable pub restore_panel : Bool → Option LsNode → Browser → Option RestorePanel
restore_panel pending none s = none
restore_panel pending (some node) s = some (record {
  subject = subject_of node;
  target = s.target;
  picker = s.picking_target;
  is_pending = pending;
})

-- `c === "/" ? "root" : c`
abbrev pub crumb_label : Text → Text
crumb_label c = if text_eq c (codes "/") then codes "root" else c

pub record BrowserView : Type 0 where
  pub short_id : Text
  pub crumbs : List Text
  pub listing : Listing
  pub panel : Option RestorePanel
  pub notice : Option Text

unfoldable pub browser_view :
    (encode when : Text → Text)
    → ℕ
    → Text
    → Option (Result (List LsNode))
    → (restore_pending : Bool) → Browser
    → BrowserView
unfolding crumbs listing restore_panel
browser_view encode when repo_id snapshot_id answer pending s = record {
  short_id = take 8 snapshot_id;
  crumbs = map crumb_label (crumbs s.path);
  listing = listing encode when repo_id snapshot_id answer;
  panel = restore_panel pending s.restoring s;
  notice = if is_empty s.notice then none else some s.notice;
}
