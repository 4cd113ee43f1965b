-- ===== src/Repos/Card/Snapshots.antt =====
-- web/src/components/repos/RepoCard.tsx: the list of snapshots and the search for a file.
use restic_ui.Base.{
  ℕ, ◌-◌, Option, none, some, List, [], ◌∷◌, ◌++◌, if◌then◌else◌, ltb, leb, length, map, take,
}
use restic_ui.Base.Text.{Text, codes, decimal}
use restic_ui.Types.Bytes.{whole, format_bytes}
use restic_ui.Types.{Repo}
use restic_ui.Types.Repositories.{Snapshot, RepoStats, RepoStatsPoint, FindResult}
use restic_ui.Plans.Form.Previews.{plural}

unfoldable pub stats_text : RepoStats → Text
stats_text s =
    decimal s.snapshots_count
    ++ (codes " snapshot"
        ++ (plural s.snapshots_count
            ++ (codes " · "
                ++ (decimal s.total_file_count
                    ++ (codes " files · " ++ format_bytes (whole s.total_size))))))

-- The points of the size's trend and its label, where there are two measurements at least.
abbrev pub trend_points : List RepoStatsPoint → Option (List ℕ)
trend_points history =
    if leb 2 (length history) then some (map (λ p. p.total_size) history) else none

abbrev pub trend_label : Repo → List RepoStatsPoint → Text
trend_label repo history =
    repo.name ++ (codes " size over " ++ (decimal (length history) ++ codes " measurements"))

-- `parts.join(sep)`
abbrev pub join : Text → List Text → Text
join sep [] = []
join sep (p ∷ []) = p
join sep (p ∷ q ∷ ps) = p ++ (sep ++ join sep (q ∷ ps))

-- The cells of a row; `when` is `formatWhen`.
pub record Row : Type 0 where
  pub short_id : Text
  pub time : Text
  pub hostname : Text
  pub paths : Text

abbrev pub row_of : (Text → Text) → Snapshot → Row
row_of when s = record {
  short_id = s.short_id;
  time = when s.time;
  hostname = s.hostname;
  paths = join (codes ", ") s.paths;
}

-- What stands below the statistics while the list is not there, or is empty.
pub data Listing : Type 0 where
  loading : Listing
  list_error : Text → Listing
  no_snapshots : Listing
  rows : List Row → Listing

-- How the query of the snapshots stands: an `ApiError` has a message, another error has none.
pub data Query : Type 0 where
  pending : Query
  failed : Option Text → Query
  loaded : List Snapshot → Query

unfoldable pub listing : (Text → Text) → Query → Listing
listing when pending = loading
listing when (failed none) = list_error (codes "Failed to load snapshots")
listing when (failed (some message)) = list_error message
listing when (loaded []) = no_snapshots
listing when (loaded (s ∷ ss)) = rows (map (row_of when) (s ∷ ss))

-- A search result: the snapshot's short id, its hits, the first twenty paths, and how many more.
pub record Found : Type 0 where
  pub snapshot : Text
  pub hits : Text
  pub paths : List Text
  pub more : Option ℕ

unfoldable pub found_of : FindResult → Found
found_of g = record {
  snapshot = take 8 g.snapshot;
  hits = decimal g.hits ++ (codes " hit" ++ plural g.hits);
  paths = map (λ m. m.path) (take 20 g.matches);
  more = if ltb 20 (length g.matches) then some (length g.matches - 20) else none;
}
