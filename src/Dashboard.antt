-- ===== src/Dashboard.antt =====
-- web/src/pages/DashboardPage.tsx: the tiles, the growth of the repositories and the tables; and the
-- part of internal/api/settings_handlers.go that makes the growth.
pub mod Sparkline
pub mod Growth
pub mod View
mod Tests
use restic_ui.Base.{
  ℕ, suc, ◌+◌, ◌-◌, ◌/◌, Bool, true, false, not, ◌&&◌, Option, none, some, List, [], ◌∷◌, ◌++◌,
  ◌==◌, if◌then◌else◌, any, ltb, leb, length, map, get_last?, or_else,
}
use restic_ui.Base.Text.{Text, codes, decimal, is_empty}
use restic_ui.Base.Dict.{Dict, lookup}
use restic_ui.Types.{OpStatus, Operation}
use restic_ui.Types.Bytes.{whole, format_bytes}
use restic_ui.Types.Dashboard.{DashboardPlan, GrowthPoint, RepoGrowth, DurationPoint, Dashboard}
use restic_ui.Dashboard.Sparkline.{Drawing, sparkline}

pub record Tile : Type 0 where
  pub label : Text
  pub value : ℕ
  pub is_alert : Bool

unfoldable pub tiles : Dashboard → List Tile
tiles d =
    record { label = codes "Repositories"; value = d.repo_count; is_alert = false }
    ∷ record { label = codes "Backup plans"; value = d.plan_count; is_alert = false }
    ∷ record { label = codes "Running now"; value = d.running_ops; is_alert = false }
    ∷ record { label = codes "Issues (24h)"; value = d.issues24h; is_alert = ltb 0 d.issues24h }
    ∷ []

-- The card of a repository's growth.
pub record GrowthCard : Type 0 where
  pub repo_name : Text
  pub size : Text
  pub delta : Option Text
  pub drawing : Option Drawing
  pub label : Text

-- `delta !== 0`, with its sign.
unfoldable pub delta_text : (first latest : ℕ) → Option Text
delta_text first latest =
    if first == latest
    then none
    else if ltb first latest
    then some (codes "+" ++ format_bytes (whole (latest - first)))
    else some (codes "−" ++ format_bytes (whole (first - latest)))

-- The card for the points, by the first and the last one; `none` is the exception that reading the
-- size of `undefined` throws where there is no point.
abbrev pub card_from : RepoGrowth → Option GrowthPoint → Option GrowthPoint → Option GrowthCard
card_from g (some first) (some latest) = some (record {
  repo_name = g.repo_name;
  size = format_bytes (whole latest.size);
  delta = delta_text first.size latest.size;
  drawing = sparkline (map (λ p. p.size) g.points);
  label =
      g.repo_name ++ (codes " size over " ++ (decimal (length g.points) ++ codes " measurements"));
})
card_from g _ _ = none

abbrev pub first_point : List GrowthPoint → Option GrowthPoint
first_point [] = none
first_point (p ∷ ps) = some p

unfoldable pub growth_card : RepoGrowth → Option GrowthCard
growth_card g = card_from g (first_point g.points) (get_last? g.points)

-- All cards, as `map` makes them: an exception in one ends the rendering.
abbrev pub cons_card : Option GrowthCard → Option (List GrowthCard) → Option (List GrowthCard)
cons_card (some card) (some cards) = some (card ∷ cards)
cons_card _ _ = none

unfoldable pub growth_cards : List RepoGrowth → Option (List GrowthCard)
unfolding growth_card
growth_cards [] = some []
growth_cards (g ∷ gs) = cons_card (growth_card g) (growth_cards gs)

-- The part "Repository growth", which is left out unless some repository has two points.
unfoldable pub growth_part : List RepoGrowth → Option (List GrowthCard)
unfolding growth_cards
growth_part gs = if any (λ g. leb 2 (length g.points)) gs then growth_cards gs else some []

-- A repository with the answer of `StatsHistory`; `none` is an error.
pub record History : Type 0 where
  pub id : ℕ
  pub name : Text
  pub points : Option (List GrowthPoint)

abbrev pub add_growth : ℕ → Text → List GrowthPoint → List RepoGrowth → List RepoGrowth
add_growth id name [] rest = rest
add_growth id name (p ∷ ps) rest = record { repo_id = id; repo_name = name; points = p ∷ ps } ∷ rest

abbrev pub sent_growth : ℕ → Text → Option (List GrowthPoint) → List RepoGrowth → List RepoGrowth
sent_growth id name none rest = rest
sent_growth id name (some points) rest = add_growth id name points rest

-- `resp.RepoGrowth`
unfoldable pub repo_growth : List History → List RepoGrowth
repo_growth [] = []
repo_growth (h ∷ hs) = sent_growth h.id h.name h.points (repo_growth hs)

abbrev pub when_or : (Text → Text) → Text → Option Text → Text
when_or when other none = other
when_or when other (some t) = if is_empty t then other else when t

-- A row of the plans; `when` is `formatWhen`. A status that is missing is shown as "—".
pub record PlanRow : Type 0 where
  pub name : Text
  pub is_disabled : Bool
  pub is_overdue : Bool
  pub repo_name : Text
  pub last_run : Text
  pub status : Option OpStatus
  pub next_run : Text
  pub trend : Option Drawing
  pub trend_title : Text

-- `Math.round(seconds)`
abbrev pub round_seconds : ℕ → ℕ
round_seconds ms = (ms + 500) / 1000

abbrev pub last_took : Option DurationPoint → Text
last_took none = []
last_took (some d) = codes "last backup took " ++ (decimal (round_seconds d.seconds) ++ codes "s")

unfoldable pub plan_row : (Text → Text) → Dict (List DurationPoint) → DashboardPlan → PlanRow
plan_row when durations p =
    let series = or_else (lookup p.id durations) [] in
    let enough = leb 2 (length series) in
    record {
      name = p.name;
      is_disabled = not p.enabled;
      is_overdue = p.overdue && p.enabled;
      repo_name = p.repo_name;
      last_run = when_or when (codes "never") p.last_run;
      status = p.last_status;
      next_run = when_or when (codes "manual") p.next_run;
      trend = if enough then sparkline (map (λ d. d.seconds) series) else none;
      trend_title = if enough then last_took (get_last? series) else [];
    }

-- A row of the recent activity.
pub record OpRow : Type 0 where
  pub type : Text
  pub subject : Text
  pub status : OpStatus
  pub started : Text

-- `a || b`, of optional texts.
abbrev pub or_optional : Option Text → Text → Text
or_optional none other = other
or_optional (some a) other = if is_empty a then other else a

unfoldable pub op_row : (Text → Text) → Operation → OpRow
op_row when op = record {
  type = op.type;
  subject = or_optional op.plan_name (or_optional op.repo_name (codes "—"));
  status = op.status;
  started = when_or when (codes "—") op.started_at;
}

-- "Welcome to restic-ui"
abbrev pub shows_welcome : Dashboard → Bool
shows_welcome d = d.plan_count == 0
