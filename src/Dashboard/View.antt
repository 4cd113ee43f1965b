-- ===== src/Dashboard/View.antt =====
-- web/src/pages/DashboardPage.tsx: the page as a whole.
use restic_ui.Base.{Bool, true, false, Option, none, some, List, [], ◌∷◌, map}
use restic_ui.Base.Text.{Text}
use restic_ui.Types.Dashboard.{Dashboard}
use restic_ui.Dashboard.{
  Tile, tiles, GrowthCard, growth_part, PlanRow, plan_row, OpRow, op_row, shows_welcome,
}

-- The tables stand there only if they have a row.
pub record Page : Type 0 where
  pub tiles : List Tile
  pub growth : Option (List GrowthCard)
  pub plans : Option (List PlanRow)
  pub recent : Option (List OpRow)
  pub welcome : Bool

abbrev pub unless_nil {ℓ} : {A : Type ℓ} → List A → Option (List A)
unless_nil [] = none
unless_nil (x ∷ xs) = some (x ∷ xs)

pub data DashboardView : Type 0 where
  loading : DashboardView
  page : Page → DashboardView

-- `when` is `formatWhen`; the durations are those of `data.planDurations`.
unfoldable pub dashboard_view :
    (when : Text → Text) → (is_loading : Bool) → Option Dashboard → DashboardView
unfolding tiles growth_part plan_row op_row
dashboard_view when true d = loading
dashboard_view when false none = loading
dashboard_view when false (some d) = page (record {
  tiles = tiles d;
  growth = growth_part d.repo_growth;
  plans = unless_nil (map (plan_row when d.plan_durations) d.plans);
  recent = unless_nil (map (op_row when) d.recent_ops);
  welcome = shows_welcome d;
})
