-- ===== src/Plans/Page/View.antt =====
-- web/src/pages/PlansPage.tsx: what the page shows.
use restic_ui.Base.{Bool, true, false, not, ◌&&◌, Option, none, some, List, [], is_some}
use restic_ui.Types.{Plan}
use restic_ui.Plans.Page.{Page, shows_add}

pub record PageView : Type 0 where
  pub add_button : Bool
  pub add_form : Bool
  pub edit_form : Bool
  pub spinner : Bool
  pub hint : Bool
  pub cards : List Plan

abbrev pub has_no_plan : Option (List Plan) → Bool
has_no_plan (some []) = true
has_no_plan _ = false

abbrev pub or_nil : Option (List Plan) → List Plan
or_nil none = []
or_nil (some ps) = ps

-- The hint "No backup plans yet" also shows beside a form that edits.
unfoldable pub page_view : (is_loading : Bool) → Option (List Plan) → Page → PageView
page_view is_loading plans s = record {
  add_button = shows_add s;
  add_form = is_some s.adding;
  edit_form = is_some s.editing;
  spinner = is_loading;
  hint = has_no_plan plans && not (is_some s.adding);
  cards = or_nil plans;
}
