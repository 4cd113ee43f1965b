-- ===== src/Shell.antt =====
-- web/src/components/AppShell.tsx, the routes of web/src/App.tsx, web/src/pages/RepositoriesPage.tsx
-- and web/src/components/Toasts.tsx: the frame of the pages, and the list of the repositories.
pub mod Header
mod Tests
use restic_ui.Base.{
  ℕ, Bool, true, false, not, ◌&&◌, Option, none, some, List, [], ◌∷◌, ◌++◌, ◌==◌, if◌then◌else◌,
  map, length,
}
use restic_ui.Base.Text.{Text, codes, text_eq, is_empty}
use restic_ui.Types.{Repo}
use restic_ui.Toasts.{Toast, ToastStore, dismiss_toast}

pub record Link : Type 0 where
  pub to : Text
  pub label : Text

abbrev pub link : Text → Text → Link
link to label = record { to = to; label = label }

-- `NAV`
abbrev pub nav : List Link
nav =
    link (codes "/") (codes "Dashboard")
    ∷ link (codes "/repos") (codes "Repositories")
    ∷ link (codes "/plans") (codes "Plans")
    ∷ link (codes "/operations") (codes "Operations")
    ∷ link (codes "/settings") (codes "Settings")
    ∷ []

pub data Route : Type 0 where
  dashboard repositories plans operations settings not_found : Route

-- The page of a path, by its segments; a path is matched as a whole, and "*" matches the others.
unfoldable pub route_of : List Text → Route
route_of [] = dashboard
route_of (page ∷ []) =
    if text_eq page (codes "repos")
    then repositories
    else if text_eq page (codes "plans")
    then plans
    else if text_eq page (codes "operations")
    then operations
    else if text_eq page (codes "settings")
    then settings
    else not_found
route_of _ = not_found

-- The state of the shell: the menu, and whether the logout is under way.
pub record Shell : Type 0 where
  pub menu_open : Bool
  pub logging_out : Bool

abbrev pub initial : Shell
initial = record { menu_open = false; logging_out = false }

pub data Event : Type 0 where
  press_menu follow_menu_link press_log_out log_out_answered : Event

-- Whether a logout is sent is the second component.
unfoldable pub handle : Event → Shell → Shell × Bool
handle press_menu s = (record s { menu_open = not s.menu_open }, false)
handle follow_menu_link s = (record s { menu_open = false }, false)
handle press_log_out s =
    if s.logging_out then (s, false) else (record s { logging_out = true }, true)
handle log_out_answered s = (record s { logging_out = false }, false)

abbrev pub theme_label : Bool → Text
theme_label dark = if dark then codes "Switch to light mode" else codes "Switch to dark mode"

-- A text that is shown if there is one and it is not empty.
abbrev pub unless_empty : Option Text → Option Text
unless_empty none = none
unless_empty (some t) = if is_empty t then none else some t

-- The line below the links of the menu.
abbrev pub signed_in_text : Option Text → Option Text
signed_in_text none = none
signed_in_text (some name) = some (codes "Signed in as " ++ name)

unfoldable pub menu : Option Text → Shell → Option (List Text × Option Text)
menu username s =
    if s.menu_open
    then some (map (λ l. l.label) nav, signed_in_text (unless_empty username))
    else none

-- The part of RepositoriesPage below its heading: whether the form and the hint for an empty list are
-- shown, and the repositories that have a card.
pub record RepositoriesView : Type 0 where
  pub add_button : Bool
  pub form : Bool
  pub spinner : Bool
  pub hint : Bool
  pub cards : List Repo

abbrev pub is_loaded_empty : Option (List Repo) → Bool
is_loaded_empty (some []) = true
is_loaded_empty _ = false

unfoldable pub repositories_view :
    (adding is_loading : Bool) → Option (List Repo) → RepositoriesView
repositories_view adding is_loading repos = record {
  add_button = not adding;
  form = adding;
  spinner = is_loading;
  hint = is_loaded_empty repos && not adding;
  cards = elim repos [ none ↦ [] | some rs ↦ rs ];
}

-- A card of a toast. Its message is shown unless it is missing or empty.
pub record ToastCard : Type 0 where
  pub title : Text
  pub message : Option Text

unfoldable pub toast_card : Toast → ToastCard
toast_card t = record { title = t.title; message = unless_empty t.message }

-- Nothing at all is shown without a toast.
unfoldable pub toast_cards : ToastStore → Option (List ToastCard)
unfolding toast_card
toast_cards s = elim s.toasts [ [] ↦ none | t ∷ ts ↦ some (map toast_card (t ∷ ts)) ]

-- The link "View operations" and the button "Dismiss" both dismiss the toast.
pub data Press : Type 0 where
  view_operations dismiss : Press

unfoldable pub press_toast : Toast → Press → ToastStore → ToastStore
unfolding dismiss_toast
press_toast t view_operations s = dismiss_toast t.id s
press_toast t dismiss s = dismiss_toast t.id s
