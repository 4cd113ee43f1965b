-- ===== src/Shell/Header.antt =====
-- web/src/components/AppShell.tsx: the header, with its links, buttons and the menu.
use restic_ui.Base.{Bool, true, false, Option, List, map}
use restic_ui.Base.Text.{Text, codes}
use restic_ui.Shell.{Link, nav, Shell, theme_label, unless_empty, menu}

abbrev pub link_class : Bool → Text
link_class true = codes "bg-secondary font-medium"
link_class false = codes "text-muted-foreground hover:bg-accent hover:text-accent-foreground"

pub record LinkView : Type 0 where
  pub to : Text
  pub label : Text
  pub style : Text

-- Which links are active is what the router says.
abbrev pub link_view : (Link → Bool) → Link → LinkView
link_view is_active l = record { to = l.to; label = l.label; style = link_class (is_active l) }

pub record Header : Type 0 where
  pub links : List LinkView
  pub user : Option Text
  pub theme_button : Text
  pub log_out_disabled : Bool
  pub is_expanded : Bool
  pub menu : Option (List Text × Option Text)

unfoldable pub header :
    (is_active : Link → Bool) → (username : Option Text) → (dark : Bool) → Shell → Header
unfolding menu
header is_active username dark s = record {
  links = map (link_view is_active) nav;
  user = unless_empty username;
  theme_button = theme_label dark;
  log_out_disabled = s.logging_out;
  is_expanded = s.menu_open;
  menu = menu username s;
}
