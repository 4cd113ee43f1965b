-- ===== src/DarkMode.antt =====
-- web/src/hooks/useDarkMode.ts: the theme, its storage and the system's preference.
mod Tests
use restic_ui.Base.{
  Bool, true, false, not, Option, none, some, List, [], ◌∷◌, ◌≡◌, refl, ap, ◌∙◌, if◌then◌else◌,
}
use restic_ui.Base.Text.{Text, codes, text_eq, is_empty}

-- The state of the hook, `localStorage["theme"]`, and whether the listener is registered.
pub record Theme : Type 0 where
  pub dark : Bool
  pub stored : Option Text
  pub listening : Bool

-- `initialDark`
unfoldable pub initial_dark : Option Text → Bool → Bool
initial_dark none prefers_dark = prefers_dark
initial_dark (some v) prefers_dark =
    if text_eq v (codes "dark")
    then true
    else if text_eq v (codes "light")
    then false
    else prefers_dark

-- `if (localStorage.getItem(STORAGE_KEY)) return;`
abbrev pub listens : Option Text → Bool
listens none = true
listens (some v) = is_empty v

unfoldable pub mount_theme : Option Text → Bool → Theme
unfolding initial_dark
mount_theme stored prefers_dark = record {
  dark = initial_dark stored prefers_dark;
  stored = stored;
  listening = listens stored;
}

pub data Event : Type 0 where
  toggle : Event
  system_changed : Bool → Event

abbrev pub theme_name : Bool → Text
theme_name dark = if dark then codes "dark" else codes "light"

unfoldable pub handle : Event → Theme → Theme
handle toggle s = record s { dark = not s.dark; stored = some (theme_name (not s.dark)) }
handle (system_changed matches) s = if s.listening then record s { dark = matches } else s

unfoldable pub run : List Event → Theme → Theme
unfolding handle
run [] s = s
run (e ∷ events) s = run events (handle e s)

changed_lem :
    (matches : Bool) (s : Theme) (l : Bool)
    → s.listening ≡ l
    → ((handle (system_changed matches) s).listening ≡ l)
      × ((handle (system_changed matches) s).dark ≡ (if l then matches else s.dark))
unfolding handle
changed_lem matches s true e = rw e (refl, refl)
changed_lem matches s false e = rw e (refl, refl)

run-listening :
    (events : List Event) (s : Theme) (l : Bool) → s.listening ≡ l → (run events s).listening ≡ l
unfolding run
run-listening [] s l e = e
run-listening (toggle ∷ events) s l e =
    run-listening events (handle toggle s) l (unfold handle in e)
run-listening (system_changed b ∷ events) s l e =
    run-listening events (handle (system_changed b) s) l (changed_lem b s l e).0

-- Whether a change of the system's preference changes the theme depends only on what was stored when
-- the application was loaded, and not on the toggles and changes since: if nothing was stored it
-- always does, also after a toggle has stored the user's own choice; if something was stored it
-- never does.
pub handle-system_changed :
    (stored : Option Text) (prefers_dark matches : Bool) (events : List Event)
    → (handle (system_changed matches) (run events (mount_theme stored prefers_dark))).dark
      ≡ (if listens stored then matches else (run events (mount_theme stored prefers_dark)).dark)
handle-system_changed stored prefers_dark matches events =
    (changed_lem matches (run events (mount_theme stored prefers_dark)) (listens stored) (
      run-listening events (mount_theme stored prefers_dark) (listens stored)
        (unfold mount_theme in refl))).1
