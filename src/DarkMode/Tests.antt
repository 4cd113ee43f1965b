-- ===== src/DarkMode/Tests.antt =====
-- The theme on small inputs.
use restic_ui.Base.{◌≡◌, refl, true, false, none, some, [], ◌∷◌, if◌then◌else◌}
use restic_ui.Base.Text.{codes}
use restic_ui.DarkMode.{
  mount_theme, run, toggle, system_changed, handle, listens, handle-system_changed,
}

light_stored : (mount_theme (some (codes "light")) true).dark ≡ false
unfolding mount_theme
light_stored = refl

toggled : (run (toggle ∷ []) (mount_theme none true)).stored ≡ some (codes "light")
unfolding mount_theme run handle
toggled = refl

handle-system_changed_case :
    (handle (system_changed true) (run (toggle ∷ []) (mount_theme none true))).dark
    ≡ (if listens none then true else (run (toggle ∷ []) (mount_theme none true)).dark)
handle-system_changed_case = handle-system_changed none true true (toggle ∷ [])
