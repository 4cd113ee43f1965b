-- ===== src/Dashboard/Tests.antt =====
-- The dashboard on small inputs.
use restic_ui.Base.{ℕ, ◌≤◌, ◌≡◌, ◌≢◌, refl, none, some, List, [], ◌∷◌, All, length, arith}
use restic_ui.Base.Text.{codes, decimal}
use restic_ui.Types.Bytes.{format_bytes}
use restic_ui.Types.Dashboard.{GrowthPoint}
use restic_ui.Dashboard.{History, growth_cards, growth_part, repo_growth, delta_text}
use restic_ui.Dashboard.Growth.{Draws, growth_part-drawn}
use restic_ui.Dashboard.Sparkline.{
  Drawing, sparkline, InBox, y_of, least, greatest, line_of, coords_from, sparkline-InBox,
}

abbrev point : ℕ → GrowthPoint
point n = record { t = []; size = n }

abbrev histories : List History
histories =
    record { id = 1; name = codes "nas"; points = some (point 900 ∷ point 500 ∷ []) }
    ∷ record { id = 2; name = codes "new"; points = some [] }
    ∷ record { id = 3; name = codes "gone"; points = none }
    ∷ record { id = 4; name = codes "usb"; points = some (point 7 ∷ []) }
    ∷ []

two_sent : length (repo_growth histories) ≡ 2
unfolding repo_growth
two_sent = refl

shrunk : delta_text 900 500 ≡ some (codes "−400 B")
unfolding delta_text format_bytes decimal
shrunk = refl

growth_part-drawn_example :
    Draws (repo_growth histories) (growth_cards (repo_growth histories))
    × (growth_part (repo_growth histories) ≢ none)
growth_part-drawn_example = growth_part-drawn histories

flat :
    line_of 5 (5 ∷ [])
    ≡ record { x = record { num = 0; den = 1 }; y = record { num = 50; den = 1 } }
      ∷ record { x = record { num = 100; den = 1 }; y = record { num = 50; den = 1 } }
      ∷ []
unfolding line_of coords_from y_of least greatest
flat = refl

abbrev sizes : List ℕ
sizes = 3 ∷ 9 ∷ 6 ∷ []

three_le_six : 3 ≤ 6
three_le_six = omega arith

sparkline-InBox_example :
    (d : Drawing) × (sparkline sizes ≡ some d)
    × All InBox d.line
    × (length d.line ≡ length sizes)
    × ((y_of (least 3 (9 ∷ 6 ∷ [])) (greatest 3 (9 ∷ 6 ∷ [])) 6).num
        ≤ (y_of (least 3 (9 ∷ 6 ∷ [])) (greatest 3 (9 ∷ 6 ∷ [])) 3).num)
sparkline-InBox_example = sparkline-InBox 3 9 (6 ∷ []) 3 6 three_le_six
