-- ===== src/Cron/Tests.antt =====
-- Sentences for some expressions.
use restic_ui.Base.{◌≡◌, ◌≢◌, refl, ◌++◌}
use restic_ui.Base.Text.{codes, text_eq_iff}
use restic_ui.Base.Text.Trim.{trim, split_spaces, is_space}
use restic_ui.Cron.{humanize_cron, star, day_name}
use restic_ui.Cron.Sentences.{at, clock, humanize_cron-at}

program : Unit {0}
unfolding humanize_cron trim split_spaces is_space
program = tt

manual : humanize_cron (codes "  ") ≡ codes "Manual only"
unfolding program
manual = refl

preset : humanize_cron (codes "0 2 * * *") ≡ codes "Daily at 02:00"
unfolding program
preset = refl

spaced_out : humanize_cron (codes " 5  14 * * 7 ") ≡ codes "Weekly, Sunday at 14:05"
unfolding program
spaced_out = refl

every_hours : humanize_cron (codes "0 */6 * * *") ≡ codes "Every 6 hours"
unfolding program
every_hours = refl

every_minutes : humanize_cron (codes "*/15 * * * *") ≡ codes "Every 15 minutes"
unfolding program
every_minutes = refl

ranges : humanize_cron (codes "30 4 * * 1-5") ≡ codes "30 4 * * 1-5"
unfolding program
ranges = refl

other_day : at (codes "0") (codes "3") (codes "1") ≢ codes "0 3 * * 0"
other_day e = cc ((text_eq_iff (at (codes "0") (codes "3") (codes "1")) (codes "0 3 * * 0")).1 e)

humanize_cron-at_example :
    (humanize_cron (at (codes "0") (codes "3") star)
      ≡ codes "Daily at " ++ clock (codes "0") (codes "3"))
    × (humanize_cron (at (codes "0") (codes "3") (codes "1"))
        ≡ codes "Weekly, "
          ++ (day_name (codes "1") ++ (codes " at " ++ clock (codes "0") (codes "3"))))
humanize_cron-at_example =
    humanize_cron-at (codes "0") (codes "3") (codes "1") refl refl refl other_day
