-- ===== src/Cron/Sentences.antt =====
-- The sentences for times of the day.
use restic_ui.Base.{
  ℕ, ◌≡◌, ◌≢◌, refl, ap, ◌∙◌, true, false, none, some, [], ◌∷◌, ◌++◌, arith, find?_ind, All,
  All-imp,
}
use restic_ui.Base.Text.{Text, codes, text_eq, text_eq_iff, is_empty}
use restic_ui.Base.Text.Trim.{
  trim, split_spaces, is_space, IsField, join_spaces, split_spaces-join_spaces, trim-join_spaces,
}
use restic_ui.Cron.{
  schedule_presets, pad, is_digit, match_every, is_number, is_one_digit, day_name, star, at_time,
  by_hour, by_minute, by_fields, is_preset, by_preset, humanize_cron, strip_no_schedule,
}

-- A cron expression for a minute and an hour of every day, or of one day of the week.
abbrev pub at : Text → Text → Text → Text
at min hour dow = join_spaces min (hour ∷ star ∷ star ∷ dow ∷ [])

abbrev pub clock : Text → Text → Text
clock min hour = pad hour ++ (b':' ∷ pad min)

is_space-digit : (c : ℕ) → is_digit c ≡ true → is_space c ≡ false
unfolding is_space
is_space-digit c h = ground arith

is_number-IsField : (s : Text) → is_number s ≡ true → IsField s
is_number-IsField [] h = cc
is_number-IsField (c ∷ []) h = ((is_space-digit c h, tt), λ e. cc)
is_number-IsField (c ∷ d ∷ []) h =
    ((is_space-digit c (ground arith), (is_space-digit d (ground arith), tt)), λ e. cc)
is_number-IsField (c ∷ d ∷ e ∷ s) h = cc

is_one_digit-IsField : (s : Text) → is_one_digit s ≡ true → IsField s
is_one_digit-IsField [] h = cc
is_one_digit-IsField (c ∷ []) h = ((is_space-digit c h, tt), λ e. cc)
is_one_digit-IsField (c ∷ d ∷ s) h = cc

star-IsField : IsField star
unfolding is_space
star-IsField = ((refl, tt), λ e. cc)

match_every-number : (s : Text) → is_number s ≡ true → match_every s ≡ none
unfolding match_every
match_every-number [] h = cc
match_every-number (c ∷ []) h = refl
match_every-number (c ∷ d ∷ []) h = refl
match_every-number (c ∷ d ∷ e ∷ s) h = cc

module _ (min hour dow : Text) (minute : is_number min ≡ true)
    (hourly : is_number hour ≡ true) where
  fields_of_at :
      IsField dow → split_spaces (trim (at min hour dow)) ≡ min ∷ hour ∷ star ∷ star ∷ dow ∷ []
  fields_of_at h =
      let ok : All IsField (min ∷ hour ∷ star ∷ star ∷ dow ∷ []) = (
        is_number-IsField min minute,
        (is_number-IsField hour hourly, (star-IsField, (star-IsField, (h, tt)))),
      ) in
      ap split_spaces (trim-join_spaces min (hour ∷ star ∷ star ∷ dow ∷ []) ok)
      ∙ split_spaces-join_spaces min (hour ∷ star ∷ star ∷ dow ∷ []) ok

  by_fields_at :
      (cron : Text)
      → by_fields cron (min ∷ hour ∷ star ∷ star ∷ dow ∷ []) ≡ at_time cron min hour dow
  unfolding by_fields by_minute by_hour
  by_fields_at cron = rw (match_every-number min minute, by_minute, match_every-number hour hourly)

  trim-at : IsField dow → is_empty (trim (at min hour dow)) ≡ false
  trim-at h =
      rw
        (trim-join_spaces min (hour ∷ star ∷ star ∷ dow ∷ []) (
          is_number-IsField min minute,
          (is_number-IsField hour hourly, (star-IsField, (star-IsField, (h, tt)))),
        ))
        (nonempty min minute)
    where
      nonempty :
          (s : Text)
          → is_number s ≡ true
          → is_empty (join_spaces s (hour ∷ star ∷ star ∷ dow ∷ [])) ≡ false
      nonempty [] e = cc
      nonempty (c ∷ s) e = refl

  -- The fields of a preset that is this expression.
  fields_of_preset :
      (value : Text)
      → IsField dow
      → text_eq value (at min hour dow) ≡ true
      → split_spaces (trim value) ≡ min ∷ hour ∷ star ∷ star ∷ dow ∷ []
  fields_of_preset value h e =
      ap (λ v. split_spaces (trim v)) ((text_eq_iff value (at min hour dow)).0 e) ∙ fields_of_at h

  -- A sentence holds of the expression if it holds of every preset that the expression is.
  humanize-at :
      (sentence : Text)
      → IsField dow
      → at_time (at min hour dow) min hour dow ≡ sentence
      → All
          (λ p.
            split_spaces (trim p.value) ≡ min ∷ hour ∷ star ∷ star ∷ dow ∷ []
            → strip_no_schedule p.label ≡ sentence)
          schedule_presets
      → humanize_cron (at min hour dow) ≡ sentence
  unfolding humanize_cron
  humanize-at sentence h timed presets = rw (trim-at h) (
      find?_ind (λ o. by_preset (at min hour dow) o ≡ sentence) (is_preset (at min hour dow))
        schedule_presets (rw (fields_of_at h) (by_fields_at (at min hour dow) ∙ timed))
        (All-imp
          (λ p.
            split_spaces (trim p.value) ≡ min ∷ hour ∷ star ∷ star ∷ dow ∷ []
            → strip_no_schedule p.label ≡ sentence)
          (λ p.
            is_preset (at min hour dow) p ≡ true → by_preset (at min hour dow) (some p) ≡ sentence)
          (λ p k e. k (fields_of_preset p.value h e)) schedule_presets presets))

-- The fields of the presets.
fields_empty : split_spaces (trim []) ≡ [] ∷ []
unfolding split_spaces trim is_space
fields_empty = refl

fields_hourly : split_spaces (trim (codes "0 * * * *")) ≡ codes "0" ∷ star ∷ star ∷ star ∷ star ∷ []
unfolding split_spaces trim is_space
fields_hourly = refl

fields_daily :
    split_spaces (trim (codes "0 2 * * *")) ≡ codes "0" ∷ codes "2" ∷ star ∷ star ∷ star ∷ []
unfolding split_spaces trim is_space
fields_daily = refl

fields_weekly :
    split_spaces (trim (codes "0 3 * * 0")) ≡ codes "0" ∷ codes "3" ∷ star ∷ star ∷ codes "0" ∷ []
unfolding split_spaces trim is_space
fields_weekly = refl

fields_custom : split_spaces (trim (codes "custom")) ≡ codes "custom" ∷ []
unfolding split_spaces trim is_space
fields_custom = refl

at_time-star :
    (cron min hour : Text)
    → is_number min ≡ true
    → is_number hour ≡ true
    → at_time cron min hour star ≡ codes "Daily at " ++ clock min hour
unfolding at_time
at_time-star cron min hour m h = rw (m, h)

not_star : (s : Text) → is_one_digit s ≡ true → text_eq s star ≡ false
not_star [] h = refl
not_star (c ∷ []) h = ground arith
not_star (c ∷ d ∷ s) h = cc

at_time-digit :
    (cron min hour dow : Text)
    → is_number min ≡ true
    → is_number hour ≡ true
    → is_one_digit dow ≡ true
    → at_time cron min hour dow
      ≡ codes "Weekly, " ++ (day_name dow ++ (codes " at " ++ clock min hour))
unfolding at_time
at_time-digit cron min hour dow m h d = rw (m, h, not_star dow d, d)

-- An hour that is a number is no star.
hour_not_star : (hour : Text) → is_number hour ≡ true → star ≢ hour
hour_not_star hour h e = cc (rw (← e) at h)

zero_not_star : codes "0" ≢ star
zero_not_star e = cc ((text_eq_iff (codes "0") star).1 e)

daily_label :
    strip_no_schedule (codes "Daily at 02:00") ≡ codes "Daily at " ++ clock (codes "0") (codes "2")
unfolding strip_no_schedule
daily_label = refl

humanize_cron-daily :
    (min hour : Text)
    → is_number min ≡ true
    → is_number hour ≡ true
    → humanize_cron (at min hour star) ≡ codes "Daily at " ++ clock min hour
humanize_cron-daily min hour m h =
    humanize-at min hour star m h (codes "Daily at " ++ clock min hour) star-IsField
      (at_time-star (at min hour star) min hour m h)
      (
        (λ e. cc (fields_empty)),
        (
          (λ e. absurd (hour_not_star hour h (cc (fields_hourly)))),
          (
            (λ e.
                let zero_min : codes "0" ≡ min = cc (fields_daily) in
                let two_hour : codes "2" ≡ hour = cc (fields_daily) in
                rw (← zero_min, ← two_hour) daily_label),
            ((λ e. absurd (zero_not_star (cc (fields_weekly)))), ((λ e. cc (fields_custom)), tt)),
          ),
        ),
      )

humanize_cron-weekly :
    (min hour dow : Text)
    → is_number min ≡ true
    → is_number hour ≡ true
    → is_one_digit dow ≡ true
    → at min hour dow ≢ codes "0 3 * * 0"
    → humanize_cron (at min hour dow)
      ≡ codes "Weekly, " ++ (day_name dow ++ (codes " at " ++ clock min hour))
humanize_cron-weekly min hour dow m h d other =
    humanize-at min hour dow m h _ (is_one_digit-IsField dow d)
      (at_time-digit (at min hour dow) min hour dow m h d)
      (
        (λ e. cc (fields_empty)),
        (
          (λ e. absurd (hour_not_star hour h (cc (fields_hourly)))),
          (
            (λ e. let s : star ≡ dow = cc (fields_daily) in cc (not_star dow d, rw (← s) at d)),
            (
              (λ e. absurd (
                  other (
                    same_weekly min hour dow (cc (fields_weekly)) (cc (fields_weekly))
                      (cc (fields_weekly))))),
              ((λ e. cc (fields_custom)), tt),
            ),
          ),
        ),
      )
  where
    same_weekly :
        (min hour dow : Text)
        → codes "0" ≡ min
        → codes "3" ≡ hour
        → codes "0" ≡ dow
        → at min hour dow ≡ codes "0 3 * * 0"
    same_weekly min hour dow a b c = rw (← a, ← b, ← c)

-- humanizeCron calls a cron expression for a minute and an hour of one or two digits on every day
-- "Daily at HH:MM", with leading zeros, whether or not it is a preset; and one on a single day of the
-- week "Weekly, DAY at HH:MM", unless it is the preset "0 3 * * 0", which has a label of its own.
pub humanize_cron-at :
    (min hour dow : Text)
    → is_number min ≡ true
    → is_number hour ≡ true
    → is_one_digit dow ≡ true
    → at min hour dow ≢ codes "0 3 * * 0"
    → (humanize_cron (at min hour star) ≡ codes "Daily at " ++ clock min hour)
      × (humanize_cron (at min hour dow)
          ≡ codes "Weekly, " ++ (day_name dow ++ (codes " at " ++ clock min hour)))
humanize_cron-at min hour dow m h d other =
    (humanize_cron-daily min hour m h, humanize_cron-weekly min hour dow m h d other)
