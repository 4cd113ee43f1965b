-- ===== src/Cron.antt =====
-- web/src/lib/cronHumanize.ts: the schedule presets, and a sentence for a cron expression.
pub mod Sentences
mod Tests
use restic_ui.Base.{
  ℕ, zero, suc, ◌+◌, ◌-◌, ◌%◌, Bool, true, false, not, ◌&&◌, ◌||◌, Option, none, some, List, [],
  ◌∷◌, ◌++◌, ltb, leb, ◌==◌, if◌then◌else◌, length, get_elem?, take, drop, find?, or_else,
}
use restic_ui.Base.Text.{Text, codes, text_eq, is_empty}
use restic_ui.Base.Text.Trim.{trim, trim_end, split_spaces}

pub record Preset : Type 0 where
  pub label : Text
  pub value : Text

abbrev pub schedule_presets : List Preset
schedule_presets =
    record { label = codes "Manual only (no schedule)"; value = [] }
    ∷ record { label = codes "Hourly"; value = codes "0 * * * *" }
    ∷ record { label = codes "Daily at 02:00"; value = codes "0 2 * * *" }
    ∷ record { label = codes "Weekly, Sunday 03:00"; value = codes "0 3 * * 0" }
    ∷ record { label = codes "Custom cron…"; value = codes "custom" }
    ∷ []

abbrev pub days : List Text
days =
    codes "Sunday"
    ∷ codes "Monday"
    ∷ codes "Tuesday"
    ∷ codes "Wednesday"
    ∷ codes "Thursday"
    ∷ codes "Friday"
    ∷ codes "Saturday"
    ∷ []

-- `n.padStart(2, "0")`
abbrev pub pad : Text → Text
pad [] = b'0' ∷ b'0' ∷ []
pad (c ∷ []) = b'0' ∷ c ∷ []
pad (c ∷ d ∷ s) = c ∷ d ∷ s

abbrev pub is_digit : ℕ → Bool
is_digit c = leb b'0' c && leb c b'9'

abbrev pub are_digits : Text → Bool
are_digits [] = true
are_digits (c ∷ s) = is_digit c && are_digits s

-- `/^\*\/(\d+)$/`, with what its group matches.
unfoldable pub match_every : Text → Option Text
match_every (star ∷ slash ∷ d ∷ ds) =
    if star == b'*' && slash == b'/' && are_digits (d ∷ ds) then some (d ∷ ds) else none
match_every _ = none

-- `/^\d{1,2}$/`
abbrev pub is_number : Text → Bool
is_number [] = false
is_number (c ∷ []) = is_digit c
is_number (c ∷ d ∷ []) = is_digit c && is_digit d
is_number _ = false

-- `/^\d$/`
abbrev pub is_one_digit : Text → Bool
is_one_digit (c ∷ []) = is_digit c
is_one_digit _ = false

-- `DAYS[Number(dow) % 7]` for one digit.
unfoldable pub day_name : Text → Text
day_name [] = codes "undefined"
day_name (c ∷ s) = or_else (get_elem? days ((c - 48) % 7)) (codes "undefined")

abbrev pub star : Text
star = b'*' ∷ []

-- `label.replace(/\s*\(no schedule\)$/, "")`
unfoldable pub strip_no_schedule : Text → Text
strip_no_schedule label =
    let n = length label - 13 in
    if text_eq (drop n label) (codes "(no schedule)") then trim_end (take n label) else label

-- The sentence for times of the day, where minute and hour are numbers.
unfoldable pub at_time : Text → Text → Text → Text → Text
unfolding day_name
at_time cron min hour dow =
    let time = pad hour ++ (b':' ∷ pad min) in
    if is_number min && is_number hour
    then (if text_eq dow star
        then codes "Daily at " ++ time
        else if is_one_digit dow
        then codes "Weekly, " ++ (day_name dow ++ (codes " at " ++ time))
        else cron)
    else cron

-- What is said of every n-th hour, or of a time.
unfoldable pub by_hour : Text → Text → Text → Text → Option Text → Text
unfolding at_time
by_hour cron min hour dow (some n) =
    if text_eq min (codes "0") && text_eq dow star
    then codes "Every " ++ (n ++ codes " hours")
    else at_time cron min hour dow
by_hour cron min hour dow none = at_time cron min hour dow

unfoldable pub by_minute : Text → Text → Text → Text → Option Text → Text
unfolding by_hour
by_minute cron min hour dow (some n) =
    if text_eq hour star && text_eq dow star
    then codes "Every " ++ (n ++ codes " minutes")
    else by_hour cron min hour dow (match_every hour)
by_minute cron min hour dow none = by_hour cron min hour dow (match_every hour)

unfoldable pub by_fields : Text → List Text → Text
unfolding by_minute match_every
by_fields cron (min ∷ hour ∷ dom ∷ mon ∷ dow ∷ []) =
    if text_eq dom star && text_eq mon star
    then by_minute cron min hour dow (match_every min)
    else cron
by_fields cron _ = cron

abbrev pub is_preset : Text → Preset → Bool
is_preset cron p = text_eq p.value cron

unfoldable pub by_preset : Text → Option Preset → Text
unfolding strip_no_schedule by_fields
by_preset cron (some p) = strip_no_schedule p.label
by_preset cron none = by_fields cron (split_spaces (trim cron))

unfoldable pub humanize_cron : Text → Text
unfolding by_preset
humanize_cron cron =
    if is_empty (trim cron)
    then codes "Manual only"
    else by_preset cron (find? (is_preset cron) schedule_presets)
