-- ===== src/Operations/Table/Duration.antt =====
-- web/src/pages/OperationsPage.tsx: how exact the duration is, and what the empty table says.
use restic_ui.Base.{
  ℕ, ◌+◌, ◌-◌, ◌*◌, ◌/◌, ◌%◌, ◌≤◌, ◌<◌, ltb, ◌≡◌, ◌↔◌, Bool-cases, inl, inr, arith,
}
use restic_ui.Operations.Table.{Length, seconds, minutes_seconds, length_of, round_seconds}

abbrev pub rest : Length → ℕ
rest (seconds s) = s
rest (minutes_seconds m s) = s

-- The duration that is shown, in milliseconds.
abbrev pub shown_ms : Length → ℕ
shown_ms (seconds s) = 1000 * s
shown_ms (minutes_seconds m s) = 60000 * m + 1000 * s

short_lem :
    (ms : ℕ)
    → ms < 60000
    → (1000 * round_seconds ms ≤ ms + 500)
      × (ms ≤ 1000 * round_seconds ms + 500)
      × (round_seconds ms ≤ 60)
      × ((round_seconds ms ≡ 60) ↔ (59500 ≤ ms % 60000))
short_lem ms h = (omega arith, omega arith, omega arith, ((λ e. omega arith), (λ e. omega arith)))

long_lem :
    (ms : ℕ)
    → (60000 * (ms / 60000) + 1000 * round_seconds (ms % 60000) ≤ ms + 500)
      × (ms ≤ 60000 * (ms / 60000) + 1000 * round_seconds (ms % 60000) + 500)
      × (round_seconds (ms % 60000) ≤ 60)
      × ((round_seconds (ms % 60000) ≡ 60) ↔ (59500 ≤ ms % 60000))
long_lem ms = (omega arith, omega arith, omega arith, ((λ e. omega arith), (λ e. omega arith)))

-- The duration that is shown for an operation is off by at most half a second, and its seconds are
-- at most 60. They are 60, as in "1m 60s", exactly if the last half second before a full minute has
-- begun.
pub length_of_lem :
    (start end : ℕ)
    → (shown_ms (length_of start end) ≤ (end - start) + 500)
      × ((end - start) ≤ shown_ms (length_of start end) + 500)
      × (rest (length_of start end) ≤ 60)
      × ((rest (length_of start end) ≡ 60) ↔ (59500 ≤ (end - start) % 60000))
unfolding length_of
length_of_lem start end = elim (Bool-cases (ltb (end - start) 60000)) [
  | inl e ↦ rw e (short_lem (end - start) (ground arith))
  | inr e ↦ rw e (long_lem (end - start))
]
