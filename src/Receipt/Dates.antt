-- ===== src/Receipt/Dates.antt =====
-- `f"{created_at:%Y-%m-%d}"` and `f"{created_at:%Y-%m-%d %H:%M:%S}"` for a time in seconds since 1970,
-- by the days of the 400-year cycle of the calendar, which starts in March.
use hightower_pos.Prelude.{ℕ, ◌+◌, ◌-◌, ◌*◌, ◌/◌, ◌%◌, [], ◌∷◌, ◌++◌, if◌then◌else◌, ltb, leb}
use hightower_pos.Prelude.Text.{Text}
use hightower_pos.Prelude.Digits.{show_ℕ}

abbrev two_digits : ℕ → Text
two_digits n = (b'0' + n / 10 % 10) ∷ (b'0' + n % 10) ∷ []

abbrev day_of_cycle : (days : ℕ) → ℕ
day_of_cycle days = (days + 719468) % 146097

abbrev year_of_cycle : (day : ℕ) → ℕ
year_of_cycle day = (day + day / 36524 - day / 1460 - day / 146096) / 365

abbrev day_of_year : (day : ℕ) → ℕ
day_of_year day = let year = year_of_cycle day in day + year / 100 - (365 * year + year / 4)

unfoldable pub date_text : (seconds : ℕ) → Text
unfolding show_ℕ
date_text seconds =
    let days = seconds / 86400 in
    let cycle_day = day_of_cycle days in
    let year_day = day_of_year cycle_day in
    let month_index = (5 * year_day + 2) / 153 in
    let day = year_day - (153 * month_index + 2) / 5 + 1 in
    let month = if ltb month_index 10 then month_index + 3 else month_index - 9 in
    let year =
      year_of_cycle cycle_day + (days + 719468) / 146097 * 400 + (if leb month 2 then 1 else 0) in
    show_ℕ year ++ b'-' ∷ two_digits month ++ b'-' ∷ two_digits day

unfoldable pub timestamp_text : (seconds : ℕ) → Text
unfolding date_text
timestamp_text seconds =
    let second_of_day = seconds % 86400 in
    date_text seconds
    ++ b' ' ∷ two_digits (second_of_day / 3600)
    ++ b':' ∷ two_digits (second_of_day / 60 % 60)
    ++ b':' ∷ two_digits (second_of_day % 60)
