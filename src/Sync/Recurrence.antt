-- ===== src/Sync/Recurrence.antt =====
-- packages/sync-client/src/recurrence.ts: the next occurrence of a recurring task.
pub mod Rrule
pub mod Next
pub mod Roll
mod Tests
use mathlib.Core.Option
use balu_todo.Prelude.{
  ℕ, zero, suc, ◌+◌, ◌-◌, ◌*◌, ◌/◌, ◌%◌, String, Bool, true, false, ◌&&◌, Option, none, some, List,
  [], ◌∷◌, ltb, leb, max, if◌then◌else◌,
}
use balu_todo.Prelude.Int.{ℤ, pos, pos_part, ltb_ℤ, leb_ℤ, neg, times, add_to}
use balu_todo.Domain.Types.{IsoDate, Instant, at, unreadable}
use balu_todo.Domain.Dates.{
  year, month, to_utc, from_utc, add_days, add_months, add_years, diff_days, day_of_week,
}
use Rrule.{Rule, Freq, daily, weekly, monthly, yearly, parse_rrule}

-- The Monday of the week of `iso`.
unfoldable pub monday_of : IsoDate → IsoDate
unfolding add_days day_of_week
monday_of iso = add_days iso (neg ((day_of_week iso + 6) % 7))

-- The `switch` of `nth`.
nth_of : Freq → IsoDate → ℕ → ℕ → IsoDate
nth_of daily anchor interval k = add_days anchor (pos (interval * k))
nth_of weekly anchor interval k = add_days anchor (pos (7 * interval * k))
nth_of monthly anchor interval k = add_months anchor (interval * k)
nth_of yearly anchor interval k = add_years anchor (interval * k)

unfoldable pub nth : IsoDate → Rule → ℕ → IsoDate
unfolding nth_of add_days add_months add_years
nth anchor rule k = nth_of rule.freq anchor rule.interval k

-- The `switch` of `startK`. `Math.max(0, …)` is the subtraction that stops at 0.
start_k_of : Freq → IsoDate → ℕ → IsoDate → ℕ
start_k_of daily anchor interval after = (to_utc after - to_utc anchor) / interval
start_k_of weekly anchor interval after = (to_utc after - to_utc anchor) / (7 * interval)
start_k_of monthly anchor interval after =
    (year after * 12 + month after - (year anchor * 12 + month anchor)) / interval
start_k_of yearly anchor interval after = (year after - year anchor) / interval

unfoldable pub start_k : IsoDate → Rule → IsoDate → ℕ
unfolding start_k_of to_utc
start_k anchor rule after =
    if leb after anchor then 0 else start_k_of rule.freq anchor rule.interval after

abbrev pub scan_limit : ℕ
scan_limit = 64

-- `for (let k = first; k < first + rounds; k += 1)`, left by the first hit
unfoldable pub scan : ℕ → ℕ → (ℕ → Option IsoDate) → Option IsoDate
scan zero k hit = none
scan (suc rounds) k hit = elim (hit k) [ some d ↦ some d | none ↦ scan rounds (k + 1) hit ]

-- `if (candidate > after) return candidate`
unfoldable pub beyond : IsoDate → IsoDate → Option IsoDate
beyond after candidate = if ltb after candidate then some candidate else none

-- The loop over the weekdays of one week.
unfoldable pub in_week : IsoDate → IsoDate → List ℕ → Option IsoDate
unfolding beyond
in_week after week [] = none
in_week after week (weekday ∷ days) = elim (beyond after (add_days week (pos weekday))) [
  | some d ↦ some d
  | none ↦ in_week after week days
]

unfoldable pub by_weekday : IsoDate → Rule → IsoDate → Option IsoDate
unfolding scan in_week monday_of
by_weekday anchor rule after =
    let monday = monday_of anchor in
    scan scan_limit ((to_utc after - to_utc monday) / (7 * rule.interval))
      λ k. in_week after (add_days monday (pos (7 * rule.interval * k))) rule.byday

unfoldable pub by_step : IsoDate → Rule → IsoDate → Option IsoDate
unfolding scan beyond nth start_k
by_step anchor rule after =
    scan scan_limit (start_k anchor rule after) λ k. beyond after (nth anchor rule k)

abbrev not_empty : List ℕ → Bool
not_empty [] = false
not_empty (x ∷ xs) = true

abbrev is_weekly : Freq → Bool
is_weekly weekly = true
is_weekly f = false

unfoldable pub next_by_rule : Option Rule → IsoDate → IsoDate → Option IsoDate
unfolding by_weekday by_step
next_by_rule none anchor after = none
next_by_rule (some rule) anchor after =
    if is_weekly rule.freq && not_empty rule.byday
    then by_weekday anchor rule after
    else by_step anchor rule after

unfoldable pub next_occurrence : String → IsoDate → IsoDate → Option IsoDate
unfolding next_by_rule parse_rrule
next_occurrence rrule anchor after = next_by_rule (parse_rrule rrule) anchor after

-- `utcOffsetMinutes`: the offset, or 0 when it is absent or out of range.
unfoldable pub utc_offset_minutes : Option ℤ → ℤ
utc_offset_minutes none = pos 0
utc_offset_minutes (some v) = if leb_ℤ (neg 720) v && leb_ℤ v (pos 840) then v else pos 0

pub record Rolled : Type 0 where
  pub start_date : Option IsoDate
  pub deadline : Option IsoDate
  pub reminder_at : Option Instant

-- The first instant of the year 10000, from which on the text of an instant has five digits.
abbrev year_10000 : ℕ
year_10000 = 253_402_300_800_000

-- `shiftInstant` and the test of its result. The new text has no milliseconds.
shift_reminder : Option Instant → ℤ → Option Instant
shift_reminder (some (at ms)) shift =
    let shifted = (ms + pos_part shift * 86_400_000) / 1000 * 1000 in
    if ltb_ℤ (pos 0) shift && ltb shifted year_10000 then some (at shifted) else some (at ms)
shift_reminder reminder shift = reminder

-- The calendar day of an instant at an offset from UTC, in days of `to_utc`.
local_day : ℕ → ℤ → IsoDate
local_day ms offset = from_utc (add_to ms (times 60_000 offset) / 86_400_000 + 719468)

-- The shift of a task without dates.
shift_of_local_day : Option Instant → IsoDate → ℤ → ℤ
unfolding local_day
shift_of_local_day (some (at ms)) next offset = diff_days (local_day ms offset) next
shift_of_local_day reminder next offset = pos 0

-- The three branches of `rollForward`, after the call of `nextOccurrence`.
roll_start : Option Instant → Option IsoDate → IsoDate → IsoDate → Rolled
unfolding shift_reminder
roll_start reminder due start next =
    let shift = diff_days start next in
    record {
      start_date = some next;
      deadline = Option.map (λ d. add_days d shift) due;
      reminder_at = shift_reminder reminder shift;
    }

roll_deadline : Option Instant → IsoDate → IsoDate → Rolled
unfolding shift_reminder
roll_deadline reminder due next = record {
  start_date = none;
  deadline = some next;
  reminder_at = shift_reminder reminder (diff_days due next);
}

roll_undated : Option Instant → ℤ → IsoDate → Rolled
unfolding shift_reminder shift_of_local_day
roll_undated reminder offset next = record {
  start_date = some next;
  deadline = none;
  reminder_at = shift_reminder reminder (shift_of_local_day reminder next offset);
}

unfoldable pub roll_forward :
    String → Option IsoDate → Option IsoDate → Option Instant → IsoDate → ℤ → Option Rolled
unfolding roll_start roll_deadline roll_undated
roll_forward rrule (some start) due reminder today offset =
    Option.map (roll_start reminder due start) (next_occurrence rrule start (max start today))
roll_forward rrule none (some due) reminder today offset =
    Option.map (roll_deadline reminder due) (next_occurrence rrule due (max due today))
roll_forward rrule none none reminder today offset =
    Option.map (roll_undated reminder offset) (next_occurrence rrule today today)
