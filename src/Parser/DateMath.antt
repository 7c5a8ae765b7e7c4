-- ===== src/Parser/DateMath.antt =====
-- packages/nl-parser/src/dateMath.ts, over the same calendar as packages/domain/src/dates.ts.
use balu_todo.Prelude.{ℕ, ◌+◌, ◌-◌, ◌%◌, Option, none, some, ◌||◌, eqb, ltb, if◌then◌else◌}
use balu_todo.Prelude.Int.{ℤ, pos, negsuc, sub_ℕ, add_to}
use balu_todo.Domain.Types.{IsoDate}
use balu_todo.Domain.Dates.{iso_date, to_utc, utc_day, from_utc}

unfoldable pub add_days : IsoDate → ℤ → IsoDate
add_days iso n = from_utc (add_to (to_utc iso) n)

-- 0 is Sunday
unfoldable pub dow : IsoDate → ℕ
dow iso = (to_utc iso + 3) % 7

unfoldable pub week_monday : IsoDate → IsoDate
unfolding add_days dow
week_monday iso = let d = dow iso in add_days iso (if eqb d 0 then negsuc 5 else sub_ℕ 1 d)

-- `(targetDow - cur + 7) % 7`
unfoldable pub next_weekday : IsoDate → ℕ → IsoDate
unfolding add_days dow
next_weekday ref target_dow =
    let diff = (target_dow + 7 - dow ref) % 7 in add_days ref (pos (if eqb diff 0 then 7 else diff))

unfoldable pub next_week_weekday : IsoDate → ℕ → IsoDate
unfolding next_weekday week_monday
next_week_weekday ref target_dow =
    let base = next_weekday ref target_dow in
    let next_monday = add_days (week_monday ref) (pos 7) in
    if ltb base next_monday then add_days base (pos 7) else base

unfoldable pub make_date : ℕ → ℕ → ℕ → Option IsoDate
make_date y m d =
    if ltb m 1 || ltb 12 m || ltb d 1 || ltb 31 d
    then none
    else let iso = iso_date y m d in if eqb (from_utc (utc_day y m d)) iso then some iso else none
