-- ===== src/Domain/Dates.antt =====
-- packages/domain/src/dates.ts: calendar arithmetic on dates, for the years 100 to 9999.
-- `Date.UTC` and the `getUTC` methods are ECMAScript's proleptic Gregorian calendar; a UTC midnight
-- is the number of its day, counted from 0000-03-01 instead of 1970-01-01.
use balu_todo.Prelude.{ℕ, ◌+◌, ◌-◌, ◌*◌, ◌/◌, ◌%◌, min, leb, ltb, if◌then◌else◌}
use balu_todo.Prelude.Int.{ℤ, sub_ℕ, add_to}
use balu_todo.Domain.Types.{IsoDate}

-- `iso.split("-").map(Number)`
abbrev pub year : IsoDate → ℕ
year iso = iso / 10000

abbrev pub month : IsoDate → ℕ
month iso = iso / 100 % 100

abbrev pub day : IsoDate → ℕ
day iso = iso % 100

abbrev pub iso_date : ℕ → ℕ → ℕ → IsoDate
iso_date y m d = y * 10000 + m * 100 + d

-- Date.UTC(y, m - 1, d), in days
unfoldable pub utc_day : ℕ → ℕ → ℕ → ℕ
utc_day y m d =
    let y' = if leb m 2 then y - 1 else y in
    365 * y' + y' / 4 - y' / 100 + y' / 400 + (153 * ((m + 9) % 12) + 2) / 5 + (d - 1)

unfoldable pub to_utc : IsoDate → ℕ
unfolding utc_day
to_utc iso = utc_day (year iso) (month iso) (day iso)

unfoldable pub from_utc : ℕ → IsoDate
from_utc z =
    let doe = z % 146097 in
    let yoe = (doe - doe / 1460 + doe / 36524 - doe / 146096) / 365 in
    let doy = doe - (365 * yoe + yoe / 4 - yoe / 100) in
    let mp = (5 * doy + 2) / 153 in
    let m = if ltb mp 10 then mp + 3 else mp - 9 in
    let y = yoe + z / 146097 * 400 in
    iso_date (if leb m 2 then y + 1 else y) m (doy - (153 * mp + 2) / 5 + 1)

unfoldable pub add_days : IsoDate → ℤ → IsoDate
unfolding to_utc from_utc
add_days iso days = from_utc (add_to (to_utc iso) days)

-- `new Date(Date.UTC(y, m, 0)).getUTCDate()`: the day before the first of the next month.
unfoldable pub last_day : ℕ → ℕ → ℕ
unfolding utc_day from_utc
last_day y m = day (from_utc ((if leb 12 m then utc_day (y + 1) 1 1 else utc_day y (m + 1) 1) - 1))

unfoldable pub add_months : IsoDate → ℕ → IsoDate
unfolding utc_day from_utc last_day
add_months iso months =
    let total = year iso * 12 + (month iso - 1) + months in
    let ny = total / 12 in
    let nm = total % 12 + 1 in from_utc (utc_day ny nm (min (day iso) (last_day ny nm)))

unfoldable pub add_years : IsoDate → ℕ → IsoDate
unfolding add_months
add_years iso years = add_months iso (years * 12)

-- diffDaysISO: whole days from `a` to `b`
unfoldable pub diff_days : IsoDate → IsoDate → ℤ
unfolding to_utc
diff_days a b = sub_ℕ (to_utc b) (to_utc a)

-- 0 is Sunday
unfoldable pub day_of_week : IsoDate → ℕ
unfolding to_utc
day_of_week iso = (to_utc iso + 3) % 7
