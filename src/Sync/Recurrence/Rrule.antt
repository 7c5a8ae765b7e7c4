-- ===== src/Sync/Recurrence/Rrule.antt =====
-- `parseRrule` of packages/sync-client/src/recurrence.ts.
-- The text of a rule is the list of its code points. `Number(v)` is read for digits only, and any
-- other text counts as NaN; a BYDAY part without "=", on which the source throws, gives no days.
use balu_todo.Prelude.Codes.{codes, eq_codes, is, split}
use balu_todo.Prelude.{
  ℕ, ◌+◌, ◌-◌, ◌*◌, String, ◌&&◌, Option, none, some, List, [], ◌∷◌, eqb, leb, ltb, max, is_some,
  if◌then◌else◌,
}

pub data Freq : Type 0 where
  daily weekly monthly yearly : Freq

pub record Rule : Type 0 where
  pub freq : Freq
  pub interval : ℕ
  pub byday : List ℕ

-- `const [k, v] = parts`
first : List (List ℕ) → List ℕ
first [] = []
first (k ∷ parts) = k

second : List (List ℕ) → List ℕ
second (k ∷ v ∷ parts) = v
second parts = []

digits_value : ℕ → List ℕ → ℕ
digits_value acc [] = acc
digits_value acc (c ∷ s) =
    if leb b'0' c && leb c b'9' then digits_value (acc * 10 + (c - b'0')) s else 0

-- `Math.max(1, Number(v) || 1)`
interval_of : List ℕ → ℕ
unfolding digits_value
interval_of v = max 1 (digits_value 0 v)

freq_of : List ℕ → Option Freq
unfolding eq_codes
freq_of v =
    if is v "DAILY"
    then some daily
    else if is v "WEEKLY"
    then some weekly
    else if is v "MONTHLY"
    then some monthly
    else if is v "YEARLY"
    then some yearly
    else none

-- BYDAY_TO_OFFSET
weekday_of : List ℕ → Option ℕ
unfolding eq_codes
weekday_of d =
    if is d "MO"
    then some 0
    else if is d "TU"
    then some 1
    else if is d "WE"
    then some 2
    else if is d "TH"
    then some 3
    else if is d "FR"
    then some 4
    else if is d "SA"
    then some 5
    else if is d "SU"
    then some 6
    else none

weekdays : List (List ℕ) → List ℕ
unfolding weekday_of
weekdays [] = []
weekdays (d ∷ ds) = elim (weekday_of d) [ some n ↦ n ∷ weekdays ds | none ↦ weekdays ds ]

-- The variables of the loop of `parseRrule`.
record Parsing : Type 0 where
  freq : Option Freq
  interval : ℕ
  byday : List ℕ

part : Parsing → List ℕ → List ℕ → Parsing
unfolding eq_codes freq_of interval_of weekdays split
part s k v =
    if is k "FREQ" && is_some (freq_of v)
    then record s { freq = freq_of v }
    else if is k "INTERVAL"
    then record s { interval = interval_of v }
    else if is k "BYDAY"
    then record s { byday = weekdays (split b',' v) }
    else s

parts : Parsing → List (List ℕ) → Parsing
unfolding part split first second
parts s [] = s
parts s (p ∷ ps) = let kv = split b'=' p in parts (part s (first kv) (second kv)) ps

-- `[...new Set(byday)].sort((a, b) => a - b)`
insert_day : ℕ → List ℕ → List ℕ
insert_day d [] = d ∷ []
insert_day d (e ∷ es) =
    if ltb d e then d ∷ e ∷ es else if eqb d e then e ∷ es else e ∷ insert_day d es

sort_days : List ℕ → List ℕ
unfolding insert_day
sort_days [] = []
sort_days (d ∷ ds) = insert_day d (sort_days ds)

days_for : Freq → List ℕ → List ℕ
unfolding sort_days
days_for weekly byday = sort_days byday
days_for freq byday = []

finish : Parsing → Option Rule
unfolding days_for
finish s = elim s.freq [
  | none ↦ none
  | some f ↦ some (record { freq = f; interval = s.interval; byday = days_for f s.byday })
]

unfoldable pub parse_rrule : String → Option Rule
unfolding parts finish split
parse_rrule rrule =
    finish (parts (record { freq = none; interval = 1; byday = [] }) (split b';' (codes rrule)))
