-- ===== src/Parser/FirstDay.antt =====
-- `firstOccurrenceOnOrAfter` of packages/nl-parser/src/compose.ts.
use balu_todo.Prelude.{
  ℕ, ◌+◌, zero, suc, Bool, false, ◌&&◌, ◌||◌, String, Option, none, some, List, [], ◌∷◌, eqb, leb,
  or_maybe, if◌then◌else◌,
}
use balu_todo.Prelude.Int.{pos}
use balu_todo.Prelude.Codes.{codes, is, split}
use balu_todo.Domain.Types.{IsoDate}
use balu_todo.Parser.Types.{Text}
use balu_todo.Parser.DateMath.{add_days, dow}

-- BYDAY_DOW
abbrev byday_dow : Text → Option ℕ
byday_dow d =
    if is d "SU"
    then some 0
    else if is d "MO"
    then some 1
    else if is d "TU"
    then some 2
    else if is d "WE"
    then some 3
    else if is d "TH"
    then some 4
    else if is d "FR"
    then some 5
    else if is d "SA"
    then some 6
    else none

-- The rest of a text behind a prefix.
unfoldable pub after_prefix : Text → Text → Option Text
after_prefix [] text = some text
after_prefix (c ∷ prefix) [] = none
after_prefix (c ∷ prefix) (d ∷ text) =
    let rest = after_prefix prefix text in if eqb c d then rest else none

-- `/(?:^|;)BYDAY=([^;]*)/`: the first part between semicolons that begins with "BYDAY=".
unfoldable pub byday_of : List Text → Option Text
unfolding after_prefix
byday_of [] = none
byday_of (part ∷ parts) = or_maybe (after_prefix (codes "BYDAY=") part) (byday_of parts)

abbrev is_digit : ℕ → Bool
is_digit c = leb 48 c && leb c 57

unfoldable pub skip_digits : Text → Text
skip_digits [] = []
skip_digits (c ∷ text) = let rest = skip_digits text in if is_digit c then rest else c ∷ text

abbrev begins_with_digit : Text → Bool
begins_with_digit [] = false
begins_with_digit (c ∷ text) = is_digit c

-- `part.replace(/^[+-]?\d+/, "")`
unfoldable pub without_ordinal : Text → Text
unfolding skip_digits
without_ordinal [] = []
without_ordinal (c ∷ text) =
    if (eqb c 43 || eqb c 45) && begins_with_digit text
    then skip_digits text
    else skip_digits (c ∷ text)

unfoldable pub wanted_days : List Text → List ℕ
unfolding without_ordinal
wanted_days [] = []
wanted_days (part ∷ parts) = elim (byday_dow (without_ordinal part)) [
  | none ↦ wanted_days parts
  | some d ↦ d ∷ wanted_days parts
]

abbrev pub has_day : ℕ → List ℕ → Bool
has_day d [] = false
has_day d (w ∷ wanted) = eqb w d || has_day d wanted

-- The loop, with the rounds that are left, the day's number and the day that is returned after it.
unfoldable pub first_wanted : ℕ → ℕ → IsoDate → List ℕ → IsoDate
first_wanted zero i from wanted = from
first_wanted (suc n) i from wanted =
    let later = first_wanted n (i + 1) from wanted in
    let day = add_days from (pos i) in if has_day (dow day) wanted then day else later

abbrev first_of_wanted : List ℕ → IsoDate → IsoDate
first_of_wanted [] from = from
first_of_wanted (d ∷ wanted) from = first_wanted 7 0 from (d ∷ wanted)

abbrev first_of_byday : Option Text → IsoDate → IsoDate
first_of_byday none from = from
first_of_byday (some []) from = from
first_of_byday (some (c ∷ byday)) from = first_of_wanted (wanted_days (split 44 (c ∷ byday))) from

unfoldable pub first_occurrence_on_or_after : String → IsoDate → IsoDate
unfolding byday_of wanted_days first_wanted
first_occurrence_on_or_after rrule from = first_of_byday (byday_of (split 59 (codes rrule))) from
