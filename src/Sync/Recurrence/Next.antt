-- ===== src/Sync/Recurrence/Next.antt =====
-- `nextOccurrence` of packages/sync-client/src/recurrence.ts returns a day after its bound.
use balu_todo.Prelude.{
  ◌*◌, ◌-◌, ◌/◌, ◌∙◌, ◌&&◌, ℕ, zero, suc, ◌+◌, ◌<◌, ◌≡◌, inl, inr, Option, none, some, List, [],
  ◌∷◌, String, arith, Bool-cases, Option-cases,
}
use balu_todo.Prelude.Int.{pos}
use balu_todo.Domain.Types.{IsoDate}
use balu_todo.Domain.Dates.{add_days, to_utc}
use balu_todo.Sync.Recurrence.Rrule.{Rule, parse_rrule}
use balu_todo.Sync.Recurrence.{
  nth, start_k, monday_of, scan, scan_limit, beyond, in_week, by_weekday, by_step, is_weekly,
  not_empty, next_by_rule, next_occurrence,
}

-- What the scan finds is what some round finds.
scan-after :
    (after d : IsoDate) (hit : ℕ → Option IsoDate)
    → ((k : ℕ) → hit k ≡ some d → after < d)
    → (rounds first : ℕ) → scan rounds first hit ≡ some d
    → after < d
unfolding scan
scan-after after d hit h zero first e = absurd (cc)
scan-after after d hit h (suc rounds) first e = elim (Option-cases (hit first)) [
  | inl n ↦ scan-after after d hit h rounds (first + 1) (rw (n, scan) at e)
  | inr (c, q) ↦ let found : some c ≡ some d = rw (q, scan) at e in h first (q ∙ found)
]

beyond-after : (after c d : IsoDate) → beyond after c ≡ some d → after < d
unfolding beyond
beyond-after after c d e = ground arith

in_week-after :
    (after week d : IsoDate) (days : List ℕ) → in_week after week days ≡ some d → after < d
unfolding in_week
in_week-after after week d [] e = absurd (cc)
in_week-after after week d (w ∷ days) e =
    elim (Option-cases (beyond after (add_days week (pos w)))) [
      | inl n ↦ in_week-after after week d days (rw (n, in_week) at e)
      | inr (c, q) ↦
          let found : some c ≡ some d = rw (q, in_week) at e in beyond-after after _ d (q ∙ found)
    ]

by_weekday-after :
    (rule : Rule) (anchor after d : IsoDate) → by_weekday anchor rule after ≡ some d → after < d
unfolding by_weekday
by_weekday-after rule anchor after d e =
    scan-after after d _
      (λ k.
        in_week-after after (add_days (monday_of anchor) (pos (7 * rule.interval * k))) d
          rule.byday)
      scan_limit ((to_utc after - to_utc (monday_of anchor)) / (7 * rule.interval)) e

by_step-after :
    (rule : Rule) (anchor after d : IsoDate) → by_step anchor rule after ≡ some d → after < d
unfolding by_step
by_step-after rule anchor after d e =
    scan-after after d _ (λ k. beyond-after after (nth anchor rule k) d) scan_limit
      (start_k anchor rule after) e

next_by_rule-after :
    (o : Option Rule) (anchor after d : IsoDate) → next_by_rule o anchor after ≡ some d → after < d
unfolding next_by_rule
next_by_rule-after none anchor after d e = absurd (cc)
next_by_rule-after (some rule) anchor after d e =
    elim (Bool-cases (is_weekly rule.freq && not_empty rule.byday)) [
      | inl q ↦ by_weekday-after rule anchor after d (rw q at e)
      | inr q ↦ by_step-after rule anchor after d (rw q at e)
    ]

-- The day that `next_occurrence` returns is after the bound.
pub next_occurrence-after :
    (rrule : String) (anchor after d : IsoDate)
    → next_occurrence rrule anchor after ≡ some d
    → after < d
unfolding next_occurrence
next_occurrence-after rrule anchor after d e =
    next_by_rule-after (parse_rrule rrule) anchor after d e
