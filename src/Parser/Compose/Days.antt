-- ===== src/Parser/Compose/Days.antt =====
-- The day of the reminder that packages/nl-parser/src/compose.ts sets.
use balu_todo.Prelude.{
  ◌≡◌, inl, inr, refl, ap, ◌∙◌, String, Option, none, some, arith, is_some, or_else, or_maybe,
  truthy, Bool-cases,
}
use balu_todo.Domain.Types.{IsoDate}
use balu_todo.Parser.Types.{ParseResult}
use balu_todo.Parser.Compose.{
  TaskArgs, Runtime, Dated, shifted, move_to, is_explicit, to_first, to_next, next_day, dated,
  is_over,
}

-- The arguments differ from `a` in the start date only, which is missing where it is there, and which
-- is the day of the reminder if it was `a`'s.
pub record IsShifted (a : TaskArgs) (d : Dated) : Type 0 where
  pub start_date : Option IsoDate
  pub args : d.args ≡ record a { start_date = start_date }
  pub still : is_some start_date ≡ is_some a.start_date

is_some-shifted :
    (o : Option IsoDate) (day next : IsoDate) → is_some (shifted o day next) ≡ is_some o
is_some-shifted none day next = refl
is_some-shifted (some s) day next = ground arith

-- No start date but the day of the reminder.
abbrev pub IsTogether : Dated → Type 0
IsTogether d = (s : IsoDate) → d.args.start_date ≡ some s → s ≡ d.day

shifted-together :
    (o : Option IsoDate) (day next s : IsoDate)
    → ((s : IsoDate) → o ≡ some s → s ≡ day)
    → shifted o day next ≡ some s
    → s ≡ next
shifted-together none day next s h e = cc
shifted-together (some r) day next s h e = let p : r ≡ day = h r refl in ground (arith, p, e)

module _ (env : Runtime) where
  pub IsTogether-move_to :
      (next : IsoDate) (d : Dated) → IsTogether d → IsTogether (move_to env next d)
  IsTogether-move_to next d h s e = shifted-together d.args.start_date d.day next s h e

  pub IsShifted-move_to :
      (a : TaskArgs) (next : IsoDate) (d : Dated) → IsShifted a d → IsShifted a (move_to env next d)
  IsShifted-move_to a next d h = record {
    start_date = shifted d.args.start_date d.day next;
    args =
        ap (λ (x : TaskArgs). record x { start_date = shifted d.args.start_date d.day next })
          h.args;
    still =
        is_some-shifted d.args.start_date d.day next
        ∙ ap (λ (x : TaskArgs). is_some x.start_date) h.args
        ∙ h.still;
  }

  -- What a move keeps, both adjustments of the day keep.
  module _ (P : Dated → Type 0)
      (keep : (next : IsoDate) (d : Dated) → P d → P (move_to env next d)) where
    to_first-keeps : (o : Option String) (d : Dated) → P d → P (to_first env o d)
    to_first-keeps none d h = h
    to_first-keeps (some rrule) d h = keep _ d h

    to_next-keeps :
        (o : Option String) (today : IsoDate) (time : String) (d : Dated)
        → P d
        → P (to_next env o today time d)
    to_next-keeps o today time d h = elim (Bool-cases (is_over (env.to_utc d.day time) env.now)) [
      | inl q ↦ rw q (keep (next_day env o today d.day) d h)
      | inr q ↦ rw q h
    ]

    pub dated-keeps :
        (result : ParseResult) (today : IsoDate) (time : String) (a : TaskArgs)
        → P (record {
          day = or_else (or_maybe result.start_date (or_maybe result.deadline a.start_date)) today;
          args = a;
        })
        → P (dated env result today time a)
    unfolding dated
    dated-keeps result today time a h = elim (Bool-cases (is_explicit env result)) [
      | inl q ↦ rw q h
      | inr q ↦ rw q (
          to_next-keeps (truthy result.recurrence) today time _
            (to_first-keeps (truthy result.recurrence) _ h))
    ]
