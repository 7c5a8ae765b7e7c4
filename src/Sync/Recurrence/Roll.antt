-- ===== src/Sync/Recurrence/Roll.antt =====
-- What `rollForward` of packages/sync-client/src/recurrence.ts makes of the dates of a task.
use mathlib.Core.Option
use balu_todo.Prelude.{◌<◌, ◌≡◌, refl, sym, ap, Option, none, some, String, arith, max}
use balu_todo.Prelude.Int.{ℤ}
use balu_todo.Domain.Types.{IsoDate, Instant}
use balu_todo.Sync.Recurrence.{
  next_occurrence, Rolled, roll_forward, roll_start, roll_deadline, roll_undated,
}
use balu_todo.Sync.Recurrence.Next.{next_occurrence-after}

-- The day `o` is there and after `old` and `today`.
abbrev pub IsAfter : IsoDate → IsoDate → Option IsoDate → Type 0
IsAfter old today o = (d : IsoDate) × (o ≡ some d) × (old < d) × (today < d)

-- The date that carries a series: the start, else the deadline, else today.
abbrev pub IsRolled : Option IsoDate → Option IsoDate → IsoDate → Rolled → Type 0
IsRolled (some start) due today x = IsAfter start today x.start_date
IsRolled none (some due) today x = (x.start_date ≡ none) × IsAfter due today x.deadline
IsRolled none none today x = (x.deadline ≡ none) × IsAfter today today x.start_date

map-some :
    {A B : Type 0} (f : A → B) (o : Option A) (y : B)
    → Option.map f o ≡ some y
    → (x : A) × (o ≡ some x) × (f x ≡ y)
map-some f none y e = absurd (cc)
map-some f (some x) y e = (x, refl, let same_value : f x ≡ y = cc in same_value)

-- If completing a recurring task moves it, the date that carries its series (the start, else the
-- deadline, else today) lands after its old day and after today, and a task without a start keeps
-- none if it has a deadline, and gets no deadline if it has none.
pub roll_forward-IsRolled :
    (rrule : String) (start due : Option IsoDate) (reminder : Option Instant) (today : IsoDate)
    (offset : ℤ) (x : Rolled)
    → roll_forward rrule start due reminder today offset ≡ some x
    → IsRolled start due today x
unfolding roll_forward roll_start roll_deadline roll_undated
roll_forward-IsRolled rrule (some s) due reminder today offset x e =
    let got = map-some (roll_start reminder due s) (next_occurrence rrule s (max s today)) x e in
    let later = next_occurrence-after rrule s (max s today) got.0 got.1 in
    (got.0, ap (λ r. r.start_date) (sym got.2), ground (arith, later), ground (arith, later))
roll_forward-IsRolled rrule none (some due) reminder today offset x e =
    let got =
      map-some (roll_deadline reminder due) (next_occurrence rrule due (max due today)) x e in
    let later = next_occurrence-after rrule due (max due today) got.0 got.1 in
    (
      ap (λ r. r.start_date) (sym got.2),
      (got.0, ap (λ r. r.deadline) (sym got.2), ground (arith, later), ground (arith, later)),
    )
roll_forward-IsRolled rrule none none reminder today offset x e =
    let got = map-some (roll_undated reminder offset) (next_occurrence rrule today today) x e in
    let later = next_occurrence-after rrule today today got.0 got.1 in
    (ap (λ r. r.deadline) (sym got.2), (got.0, ap (λ r. r.start_date) (sym got.2), later, later))
