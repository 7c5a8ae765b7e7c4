-- ===== src/App/Reminders/Laws.antt =====
-- Which notifications apps/mobile/src/lib/reminderPlan.ts schedules.
use mathlib.Core.Path.{subst}
use mathlib.Core.List.{Perm}
use balu_todo.Prelude.{
  min, ℕ, Bool, false, not, ◌&&◌, is_some, map, filter, if◌then◌else◌, ◌≡◌, refl, sym, ap, ◌∙◌,
  true, Bool-cases, inl, inr, Option, none, some, List, [], ◌∷◌, ◌++◌, All, take, drop,
  take-append-drop, length-take, All-take, length, ltb, leb, arith,
}
use balu_todo.Prelude.Int.{pos}
use balu_todo.Prelude.Sort.{sort}
use balu_todo.Prelude.Sort.Laws.{sort-perm, sort-IsOrdered, All-sort}
use balu_todo.Prelude.Compare.Laws.{IsSigned-IsComparison, difference-IsSigned}
use balu_todo.Prelude.Compare.Orders.{IsPairwise, IsPairwise-IsOrdered}
use balu_todo.Domain.Types.{Task, Instant, at, unreadable}
use balu_todo.Domain.Lists.{is_open}
use balu_todo.Domain.Projects.{exclude_archived_project_tasks}
use balu_todo.Domain.Projects.Archived.{shown, exclude_archived_project_tasks-shown}
use balu_todo.App.Reminders.{
  DesiredReminder, ReconcileInput, cap_of, fires_at, push, desired, by_fire, reconcile_reminders,
}

-- A task reminds after now, and is neither deleted nor completed.
abbrev is_future : ℕ → Option Instant → Bool
is_future now none = false
is_future now (some (at ms)) = ltb now ms
is_future now (some (unreadable s)) = false

abbrev pub is_due : ℕ → Task → Bool
is_due now t = not t.is_deleted && not (is_some t.completed_at) && is_future now t.reminder_at

abbrev instant_of : Option Instant → ℕ
instant_of none = 0
instant_of (some (at ms)) = ms
instant_of (some (unreadable s)) = 0

abbrev pub reminder_of : ReconcileInput → Task → DesiredReminder
reminder_of input t = record {
  task_id = t.id;
  fire_at_ms = instant_of t.reminder_at;
  title = t.title;
  body = input.render_body t;
}

-- The reminders of the due tasks.
abbrev pub reminders_of : ReconcileInput → List Task → List DesiredReminder
reminders_of input tasks = map (reminder_of input) (filter (is_due input.now_ms) tasks)

-- Of two reminders, the first is no later.
abbrev pub IsSooner : DesiredReminder → DesiredReminder → Type 0
IsSooner a b = leb a.fire_at_ms b.fire_at_ms ≡ true

-- The scheduled reminders, and those for which there was no room.
pub record IsPlanned (input : ReconcileInput) (plan : List DesiredReminder) : Type 0 where
  pub left_out : List DesiredReminder
  pub complete : Perm (plan ++ left_out) (reminders_of input (shown input.tasks input.projects))
  pub soonest : IsPairwise IsSooner (plan ++ left_out)
  pub bounded : length plan ≡ min (cap_of input.cap) (length (plan ++ left_out))
  pub future : All (λ (d : DesiredReminder). ltb input.now_ms d.fire_at_ms ≡ true) plan

module _ (input : ReconcileInput) where
  abbrev IsFuture : DesiredReminder → Type 0
  IsFuture d = ltb input.now_ms d.fire_at_ms ≡ true

  push-IsFuture :
      (task : Task) (o : Option Instant) (rest : List DesiredReminder)
      → All IsFuture rest
      → All IsFuture (push input task (fires_at input.now_ms o) rest)
  push-IsFuture task none rest h = h
  push-IsFuture task (some (unreadable s)) rest h = h
  push-IsFuture task (some (at ms)) rest h = elim (Bool-cases (leb ms input.now_ms)) [
    | inl q ↦ rw q h
    | inr q ↦ rw q (ground (arith, q), h)
  ]

  desired-IsFuture : (tasks : List Task) → All IsFuture (desired input tasks)
  unfolding desired
  desired-IsFuture [] = tt
  desired-IsFuture (task ∷ tasks) = elim (Bool-cases (is_open task)) [
    | inl q ↦
        rw q (push-IsFuture task task.reminder_at (desired input tasks) (desired-IsFuture tasks))
    | inr q ↦ rw q (desired-IsFuture tasks)
  ]

  push-reminder_of :
      (task : Task) (o : Option Instant) (rest : List Task)
      → task.reminder_at ≡ o
      → push input task (fires_at input.now_ms o) (map (reminder_of input) rest)
        ≡ map (reminder_of input) (if is_future input.now_ms o then task ∷ rest else rest)
  push-reminder_of task none rest e = refl
  push-reminder_of task (some (unreadable s)) rest e = refl
  push-reminder_of task (some (at ms)) rest e =
      let same_instant : instant_of task.reminder_at ≡ ms = rw e in
      elim (Bool-cases (leb ms input.now_ms)) [
        | inl q ↦ let past : ltb input.now_ms ms ≡ false = ground (arith, q) in rw (q, past)
        | inr q ↦
            let later : ltb input.now_ms ms ≡ true = ground (arith, q) in
            rw (q, later, same_instant)
      ]

  desired-reminders_of : (tasks : List Task) → desired input tasks ≡ reminders_of input tasks
  unfolding desired is_open
  desired-reminders_of [] = refl
  desired-reminders_of (task ∷ tasks) =
      rw (desired-reminders_of tasks) (elim (Bool-cases (is_open task)) [
        | inl q ↦
            let due : is_due input.now_ms task ≡ is_future input.now_ms task.reminder_at =
              ground (arith, q) in
            rw (q, due)
              (push-reminder_of task task.reminder_at (filter (is_due input.now_ms) tasks) refl)
        | inr q ↦ let left : is_due input.now_ms task ≡ false = ground (arith, q) in rw (q, left)
      ])

  IsPlanned-sort :
      (ds : List DesiredReminder)
      → ds ≡ desired input (shown input.tasks input.projects)
      → ds ≡ reminders_of input (shown input.tasks input.projects)
      → IsPlanned input (take (cap_of input.cap) (sort by_fire ds))
  IsPlanned-sort ds e r =
      let whole = take-append-drop (cap_of input.cap) (sort by_fire ds) in
      record {
        left_out = drop (cap_of input.cap) (sort by_fire ds);
        complete =
            subst (λ l. Perm l (reminders_of input (shown input.tasks input.projects))) (sym whole)
              (subst (λ l. Perm (sort by_fire ds) l) r (sort-perm by_fire ds));
        soonest = subst (IsPairwise IsSooner) (sym whole) (
            IsPairwise-IsOrdered IsSooner by_fire (λ a b h. ground (arith, h)) (sort by_fire ds)
              (sort-IsOrdered by_fire
                (IsSigned-IsComparison by_fire
                  (difference-IsSigned (λ (d : DesiredReminder). pos d.fire_at_ms)))
                ds));
        bounded =
            length-take (cap_of input.cap) (sort by_fire ds)
            ∙ ap (λ l. min (cap_of input.cap) (length l)) (sym whole);
        future = All-take IsFuture (cap_of input.cap) (sort by_fire ds) (
            All-sort by_fire IsFuture ds
              (subst (All IsFuture) (sym e) (desired-IsFuture (shown input.tasks input.projects))));
      }

-- The plan and the reminders left out are together those of the tasks that are neither deleted nor
-- completed, lie outside archived projects and remind after now, each with its instant and text; the
-- plan has the soonest, in their order, and as many as the cap allows.
pub reconcile_reminders-IsPlanned :
    (input : ReconcileInput) → IsPlanned input (reconcile_reminders input)
unfolding reconcile_reminders
reconcile_reminders-IsPlanned input =
    IsPlanned-sort input (desired input (exclude_archived_project_tasks input.tasks input.projects))
      (ap (desired input) (exclude_archived_project_tasks-shown input.tasks input.projects))
      (ap (desired input) (exclude_archived_project_tasks-shown input.tasks input.projects)
        ∙ desired-reminders_of input (shown input.tasks input.projects))
