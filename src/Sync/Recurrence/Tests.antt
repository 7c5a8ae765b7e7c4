-- ===== src/Sync/Recurrence/Tests.antt =====
-- Runs of packages/sync-client/src/recurrence.ts and packages/domain/src/dates.ts on the inputs of
-- their own tests.
use balu_todo.Prelude.{◌≡◌, refl, some, []}
use balu_todo.Domain.Types.{at}
use balu_todo.Domain.Dates.{add_months, diff_days}
use balu_todo.Prelude.Int.{pos}
use balu_todo.Sync.Recurrence.Rrule.{Rule, monthly}
use balu_todo.Sync.Recurrence.Roll.{IsRolled, roll_forward-IsRolled}
use balu_todo.Sync.Recurrence.{next_occurrence, roll_forward}

month_end : add_months 20260131 1 ≡ 20260228
unfolding add_months
month_end = refl

biweekly : next_occurrence "FREQ=WEEKLY;INTERVAL=2;BYDAY=TH,MO" 20260720 20260723 ≡ some 20260803
unfolding next_occurrence
biweekly = refl

month_end_recovers : next_occurrence "FREQ=MONTHLY" 20260131 20260228 ≡ some 20260331
unfolding next_occurrence
month_end_recovers = refl

reminder_moves :
    roll_forward "FREQ=DAILY"
      (some 20260723)
      (some 20260724)
      (some (at 86_400_123))
      20260730
      (pos 0)
    ≡ some (record {
      start_date = some 20260731;
      deadline = some 20260801;
      reminder_at = some (at 777_600_000);
    })
unfolding roll_forward next_occurrence diff_days
reminder_moves = refl

abbrev monthly_rule : Rule
monthly_rule = record { freq = monthly; interval = 1; byday = [] }

roll_forward-IsRolled_example : IsRolled (some 20260723) (some 20260724) 20260730 (record {
  start_date = some 20260731;
  deadline = some 20260801;
  reminder_at = some (at 777_600_000);
})
roll_forward-IsRolled_example =
    roll_forward-IsRolled "FREQ=DAILY" (some 20260723) (some 20260724) (some (at 86_400_123))
      20260730 (pos 0) _ reminder_moves
