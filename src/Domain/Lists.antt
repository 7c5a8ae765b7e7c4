-- ===== src/Domain/Lists.antt =====
-- The smart lists of packages/domain/src/taskLists.ts: which tasks they show. Their orders are not
-- modelled.
pub mod Cover
pub mod Select
mod Tests
use balu_todo.Prelude.{
  String, Bool, true, false, not, ◌&&◌, ◌||◌, Option, none, some, ltb, leb, same, is_some,
  if◌then◌else◌,
}
use balu_todo.Domain.Types.{Task, IsoDate}

unfoldable pub is_open : Task → Bool
is_open t = not (is_some t.completed_at) && not t.is_deleted

abbrev pub is_top_level : Task → Bool
is_top_level t = not (is_some t.parent_task_id)

-- `d != null && d <= today`, and `d != null && d > today`
abbrev pub by_today : Option IsoDate → IsoDate → Bool
by_today none day = false
by_today (some d) day = leb d day

abbrev pub past_today : Option IsoDate → IsoDate → Bool
past_today none day = false
past_today (some d) day = ltb day d

unfoldable pub is_inbox : Task → IsoDate → Bool
unfolding is_open
is_inbox t day = is_open t && not (is_some t.project_id) && not t.someday && is_top_level t

unfoldable pub is_today : Task → IsoDate → Bool
unfolding is_open
is_today t day =
    if not (is_open t) || t.someday || not (is_top_level t)
    then false
    else by_today t.start_date day || by_today t.deadline day

unfoldable pub is_upcoming : Task → IsoDate → Bool
unfolding is_open
is_upcoming t day =
    if not (is_open t) || not (is_top_level t)
    then false
    else past_today t.start_date day || past_today t.deadline day

unfoldable pub is_anytime : Task → IsoDate → Bool
unfolding is_open
is_anytime t day =
    is_open t
    && not t.someday
    && not (is_some t.start_date)
    && is_some t.project_id
    && is_top_level t

unfoldable pub is_someday : Task → IsoDate → Bool
unfolding is_open
is_someday t day = is_open t && t.someday && is_top_level t

unfoldable pub is_logbook : Task → IsoDate → Bool
is_logbook t day = is_some t.completed_at && not t.is_deleted && is_top_level t

unfoldable pub is_assigned_to_me : Task → Option String → Bool
unfolding is_open
is_assigned_to_me t user_id =
    is_open t && is_top_level t && is_some user_id && same t.assigned_to user_id

pub data SmartList : Type 0 where
  inbox today upcoming anytime someday logbook assigned : SmartList

unfoldable pub matches_list : Task → SmartList → IsoDate → Option String → Bool
unfolding is_inbox is_today is_upcoming is_anytime is_someday is_logbook is_assigned_to_me
matches_list t inbox day user_id = is_inbox t day
matches_list t today day user_id = is_today t day
matches_list t upcoming day user_id = is_upcoming t day
matches_list t anytime day user_id = is_anytime t day
matches_list t someday day user_id = is_someday t day
matches_list t logbook day user_id = is_logbook t day
matches_list t assigned day user_id = is_assigned_to_me t user_id
