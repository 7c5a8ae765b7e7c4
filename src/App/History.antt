-- ===== src/App/History.antt =====
-- apps/web/src/lib/historyOp.ts and `buildAppUrl` of url.ts, and how useUrlSync.ts carries out their
-- decision on the browser's history.
-- `encodeURIComponent` is the parameter `encode`; `parse` is `parseAppUrl`, of which only a value for
-- the current URL is used. The entries ahead of the current one are not modelled.
pub mod Entries
use Prim.Native.String.{◌++◌}
use balu_todo.Prelude.{
  String, Bool, true, false, not, ◌==◌, Option, none, some, List, [], ◌∷◌, is_some, or_else, same,
  truthy, if◌then◌else◌,
}
use balu_todo.Domain.Lists.{SmartList, inbox, today, upcoming, anytime, someday, logbook, assigned}

pub data ViewSel : Type 0 where
  in_list : SmartList → ViewSel
  in_project : String → ViewSel
  in_settings : ViewSel

pub record AppRoute : Type 0 where
  pub view : ViewSel
  pub task_id : Option String
  pub fullscreen_task_id : Option String

abbrev list_name : SmartList → String
list_name inbox = "inbox"
list_name today = "today"
list_name upcoming = "upcoming"
list_name anytime = "anytime"
list_name someday = "someday"
list_name logbook = "logbook"
list_name assigned = "assigned"

pub data HistoryOp : Type 0 where
  keep push replace back replace_reader : HistoryOp

-- An entry of the history, with the `under` of its marker if it is a reader's.
pub record Entry : Type 0 where
  pub url : String
  pub under : Option String

pub record History : Type 0 where
  pub here : Entry
  pub below : List Entry

module _ (encode : String → String) where
  abbrev pub path_of : ViewSel → String
  path_of in_settings = "/settings"
  path_of (in_project id) = "/project/" ++ encode id
  path_of (in_list list) = "/" ++ list_name list

  abbrev pub with_task : ViewSel → Option String → String
  with_task in_settings task = "/settings"
  with_task view none = path_of view
  with_task view (some task) = path_of view ++ "?task=" ++ encode task

  abbrev pub url_for : ViewSel → Option String → Option String → String
  url_for view task (some id) = "/task/" ++ encode id
  url_for view task none = with_task view task

  unfoldable pub build_app_url : AppRoute → String
  build_app_url r = url_for r.view (truthy r.task_id) (truthy r.fullscreen_task_id)

  -- The path of a view, without a task.
  abbrev pub view_url : ViewSel → String
  view_url view = build_app_url (record { view = view; task_id = none; fullscreen_task_id = none })

  module _ (parse : String → Option AppRoute) where
    abbrev pub is_reader : Option AppRoute → Bool
    is_reader none = false
    is_reader (some r) = is_some r.fullscreen_task_id

    abbrev pub path_changed : Option AppRoute → AppRoute → Bool
    path_changed none r = false
    path_changed (some current) r = not (view_url current.view == view_url r.view)

    abbrev pub transition : AppRoute → Bool → Entry → Bool → Bool → HistoryOp
    transition r replace_next here true false =
        if same here.under (some (build_app_url r)) then back else replace
    transition r replace_next here true true =
        if is_some here.under then replace_reader else replace
    transition r replace_next here false is_open =
        if replace_next
        then replace
        else if is_open
        then push
        else if path_changed (parse here.url) r
        then push
        else replace

    -- `r` is the state that the URL is to show.
    unfoldable pub decide_history_op : AppRoute → Bool → Entry → HistoryOp
    unfolding build_app_url
    decide_history_op r replace_next here =
        if build_app_url r == here.url
        then keep
        else if not (is_some (parse here.url))
        then replace
        else transition r replace_next here (is_reader (parse here.url))
            (is_some r.fullscreen_task_id)

    abbrev pub marker_for : AppRoute → String → Option String
    marker_for r url = if is_some (truthy r.fullscreen_task_id) then some url else none

    abbrev pub pop : History → History
    pop h = elim h.below [ [] ↦ h | ◌∷◌ e rest ↦ record { here = e; below = rest } ]

    -- The calls of `history` in the effect of useUrlSync.ts.
    unfoldable pub carry_out : AppRoute → HistoryOp → History → History
    carry_out r keep h = h
    carry_out r push h = record {
      here = record { url = build_app_url r; under = marker_for r h.here.url };
      below = h.here ∷ h.below;
    }
    carry_out r replace h = record h { here = record { url = build_app_url r; under = none } }
    carry_out r back h = pop h
    carry_out r replace_reader h = record h {
      here = record { url = build_app_url r; under = some (or_else h.here.under "") };
    }

    unfoldable pub sync_url : AppRoute → Bool → History → History
    unfolding decide_history_op carry_out
    sync_url r replace_next h = carry_out r (decide_history_op r replace_next h.here) h
