-- ===== src/Domain/Lists/Tests.antt =====
-- Instances of the theorems about packages/domain/src/taskLists.ts.
use balu_todo.Prelude.{some, none, List, [], ◌∷◌, ◌≡◌}
use balu_todo.Domain.Types.{Task, Project}
use balu_todo.Domain.Projects.{exclude_archived_project_tasks}
use balu_todo.Domain.Projects.Archived.{shown, exclude_archived_project_tasks-shown}
use balu_todo.Sync.Samples.{task_of, sample_project}
use balu_todo.Domain.Lists.Cover.{IsShown, matches_list-IsShown}

matches_list-IsShown_example : IsShown (task_of "t" (some "p") none) 20260723 (some "ann")
matches_list-IsShown_example =
    matches_list-IsShown (task_of "t" (some "p") none) 20260723 (some "ann")

abbrev two_tasks : List Task
two_tasks = task_of "t" (some "p") none ∷ task_of "u" (some "q") none ∷ []

abbrev one_archived : List Project
one_archived = record (sample_project) { archived_at = some "2026-07-01T08:00:00Z" } ∷ []

exclude_archived_project_tasks-shown_example :
    exclude_archived_project_tasks two_tasks one_archived ≡ shown two_tasks one_archived
exclude_archived_project_tasks-shown_example =
    exclude_archived_project_tasks-shown two_tasks one_archived
