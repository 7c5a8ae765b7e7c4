-- ===== src/Domain/Threads/Laws.antt =====
-- The threads of packages/domain/src/comments.ts and their counts.
use mathlib.Core.List.{Perm}
use balu_todo.Prelude.{ℕ, String, ◌≡◌, List, filter, length, or_else}
use balu_todo.Prelude.Sort.Laws.{IsOrdered}
use balu_todo.Dict.{Dict, get}
use balu_todo.Domain.Types.{Comment}
use balu_todo.Domain.Threads.{compare_comment_asc, is_comment_of}

-- The thread of a task in order, and the count of the row.
pub record IsThread (comments : List Comment) (task_id : String) (thread : List Comment)
    (counts : Dict ℕ) : Type 0 where
  pub complete : Perm thread (filter (is_comment_of task_id) comments)
  pub ordered : IsOrdered compare_comment_asc thread
  pub count : or_else (get task_id counts) 0 ≡ length thread
