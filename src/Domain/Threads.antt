-- ===== src/Domain/Threads.antt =====
-- packages/domain/src/comments.ts and attachments.ts: the comments and the files of a task.
pub mod Laws
use balu_todo.Prelude.{
  ℕ, ◌+◌, String, Bool, not, ◌&&◌, ◌==◌, List, [], ◌∷◌, filter, or_else, if◌then◌else◌,
}
use balu_todo.Prelude.Int.{ℤ}
use balu_todo.Prelude.Sort.{sort}
use balu_todo.Prelude.Compare.{first_of, compare_text}
use balu_todo.Dict.{Dict, get, set}
use balu_todo.Domain.Types.{Comment, Attachment}

unfoldable pub compare_comment_asc : Comment → Comment → ℤ
compare_comment_asc a b = first_of (compare_text a.created_at b.created_at) (compare_text a.id b.id)

abbrev pub is_comment_of : String → Comment → Bool
is_comment_of task_id c = c.task_id == task_id && not c.is_deleted

unfoldable pub comments_for_task : List Comment → String → List Comment
comments_for_task comments task_id =
    sort compare_comment_asc (filter (is_comment_of task_id) comments)

-- The loop, with the counts so far.
unfoldable pub count_comments : Dict ℕ → List Comment → Dict ℕ
count_comments counts [] = counts
count_comments counts (c ∷ comments) =
    if c.is_deleted
    then count_comments counts comments
    else count_comments (set c.task_id (or_else (get c.task_id counts) 0 + 1) counts) comments

unfoldable pub comment_counts_by_task : List Comment → Dict ℕ
unfolding count_comments
comment_counts_by_task comments = count_comments [] comments

unfoldable pub compare_attachment_asc : Attachment → Attachment → ℤ
compare_attachment_asc a b =
    first_of (compare_text a.created_at b.created_at) (compare_text a.id b.id)

abbrev pub is_attachment_of : String → Attachment → Bool
is_attachment_of task_id a = a.task_id == task_id && not a.is_deleted

unfoldable pub attachments_for_task : List Attachment → String → List Attachment
attachments_for_task attachments task_id =
    sort compare_attachment_asc (filter (is_attachment_of task_id) attachments)
