-- ===== src/Sync/Apply/Labels.antt =====
-- The label, comment and attachment commands of packages/sync-client/src/apply.ts.
use balu_todo.Prelude.{String, not, map, ◌==◌, or_else, filter, member, if◌then◌else◌}
use balu_todo.Dict.{set, values, each}
use balu_todo.Domain.Types.{
  Task, Label, Comment, Args, label_synced, task_synced, comment_synced, attachment_synced,
}
use balu_todo.Domain.Order.{next_sort_order}
use balu_todo.Sync.Replica.{Replica}
use balu_todo.Sync.Apply.Objects.{ApplyContext, new_base, touch, remove, patched, amend}

module _ (ctx : ApplyContext) (id : String) where
  unfoldable pub label_add : Args → Replica → Replica
  label_add a r =
      let siblings = filter (λ (l : Label). not l.is_deleted) (values r.labels) in
      let label : Label = record {
        base = new_base ctx id;
        name = or_else a.name "";
        color = or_else a.color "slate";
        sort_order = or_else a.sort_order (next_sort_order (map (λ l. l.sort_order) siblings));
      } in
      record r { labels = set id label r.labels }

  unfoldable pub patch_label : Args → Label → Label
  patch_label a l = touch ctx.now (record l {
    name = patched a.name l.name;
    color = patched a.color l.color;
    sort_order = patched a.sort_order l.sort_order;
  })

  unfoldable pub label_update : Args → Replica → Replica
  unfolding patch_label
  label_update a r = record r { labels = amend id (patch_label a) r.labels }

  unfoldable pub unlabel : Task → Task
  unlabel t =
      if member id t.label_ids
      then touch ctx.now (record t { label_ids = filter (λ x. not (x == id)) t.label_ids })
      else t

  unfoldable pub label_delete : Replica → Replica
  unfolding unlabel
  label_delete r = record r {
    labels = amend id (remove ctx.now) r.labels;
    tasks = each unlabel r.tasks;
  }

  unfoldable pub comment_add : Args → Replica → Replica
  comment_add a r =
      let comment : Comment = record {
        base = new_base ctx id;
        task_id = or_else a.task_id "";
        author_id = ctx.user_id;
        body = or_else a.body "";
      } in
      record r { comments = set id comment r.comments }

  unfoldable pub patch_comment : Args → Comment → Comment
  patch_comment a c = touch ctx.now (record c { body = patched a.body c.body })

  unfoldable pub comment_update : Args → Replica → Replica
  unfolding patch_comment
  comment_update a r = record r { comments = amend id (patch_comment a) r.comments }

  unfoldable pub comment_delete : Replica → Replica
  comment_delete r = record r { comments = amend id (remove ctx.now) r.comments }

  unfoldable pub attachment_delete : Replica → Replica
  attachment_delete r = record r { attachments = amend id (remove ctx.now) r.attachments }
