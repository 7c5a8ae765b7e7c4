-- ===== src/Sync/Apply/Moved.antt =====
-- `task_move` of packages/sync-client/src/apply.ts, by what its arguments say.
use balu_todo.Prelude.{String, ◌≡◌, false, Option, none, some, ◌==◌, same, or_else}
use balu_todo.Dict.{get}
use balu_todo.Domain.Types.{Task, Args, task_synced}
use balu_todo.Sync.Replica.{Replica}
use balu_todo.Sync.Apply.Filed.{IsFiledWith}

-- The section by a move's arguments for the section and the project: a new project without a section
-- clears it.
abbrev pub section_after :
    Option (Option String) → Option (Option String) → Option String → Option String
section_after (some s) p old = s
section_after none (some p) old = none
section_after none none old = old

-- The task `x` is filed where the arguments `a` send the task `t`.
abbrev pub IsFiledBy : Args → Task → Task → Type 0
IsFiledBy a t x =
    (x.project_id ≡ or_else a.project_id t.project_id)
    × (x.section_id ≡ section_after a.section_id a.project_id t.section_id)

-- What a move of the task `t` promises, of the replica `r'` that it makes of `r`.
pub record IsMoved (id : String) (a : Args) (t : Task) (r r' : Replica) : Type 0 where
  pub under :
      (q : String) (p : Task)
      → or_else a.parent_task_id t.parent_task_id ≡ some q
      → (q == "") ≡ false
      → (id == q) ≡ false
      → get q r.tasks ≡ some p
      → (x : Task) × (get id r'.tasks ≡ some x) × IsFiledWith x p × (x.parent_task_id ≡ some q)
  pub top :
      or_else a.parent_task_id t.parent_task_id ≡ none
      → (x : Task) × (get id r'.tasks ≡ some x)
        × IsFiledBy a t x
        × (x.sort_order ≡ or_else a.sort_order t.sort_order)
        × (x.parent_task_id ≡ none)
  pub subtasks :
      or_else a.parent_task_id t.parent_task_id ≡ none
      → (k : String) (s : Task) → get k r'.tasks ≡ some s
      → s.parent_task_id ≡ some id
      → s.is_deleted ≡ false
      → IsFiledBy a t s
  pub others :
      (k : String) (s : Task)
      → (id == k) ≡ false
      → get k r.tasks ≡ some s
      → same s.parent_task_id (some id) ≡ false
      → get k r'.tasks ≡ some s
