-- ===== src/Sync/Apply/Filed.antt =====
-- `task_move` of packages/sync-client/src/apply.ts: where a task and its subtasks are filed.
use mathlib.Core.Option
use balu_todo.Prelude.{
  String, ◌≡◌, refl, ap, ◌∙◌, inl, inr, false, none, some, arith, ◌==◌, eq_refl, same_iff, same,
  if◌then◌else◌, Bool-cases, Option-cases,
}
use balu_todo.Dict.{Dict, get, set, each}
use balu_todo.Dict.Laws.{get-set, get-each}
use balu_todo.Domain.Types.{Task, Args, task_synced}
use balu_todo.Sync.Replica.{Replica}
use balu_todo.Sync.Replica.Stored.{IsKeyed}
use balu_todo.Sync.Apply.Objects.{ApplyContext, touch}
use balu_todo.Sync.Apply.Tasks.{
  task_move, move_task, patch_move, own_parent, settle, follow_moved, find_parent,
}
use balu_todo.Sync.Apply.Amend.{id_of_get}

-- The task `x` is filed where `y` is.
abbrev pub IsFiledWith : Task → Task → Type 0
IsFiledWith x y = (x.project_id ≡ y.project_id) × (x.section_id ≡ y.section_id)

-- What a move leaves, where `t` is the task as the command's arguments patch it, of the replica
-- `r'` that it makes of `r`.
pub record IsFiledAs (id : String) (t : Task) (r r' : Replica) : Type 0 where
  pub under :
      (q : String) (p : Task)
      → t.parent_task_id ≡ some q
      → (q == "") ≡ false
      → (id == q) ≡ false
      → get q r.tasks ≡ some p
      → (x : Task) × (get id r'.tasks ≡ some x) × IsFiledWith x p × (x.parent_task_id ≡ some q)
  pub top :
      t.parent_task_id ≡ none
      → (x : Task) × (get id r'.tasks ≡ some x)
        × IsFiledWith x t
        × (x.sort_order ≡ t.sort_order)
        × (x.parent_task_id ≡ none)
  pub subtasks :
      t.parent_task_id ≡ none
      → (k : String) (s : Task) → get k r'.tasks ≡ some s
      → s.parent_task_id ≡ some id
      → s.is_deleted ≡ false
      → IsFiledWith s t
  pub others :
      (k : String) (s : Task)
      → (id == k) ≡ false
      → get k r.tasks ≡ some s
      → same s.parent_task_id (some id) ≡ false
      → get k r'.tasks ≡ some s

module _ (ctx : ApplyContext) (id : String) where
  settle_under :
      (t p : Task) (m : Dict Task)
      → find_parent t.parent_task_id m ≡ some p
      → settle ctx id t m
        ≡ set id
            (touch ctx.now (record t { project_id = p.project_id; section_id = p.section_id }))
            m
  unfolding settle
  settle_under t p m e = rw (e, settle)

  settle_top :
      (t : Task) (m : Dict Task)
      → find_parent t.parent_task_id m ≡ none
      → settle ctx id t m ≡ set id (touch ctx.now t) (each (follow_moved ctx id t) m)
  unfolding settle
  settle_top t m e = rw (e, settle)

  get-settle_top :
      (t : Task) (m : Dict Task) (k : String)
      → find_parent t.parent_task_id m ≡ none
      → get k (settle ctx id t m)
        ≡ (if id == k then some (touch ctx.now t) else Option.map (follow_moved ctx id t) (get k m))
  get-settle_top t m k e = rw (settle_top t m e, get-set, get-each)

  get-settle_under :
      (t p : Task) (m : Dict Task) (k : String)
      → find_parent t.parent_task_id m ≡ some p
      → get k (settle ctx id t m) ≡ (
          if id == k
          then some
              (touch ctx.now (record t { project_id = p.project_id; section_id = p.section_id }))
          else get k m)
  get-settle_under t p m k e = rw (settle_under t p m e, get-set)

  no_parent :
      (t : Task) (m : Dict Task) → t.parent_task_id ≡ none → find_parent t.parent_task_id m ≡ none
  unfolding find_parent
  no_parent t m e = rw e

  known_parent :
      (t p : Task) (q : String) (m : Dict Task)
      → t.parent_task_id ≡ some q
      → (q == "") ≡ false
      → get q m ≡ some p
      → find_parent t.parent_task_id m ≡ some p
  unfolding find_parent
  known_parent t p q m e ne g = rw (e, ne) g

  followed :
      (t s : Task)
      → t.id ≡ id
      → (follow_moved ctx id t s).parent_task_id ≡ some id
      → (follow_moved ctx id t s).is_deleted ≡ false
      → IsFiledWith (follow_moved ctx id t s) t
  unfolding follow_moved
  followed t s e p d = ground (
    arith,
    same_iff s.parent_task_id (some id),
    same_iff s.project_id t.project_id,
    same_iff s.section_id t.section_id,
  )

  left :
      (t s : Task)
      → t.id ≡ id
      → same s.parent_task_id (some id) ≡ false
      → follow_moved ctx id t s ≡ s
  unfolding follow_moved
  left t s e p = let p' : same s.parent_task_id (some t.id) ≡ false = rw e p in rw p'

module _ (ctx : ApplyContext) (id : String) (a : Args) (r : Replica) (t : Task) where
  move_some :
      own_parent ctx id a t ≡ false
      → move_task ctx id a (some t) r.tasks
        ≡ settle ctx id (patch_move ctx id a t) (set id (patch_move ctx id a t) r.tasks)
  unfolding move_task
  move_some o = rw o

  task_move_settles :
      get id r.tasks ≡ some t
      → own_parent ctx id a t ≡ false
      → (task_move ctx id a r).tasks
        ≡ settle ctx id (patch_move ctx id a t) (set id (patch_move ctx id a t) r.tasks)
  unfolding task_move
  task_move_settles e o = ap (λ x. move_task ctx id a x r.tasks) e ∙ move_some o

module _ (ctx : ApplyContext) (id : String) (t : Task) (r r' : Replica) (own : t.id ≡ id)
    (e : r'.tasks ≡ settle ctx id t (set id t r.tasks)) where
  -- Without a parent, a task of the outcome is the moved one or comes from the loop over the subtasks.
  get-top :
      (k : String)
      → find_parent t.parent_task_id (set id t r.tasks) ≡ none
      → get k r'.tasks ≡ (
          if id == k
          then some (touch ctx.now t)
          else Option.map (follow_moved ctx id t) (get k r.tasks))
  get-top k h = elim (Bool-cases (id == k)) [
    | inl q ↦ rw (e, get-settle_top ctx id t _ k h, q)
    | inr q ↦ rw (e, get-settle_top ctx id t _ k h, get-set, q)
  ]

  subtasks_follow :
      t.parent_task_id ≡ none
      → (k : String) (s : Task) → get k r'.tasks ≡ some s
      → s.parent_task_id ≡ some id
      → s.is_deleted ≡ false
      → IsFiledWith s t
  subtasks_follow h k s g p d =
      let result = get-top k (no_parent ctx id t _ h) in
      elim (Bool-cases (id == k)) [
        | inl q ↦ ground (arith, result)
        | inr q ↦ elim (Option-cases (get k r.tasks)) [
          | inl gone ↦ ground (arith, result)
          | inr (s0, there) ↦ ground (arith, result, followed ctx id t s0 own)
        ]
      ]

  others_stay :
      (k : String) (s : Task)
      → (id == k) ≡ false
      → get k r.tasks ≡ some s
      → same s.parent_task_id (some id) ≡ false
      → get k r'.tasks ≡ some s
  others_stay k s nk g p = elim (Option-cases (find_parent t.parent_task_id (set id t r.tasks))) [
    | inl none_found ↦ ground (arith, get-top k none_found, left ctx id t s own p)
    | inr (parent, found) ↦ rw (e, get-settle_under ctx id t parent _ k found, nk, get-set, nk) g
  ]

  under_parent :
      (q : String) (p : Task)
      → t.parent_task_id ≡ some q
      → (q == "") ≡ false
      → (id == q) ≡ false
      → get q r.tasks ≡ some p
      → (x : Task) × (get id r'.tasks ≡ some x) × IsFiledWith x p × (x.parent_task_id ≡ some q)
  under_parent q p h ne nq g =
      let there : get q (set id t r.tasks) ≡ some p = rw (get-set, nq) g in
      (
        touch ctx.now (record t { project_id = p.project_id; section_id = p.section_id }),
        rw (
          e,
          get-settle_under ctx id t p _ id (known_parent ctx id t p q _ h ne there),
          eq_refl id,
        ),
        (refl, refl),
        h,
      )

  IsFiledAs-settle : IsFiledAs id t r r'
  IsFiledAs-settle = record {
    under = under_parent;
    top = λ h. (
      touch ctx.now t,
      rw (get-top id (no_parent ctx id t _ h), eq_refl id),
      (refl, refl),
      refl,
      h,
    );
    subtasks = subtasks_follow;
    others = others_stay;
  }

-- The same of the task as the source patches it.
pub task_move-IsFiledAs :
    (ctx : ApplyContext) (id : String) (a : Args) (r : Replica) (t : Task)
    → IsKeyed r.tasks
    → get id r.tasks ≡ some t
    → own_parent ctx id a t ≡ false
    → IsFiledAs id (patch_move ctx id a t) r (task_move ctx id a r)
unfolding patch_move
task_move-IsFiledAs ctx id a r t keyed e o =
    IsFiledAs-settle ctx id (patch_move ctx id a t) r (task_move ctx id a r)
      (id_of_get id r.tasks t keyed e) (task_move_settles ctx id a r t e o)
