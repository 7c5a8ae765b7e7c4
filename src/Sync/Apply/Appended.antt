-- ===== src/Sync/Apply/Appended.antt =====
-- The arguments of packages/domain/src/move.ts, run by `task_move` of packages/sync-client/src/apply.ts.
use mathlib.Core.Path.{subst}
use balu_todo.Prelude.{
  String, ◌≡◌, refl, sym, Bool, Bool-cases, inl, inr, true, false, not, Option, none, some, List,
  [], ◌∷◌, map, filter, All, arith, ◌==◌, same, eq_iff, is_some,
}
use balu_todo.Prelude.Int.{ℤ, ltb_ℤ}
use balu_todo.Dict.{Dict, get, values}
use balu_todo.Domain.Types.{Task, Args, no_args, task_synced}
use balu_todo.Domain.Order.{next_sort_order}
use balu_todo.Domain.Order.Append.{next_sort_order-above}
use balu_todo.Domain.Move.{
  MoveTarget, in_target, is_there, container_tasks, siblings_in, move_task_args,
}
use balu_todo.Sync.Replica.{Replica}
use balu_todo.Sync.Replica.Stored.{IsKeyed}
use balu_todo.Sync.Apply.Objects.{ApplyContext}
use balu_todo.Sync.Apply.Amend.{id_of_get}
use balu_todo.Sync.Apply.Tasks.{task_move, patch_move}
use balu_todo.Sync.Apply.Filed.{task_move-IsFiledAs}

-- The task `id` of `r'` is in the target, after each other task of the target in `r`, and these are
-- in `r'` as they were.
pub record IsAppended (id : String) (target : MoveTarget) (r r' : Replica) : Type 0 where
  pub moved :
      (x : Task) × (get id r'.tasks ≡ some x)
      × (x.project_id ≡ target.project_id)
      × (x.section_id ≡ target.section_id)
      × ((k : String) (s : Task)
          → (id == k) ≡ false
          → get k r.tasks ≡ some s
          → in_target target s ≡ true
          → (get k r'.tasks ≡ some s) × (ltb_ℤ s.sort_order x.sort_order ≡ true))

module _ {A : Type 0} (P : ℤ → Type 0) (f : A → ℤ) (p q : A → Bool) where
  first_of_All :
      (x : A) (xs : List A)
      → All P (map f (filter p (filter q (x ∷ xs))))
      → q x ≡ true
      → p x ≡ true
      → P (f x)
  first_of_All x xs h a b = let h' = rw (a, b) at h in h'.0

  rest_of_All :
      (x : A) (xs : List A)
      → All P (map f (filter p (filter q (x ∷ xs))))
      → All P (map f (filter p (filter q xs)))
  rest_of_All x xs h = elim (Bool-cases (q x)) [
    | inr a ↦ rw a at h
    | inl a ↦ elim (Bool-cases (p x)) [
      | inr b ↦ rw (a, b) at h
      | inl b ↦ let h' = rw (a, b) at h in h'.1
    ]
  ]

  get-All :
      (k : String) (m : Dict A) (s : A)
      → All P (map f (filter p (filter q (values m))))
      → get k m ≡ some s
      → q s ≡ true
      → p s ≡ true
      → P (f s)
  unfolding get values
  get-All k [] s h e a b = cc
  get-All k ((j, x) ∷ m) s h e a b = elim (Bool-cases (j == k)) [
    | inl i ↦
        let there : some x ≡ some s = rw i at e in
        let found : x ≡ s = cc in
        subst (λ y. P (f y)) found
          (first_of_All x (values m) h (subst (λ y. q y ≡ true) (sym found) a)
            (subst (λ y. p y ≡ true) (sym found) b))
    | inr i ↦ get-All k m s (rest_of_All x (values m) h) (rw i at e) a b
  ]

is_some-same : (o : Option String) (id : String) → is_some o ≡ false → same o (some id) ≡ false
is_some-same none id h = refl
is_some-same (some p) id h = cc

-- The arguments that the move has.
abbrev pub args_to : Task → MoveTarget → List Task → Args
args_to task target tasks = record (no_args) {
  id = some task.id;
  project_id = some target.project_id;
  section_id = some target.section_id;
  sort_order =
      some (next_sort_order (map (λ (t : Task). t.sort_order) (siblings_in task target tasks)));
}

move_task_args-made :
    (task : Task) (target : MoveTarget) (tasks : List Task) (args : Args)
    → move_task_args task target tasks ≡ some args
    → args ≡ args_to task target tasks
unfolding move_task_args
move_task_args-made task target tasks args made = elim (Bool-cases (is_there task target)) [
  | inl i ↦ let no : none ≡ some args = rw i at made in cc
  | inr i ↦ let yes : some (args_to task target tasks) ≡ some args = rw i at made in cc
]

module _ (ctx : ApplyContext) (task : Task) (target : MoveTarget) (r : Replica) where
  siblings_before :
      (k : String) (s : Task)
      → IsKeyed r.tasks
      → (task.id == k) ≡ false
      → get k r.tasks ≡ some s
      → in_target target s ≡ true
      → ltb_ℤ s.sort_order (
          next_sort_order
            (map (λ (t : Task). t.sort_order) (siblings_in task target (values r.tasks))))
        ≡ true
  unfolding siblings_in container_tasks
  siblings_before k s keyed ne e there =
      get-All
        (λ x.
          ltb_ℤ x (
            next_sort_order
              (map (λ (t : Task). t.sort_order) (siblings_in task target (values r.tasks))))
          ≡ true)
        (λ (t : Task). t.sort_order) (λ (t : Task). not (t.id == task.id)) (in_target target) k
        r.tasks s (next_sort_order-above _) e there
        (ground (arith, eq_iff s.id task.id, eq_iff task.id k, id_of_get k r.tasks s keyed e))

  IsAppended-args_to :
      IsKeyed r.tasks
      → get task.id r.tasks ≡ some task
      → task.parent_task_id ≡ none
      → IsAppended task.id target r (task_move ctx task.id (args_to task target (values r.tasks)) r)
  unfolding patch_move
  IsAppended-args_to keyed e top =
      let m =
        task_move-IsFiledAs ctx task.id (args_to task target (values r.tasks)) r task keyed e
          refl in
      let (x, there, filed, order, alone) = m.top top in
      record {
        moved = (
          x,
          there,
          filed.0,
          filed.1,
          λ k s ne g i. (
            m.others k s ne g (is_some-same s.parent_task_id task.id (ground (arith, i))),
            rw order (siblings_before k s keyed ne g i),
          ),
        );
      }

  -- If the move menu makes arguments for a top-level task of the replica, the move leaves the task in
  -- the target, after every other live top-level task of the target, and these as they were. Each key
  -- of the task map is the id of its task, once.
  pub task_move-IsAppended :
      (args : Args)
      → IsKeyed r.tasks
      → get task.id r.tasks ≡ some task
      → task.parent_task_id ≡ none
      → move_task_args task target (values r.tasks) ≡ some args
      → IsAppended task.id target r (task_move ctx task.id args r)
  task_move-IsAppended args keyed e top made =
      subst (λ a. IsAppended task.id target r (task_move ctx task.id a r))
        (sym (move_task_args-made task target (values r.tasks) args made))
        (IsAppended-args_to keyed e top)
