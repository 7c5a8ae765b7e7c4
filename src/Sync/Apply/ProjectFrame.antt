-- ===== src/Sync/Apply/ProjectFrame.antt =====
-- What `project_delete` of packages/sync-client/src/apply.ts leaves alone.
use balu_todo.Prelude.{
  String, ◌≡◌, Bool, Option, inl, inr, true, false, not, ◌&&◌, ◌||◌, none, some, List, [], ◌∷◌, map,
  arith, ◌==◌, eq_iff, same, Bool-cases, Option-cases, member, filter, All,
}
use balu_todo.Dict.{Dict, get, each, values}
use balu_todo.Domain.Types.{
  Task, Comment, Attachment, task_synced, comment_synced, attachment_synced,
}
use balu_todo.Dict.Laws.{get-each}
use balu_todo.Sync.Apply.Objects.{ApplyContext, remove_if}
use balu_todo.Sync.Apply.Projects.{is_orphan, orphan_pass, in_project, comment_of, attachment_of}

-- A set of ids has the parent, where there is one.
abbrev has_parent : (String → Bool) → Option String → Bool
has_parent outside none = true
has_parent outside (some q) = outside q

-- If the set has the task, it has the parent of the task too, unless the task is deleted.
abbrev is_whole : (String → Bool) → Task → Bool
is_whole outside t = not (outside t.id) || t.is_deleted || has_parent outside t.parent_task_id

-- And if it has the task, the task is not in the project.
abbrev pub is_clear : String → (String → Bool) → Task → Bool
is_clear id outside t =
    is_whole outside t && (not (outside t.id) || not (same t.project_id (some id)))

module _ (outside : String → Bool) (now : String) where
  abbrev IsOut : String → Type 0
  IsOut d = outside d ≡ false

  out_member :
      (dead : List String) (q : String) → All IsOut dead → member q dead ≡ true → outside q ≡ false
  out_member [] q h e = cc
  out_member (d ∷ dead) q (p, h) e =
      ground (arith, eq_iff d q, eq_iff q d, p, out_member dead q h, e)

  orphan_out :
      (dead : List String) (t : Task)
      → All IsOut dead
      → is_whole outside t ≡ true
      → is_orphan dead t ≡ true
      → outside t.id ≡ false
  orphan_out dead t h w o = elim (Option-cases t.parent_task_id) [
    | inl e ↦ let none_found : false ≡ true = rw e at o in cc
    | inr (q, e) ↦
        let found : (member q dead && not t.is_deleted) ≡ true = rw e at o in
        let whole : (not (outside t.id) || t.is_deleted || outside q) ≡ true = rw e at w in
        ground (arith, found, whole, out_member dead q h)
  ]

  pub orphan_pass-IsOut :
      (dead : List String) (m : Dict Task)
      → All IsOut dead
      → All (λ t. is_whole outside t ≡ true) (values m)
      → All IsOut (orphan_pass now dead m).0
  unfolding values orphan_pass
  orphan_pass-IsOut dead [] h w = h
  orphan_pass-IsOut dead ((j, x) ∷ m) h (p, w) = elim (Bool-cases (is_orphan dead x)) [
    | inl o ↦ rw o (orphan_pass-IsOut (x.id ∷ dead) m (orphan_out dead x h p o, h) w)
    | inr o ↦ rw o (orphan_pass-IsOut dead m h w)
  ]

  pub task_out :
      (dead : List String) (m : Dict Task) (k : String) (t : Task)
      → All IsOut dead
      → All (λ t. is_whole outside t ≡ true) (values m)
      → get k m ≡ some t
      → outside t.id ≡ true
      → get k (orphan_pass now dead m).1 ≡ some t
  unfolding values orphan_pass get
  task_out dead [] k t h w e q = cc
  task_out dead ((j, x) ∷ m) k t h (p, w) e q = elim (Bool-cases (is_orphan dead x)) [
    | inl o ↦
        let out = orphan_out dead x h p o in
        elim (Bool-cases (j == k)) [
          | inl s ↦ let here : some x ≡ some t = rw s at e in ground (arith, q, out)
          | inr s ↦ rw (o, s) (task_out (x.id ∷ dead) m k t (out, h) w (rw s at e) q)
        ]
    | inr o ↦ elim (Bool-cases (j == k)) [
      | inl s ↦ rw (o, s) (rw s at e)
      | inr s ↦ rw (o, s) (task_out dead m k t h w (rw s at e) q)
    ]
  ]

module _ (id : String) (outside : String → Bool) (ctx : ApplyContext) where
  pub whole_first_pass :
      (m : Dict Task)
      → All (λ t. is_clear id outside t ≡ true) (values m)
      → All
          (λ t. is_whole outside t ≡ true)
          (values (each (remove_if (in_project ctx id) ctx.now) m))
  unfolding values each
  whole_first_pass [] h = tt
  whole_first_pass ((j, x) ∷ m) (p, h) = (ground (arith, p), whole_first_pass m h)

  pub out_direct :
      (m : Dict Task)
      → All (λ t. is_clear id outside t ≡ true) (values m)
      → All
          (λ d. outside d ≡ false)
          (map (λ (t : Task). t.id) (filter (in_project ctx id) (values m)))
  unfolding values
  out_direct [] h = tt
  out_direct ((j, x) ∷ m) (p, h) = elim (Bool-cases (in_project ctx id x)) [
    | inl q ↦ rw q (ground (arith, p, q), out_direct m h)
    | inr q ↦ rw q (out_direct m h)
  ]

module _ (outside : String → Bool) (now : String) (dead : List String)
    (h : All (λ d. outside d ≡ false) dead) where
  pub comment_out :
      (k : String) (m : Dict Comment) (c : Comment)
      → get k m ≡ some c
      → outside c.task_id ≡ true
      → get k (each (remove_if (comment_of dead) now) m) ≡ some c
  comment_out k m c e q = ground (
    arith,
    get-each (remove_if (comment_of dead) now) k m,
    e,
    q,
    out_member outside now dead c.task_id h,
  )

  pub attachment_out :
      (k : String) (m : Dict Attachment) (c : Attachment)
      → get k m ≡ some c
      → outside c.task_id ≡ true
      → get k (each (remove_if (attachment_of dead) now) m) ≡ some c
  attachment_out k m c e q = ground (
    arith,
    get-each (remove_if (attachment_of dead) now) k m,
    e,
    q,
    out_member outside now dead c.task_id h,
  )

-- The first loop leaves alone what is in no such project.
pub get-first_pass_out :
    (id : String) (outside : String → Bool) (ctx : ApplyContext) (m : Dict Task) (k : String)
    (t : Task)
    → All (λ t. is_clear id outside t ≡ true) (values m)
    → get k m ≡ some t
    → outside t.id ≡ true
    → get k (each (remove_if (in_project ctx id) ctx.now) m) ≡ some t
unfolding values get each
get-first_pass_out id outside ctx [] k t h e q = cc
get-first_pass_out id outside ctx ((j, x) ∷ m) k t (p, h) e q = elim (Bool-cases (j == k)) [
  | inl s ↦ let here : some x ≡ some t = rw s at e in ground (arith, p, q, here, s)
  | inr s ↦ rw s (get-first_pass_out id outside ctx m k t h (rw s at e) q)
]
