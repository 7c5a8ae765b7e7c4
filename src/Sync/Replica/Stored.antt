-- ===== src/Sync/Replica/Stored.antt =====
-- The stored form of the replica (packages/sync-client/src/replica.ts), and its keys.
use mathlib.Core.List.{append-nil, append_assoc}
use balu_todo.Prelude.{
  String, ◌≡◌, refl, sym, ap, ◌∙◌, false, [], ◌∷◌, ◌++◌, arith, ◌==◌, eq_iff, All, All-append,
}
use balu_todo.Dict.{Dict, set, delete, values, each}
use balu_todo.Domain.Types.{
  Synced, project_synced, section_synced, task_synced, label_synced, comment_synced,
  attachment_synced, member_synced,
}
use balu_todo.Sync.Replica.{Replica, serialize_replica, set_all, hydrate_replica}

module _ {A : Type 0} where
  -- No entry of `m` has the key `k`.
  abbrev pub Fresh : String → Dict A → Type 0
  Fresh k m = All (λ e. (e.0 == k) ≡ false) m

  -- No key of `m` is a key of `n`.
  abbrev Apart : Dict A → Dict A → Type 0
  Apart n m = All (λ e. Fresh e.0 n) m

  set-Fresh : (k : String) (x : A) (m : Dict A) → Fresh k m → set k x m ≡ m ++ (k, x) ∷ []
  unfolding set
  set-Fresh k x [] h = refl
  set-Fresh k x ((j, y) ∷ m) (ne, h) = ground (arith, set-Fresh k x m h)

  Apart-nil : (m : Dict A) → Apart [] m
  Apart-nil [] = tt
  Apart-nil (e ∷ m) = (tt, Apart-nil m)

  Apart-append :
      (k : String) (x : A) (n m : Dict A) → Apart n m → Fresh k m → Apart (n ++ (k, x) ∷ []) m
  Apart-append k x n [] a h = tt
  Apart-append k x n ((j, y) ∷ m) (f, a) (ne, h) = (
    All-append _ n ((k, x) ∷ []) f (ground (arith, eq_iff k j, eq_iff j k), tt),
    Apart-append k x n m a h,
  )

  Fresh-set :
      (j k : String) (x : A) (m : Dict A) → (k == j) ≡ false → Fresh j m → Fresh j (set k x m)
  unfolding set
  Fresh-set j k x [] ne h = (ne, tt)
  Fresh-set j k x ((i, y) ∷ m) ne (p, h) = ground (arith, Fresh-set j k x m ne h)

  Fresh-delete : (j k : String) (m : Dict A) → Fresh j m → Fresh j (delete k m)
  unfolding delete
  Fresh-delete j k [] h = tt
  Fresh-delete j k ((i, y) ∷ m) (p, h) = ground (arith, Fresh-delete j k m h)

  Fresh-each : (j : String) (f : A → A) (m : Dict A) → Fresh j m → Fresh j (each f m)
  unfolding each
  Fresh-each j f [] h = tt
  Fresh-each j f ((i, y) ∷ m) (p, h) = (p, Fresh-each j f m h)

module _ {A : Type 0} ⦃s : Synced A⦄ where
  -- Each key is the id of its object, and stands once.
  abbrev pub IsKeyed : Dict A → Type 0
  IsKeyed [] = Unit
  IsKeyed ((k, x) ∷ m) = (k ≡ (s.base x).id) × Fresh k m × IsKeyed m

  set_all-values : (n m : Dict A) → Apart n m → IsKeyed m → set_all n (values m) ≡ n ++ m
  unfolding set_all values
  set_all-values n [] a h = sym (append-nil n)
  set_all-values n ((k, x) ∷ m) (f, a) (e, g, h) =
      ap (λ d. set_all d (values m)) (ap (λ i. set i x n) (sym e) ∙ set-Fresh k x n f)
      ∙ set_all-values (n ++ (k, x) ∷ []) m (Apart-append k x n m a g) h
      ∙ append_assoc n ((k, x) ∷ []) m

  pub set_all-values_nil : (m : Dict A) → IsKeyed m → set_all [] (values m) ≡ m
  set_all-values_nil m h = set_all-values [] m (Apart-nil m) h

  pub IsKeyed-set :
      (k : String) (x : A) (m : Dict A) → k ≡ (s.base x).id → IsKeyed m → IsKeyed (set k x m)
  unfolding set
  IsKeyed-set k x [] e h = (e, tt, tt)
  IsKeyed-set k x ((j, y) ∷ m) e (p, f, h) =
      ground (arith, eq_iff j k, eq_iff k j, IsKeyed-set k x m e h, Fresh-set j k x m)

  pub IsKeyed-delete : (k : String) (m : Dict A) → IsKeyed m → IsKeyed (delete k m)
  unfolding delete
  IsKeyed-delete k [] h = tt
  IsKeyed-delete k ((j, y) ∷ m) (p, f, h) =
      ground (arith, IsKeyed-delete k m h, Fresh-delete j k m f)

  pub IsKeyed-each :
      (f : A → A) (m : Dict A)
      → ((x : A) → (s.base (f x)).id ≡ (s.base x).id)
      → IsKeyed m
      → IsKeyed (each f m)
  unfolding each
  IsKeyed-each f [] keep h = tt
  IsKeyed-each f ((k, x) ∷ m) keep (p, g, h) =
      (p ∙ sym (keep x), Fresh-each k f m g, IsKeyed-each f m keep h)

pub record IsKeyedReplica (r : Replica) : Type 0 where
  pub projects : IsKeyed r.projects
  pub sections : IsKeyed r.sections
  pub tasks : IsKeyed r.tasks
  pub labels : IsKeyed r.labels
  pub comments : IsKeyed r.comments
  pub attachments : IsKeyed r.attachments
  pub members : IsKeyed r.members

-- Reading back what was stored gives the replica, entries and their order included, if every key of
-- it is the id of its object and stands once.
pub hydrate_replica-serialize_replica :
    (r : Replica) → IsKeyedReplica r → hydrate_replica (serialize_replica r) ≡ r
unfolding hydrate_replica serialize_replica
hydrate_replica-serialize_replica r h = rw (
  set_all-values_nil r.projects h.projects,
  set_all-values_nil r.sections h.sections,
  set_all-values_nil r.tasks h.tasks,
  set_all-values_nil r.labels h.labels,
  set_all-values_nil r.comments h.comments,
  set_all-values_nil r.attachments h.attachments,
  set_all-values_nil r.members h.members,
)
