-- ===== src/Sync/Apply/Objects.antt =====
-- What the commands of packages/sync-client/src/apply.ts share: the context, and the assignments to
-- the fields of one object.
use balu_todo.Prelude.{String, Bool, true, false, Option, none, some, or_else, if◌then◌else◌}
use balu_todo.Dict.{Dict, get, set}
use balu_todo.Domain.Types.{IsoDate, SyncBase, Synced}

-- `now` and `today` are what the two functions of the context return.
pub record ApplyContext : Type 0 where
  pub workspace_id : String
  pub user_id : String
  pub now : String
  pub today : IsoDate

-- The envelope of a new object.
abbrev pub new_base : ApplyContext → String → SyncBase
new_base ctx id = record {
  id = id;
  workspace_id = ctx.workspace_id;
  created_at = ctx.now;
  updated_at = ctx.now;
  is_deleted = false;
}

module _ {A : Type 0} ⦃s : Synced A⦄ where
  -- x.updated_at = now
  abbrev pub touch : String → A → A
  touch now x = s.set_base (record (s.base x) { updated_at = now }) x

  -- x.is_deleted = true; x.updated_at = now
  abbrev pub remove : String → A → A
  remove now x = s.set_base (record (s.base x) { is_deleted = true; updated_at = now }) x

  -- if (test(x)) { x.is_deleted = true; x.updated_at = now; }
  abbrev pub remove_if : (A → Bool) → String → A → A
  remove_if test now x = if test x then remove now x else x

-- One key of `patch`: an absent key leaves the field alone.
abbrev pub patched {ℓ} : {A : Type ℓ} → Option A → A → A
patched given old = or_else given old

-- const x = m.get(id); if (x) x = f(x), an assignment to the fields of the object `x`.
unfoldable pub amend {ℓ} : {A : Type ℓ} → String → (A → A) → Dict A → Dict A
amend id f m = elim (get id m) [ none ↦ m | some x ↦ set id (f x) m ]
