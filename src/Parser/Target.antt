-- ===== src/Parser/Target.antt =====
-- packages/nl-parser/src/target.ts: where quick-add files a new task.
pub mod Laws
use balu_todo.Prelude.{
  String, Bool, true, false, not, ◌&&◌, ◌==◌, Option, none, some, List, [], ◌∷◌, is_some, or_else,
  if◌then◌else◌,
}
use balu_todo.Dict.{Dict, get}

pub record TargetProject : Type 0 where
  pub id : String
  pub is_deleted : Bool
  pub archived_at : Option String

-- `ComposeContext` of compose.ts
pub data ComposeContext : Type 0 where
  in_project : String → ComposeContext
  in_list : String → ComposeContext
  nowhere : ComposeContext

pub record QuickAddTarget : Type 0 where
  pub context : ComposeContext
  pub redirected : Bool

abbrev pub can_quick_add_into : Option TargetProject → Bool → Bool
can_quick_add_into none writable = false
can_quick_add_into (some project) writable =
    writable && not project.is_deleted && not (is_some project.archived_at)

unfoldable pub resolve_project_id : Dict String → String → String
resolve_project_id aliases id = or_else (get id aliases) id

-- `projects.find((p) => p.id === projectId)`
unfoldable pub find_project : String → List TargetProject → Option TargetProject
find_project id [] = none
find_project id (p ∷ projects) = if p.id == id then some p else find_project id projects

abbrev pub target_of : Option TargetProject → String → Bool → QuickAddTarget
target_of project id confirmed =
    if not (is_some project) && not confirmed
    then record { context = in_project id; redirected = false }
    else if can_quick_add_into project true
    then record { context = in_project id; redirected = false }
    else record { context = in_list "inbox"; redirected = true }

unfoldable pub resolve_quick_add_context :
    ComposeContext → List TargetProject → Dict String → Bool → QuickAddTarget
unfolding resolve_project_id find_project
resolve_quick_add_context (in_project id) projects aliases confirmed =
    let id' = resolve_project_id aliases id in target_of (find_project id' projects) id' confirmed
resolve_quick_add_context context projects aliases confirmed = record {
  context = context;
  redirected = false;
}
