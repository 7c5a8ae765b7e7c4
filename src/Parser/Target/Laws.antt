-- ===== src/Parser/Target/Laws.antt =====
-- The projects that packages/nl-parser/src/target.ts files into.
use balu_todo.Prelude.{String, ◌≡◌, Bool, true, false, not, ◌&&◌, none, some, List, is_some, ◌⊎◌}
use balu_todo.Dict.{Dict}
use balu_todo.Parser.Target.{
  TargetProject, ComposeContext, in_project, in_list, QuickAddTarget, find_project,
  resolve_project_id,
}

-- A project that takes tasks: neither deleted nor archived.
abbrev pub is_taking : TargetProject → Bool
is_taking p = not p.is_deleted && not (is_some p.archived_at)

-- The id is that of a project that takes tasks, or the list is not known to be complete and lacks it.
abbrev pub IsUsable : String → List TargetProject → Bool → Type 0
IsUsable id projects confirmed =
    ((p : TargetProject) × (find_project id projects ≡ some p) × (is_taking p ≡ true))
    ⊎ ((find_project id projects ≡ none) × (confirmed ≡ false))

-- Where a context leads to.
abbrev pub IsTargetOf :
    ComposeContext → List TargetProject → Dict String → Bool → QuickAddTarget → Type 0
IsTargetOf (in_project id) projects aliases confirmed t =
    ((t ≡ record { context = in_project (resolve_project_id aliases id); redirected = false })
      × IsUsable (resolve_project_id aliases id) projects confirmed)
    ⊎ (t ≡ record { context = in_list "inbox"; redirected = true })
IsTargetOf context projects aliases confirmed t =
    t ≡ record { context = context; redirected = false }
