-- ===== src/Domain/Relocation.antt =====
-- packages/domain/src/relocation.ts: the notice for tasks that the server filed elsewhere.
pub mod Laws
use balu_todo.Prelude.{
  String, Bool, true, false, ◌==◌, Option, none, some, List, [], ◌∷◌, if◌then◌else◌,
}

pub data RelocationNotice : Type 0 where
  inbox project top_level mixed : RelocationNotice

-- BY_FIRST_REASON, and the notice for a reason that it lacks.
unfoldable pub by_first_reason : List String → RelocationNotice
by_first_reason [] = mixed
by_first_reason (first ∷ reasons) =
    if first == "project_deleted"
    then inbox
    else if first == "section_deleted"
    then project
    else if first == "parent_deleted"
    then top_level
    else mixed

abbrev pub same_notice : RelocationNotice → RelocationNotice → Bool
same_notice inbox inbox = true
same_notice project project = true
same_notice top_level top_level = true
same_notice mixed mixed = true
same_notice a b = false

-- The loop, with the notice so far.
unfoldable pub notice_from : Option RelocationNotice → List (List String) → Option RelocationNotice
notice_from notice [] = notice
notice_from none (reasons ∷ lists) = notice_from (some (by_first_reason reasons)) lists
notice_from (some notice) (reasons ∷ lists) =
    let rest = notice_from (some notice) lists in
    if same_notice notice (by_first_reason reasons) then rest else some mixed

unfoldable pub relocation_notice : List (List String) → Option RelocationNotice
unfolding notice_from by_first_reason
relocation_notice reason_lists = notice_from none reason_lists
