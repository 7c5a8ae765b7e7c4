-- ===== src/Domain/Tests.antt =====
-- Instances of the theorems about packages/domain/src/comments.ts, relocation.ts,
-- search.ts and memberships.ts.
use balu_todo.Prelude.{String, List, [], ◌∷◌, none, false, refl, ◌≡◌, is_some, some}
use balu_todo.Domain.Types.{Role}
use balu_todo.Domain.Memberships.{Membership, pick_membership}
use balu_todo.Domain.Memberships.Picked.{IsPicked, pick_membership-IsPicked}
use balu_todo.Prelude.Codes.{codes}
use balu_todo.Prelude.Compare.{compare_text}
use balu_todo.Prelude.Compare.Laws.{compare_text-IsSigned}
use balu_todo.Domain.Search.{Language, ReplicaSearchInput, score_units, search_replica}
use balu_todo.Domain.Search.Matches.{is_within, score_units-is_within}
use balu_todo.Domain.Search.Ranked.{IsFound, search_replica-IsFound}
use balu_todo.Domain.Types.{Comment}
use balu_todo.Sync.Samples.{comment_on, task_of}

abbrev three_comments : List Comment
three_comments = comment_on "c" "t" ∷ comment_on "b" "t" ∷ comment_on "d" "u" ∷ []

abbrev two_relocated : List (List String)
two_relocated = ("project_deleted" ∷ []) ∷ ("project_deleted" ∷ "parent_deleted" ∷ []) ∷ []

score_units-is_within_example :
    is_some (score_units (codes "bml") (codes "buy milk"))
    ≡ is_within (codes "bml") (codes "buy milk")
score_units-is_within_example = score_units-is_within (codes "bml") (codes "buy milk")

-- Texts without capitals, compared by their codes.
abbrev plain : Language
plain = record { lower = codes; normalized = codes; locale_compare = compare_text }

abbrev milk_input : ReplicaSearchInput
milk_input = record {
  query = "uy m";
  tasks = task_of "t" none none ∷ task_of "u" none none ∷ [];
  projects = [];
  labels = [];
  include_completed = false;
  include_archived_projects = false;
  cap = none;
}

search_replica-IsFound_example :
    IsFound plain (codes "uy m") milk_input (search_replica plain milk_input).tasks
search_replica-IsFound_example =
    search_replica-IsFound plain (compare_text-IsSigned (λ s. s)) milk_input 117 (codes "y m") refl

abbrev member_of : String → Membership
member_of id = record {
  workspace = record { id = id; name = "Home"; created_at = "2026-07-01T08:00:00Z" };
  role = Role.member;
}

abbrev two_memberships : List Membership
two_memberships = member_of "v" ∷ member_of "w" ∷ []

pick_membership-IsPicked_example :
    IsPicked two_memberships none (some "w") (pick_membership two_memberships none (some "w"))
pick_membership-IsPicked_example = pick_membership-IsPicked two_memberships none (some "w")
