-- ===== src/Domain/Memberships.antt =====
-- packages/domain/src/memberships.ts: the workspace that is opened at boot.
pub mod Picked
use balu_todo.Prelude.{
  String, ◌==◌, Option, none, some, List, [], ◌∷◌, or_maybe, truthy, if◌then◌else◌,
}
use balu_todo.Domain.Types.{Role}

pub record Workspace : Type 0 where
  pub id : String
  pub name : String
  pub created_at : String

pub record Membership : Type 0 where
  pub workspace : Workspace
  pub role : Role

-- `memberships.find((m) => m.workspace.id === id)`
unfoldable pub find_membership : String → List Membership → Option Membership
find_membership id [] = none
find_membership id (m ∷ memberships) =
    if m.workspace.id == id then some m else find_membership id memberships

-- One round of the loop over the wanted ids.
abbrev pub wanted : Option String → List Membership → Option Membership
wanted none memberships = none
wanted (some id) memberships = find_membership id memberships

abbrev pub first_membership : List Membership → Option Membership
first_membership [] = none
first_membership (m ∷ memberships) = some m

unfoldable pub pick_membership : List Membership → Option String → Option String → Option Membership
unfolding find_membership
pick_membership memberships preferred_id last_used_id =
    or_maybe (wanted (truthy preferred_id) memberships)
      (or_maybe (wanted (truthy last_used_id) memberships) (first_membership memberships))
