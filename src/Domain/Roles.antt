-- ===== src/Domain/Roles.antt =====
-- The role rules of packages/domain/src/roles.ts.
pub mod Rank
mod Tests
use balu_todo.Prelude.{
  String, Bool, true, false, not, ◌||◌, Option, none, some, List, [], ◌∷◌, same, is_some, ◌&&◌,
  if◌then◌else◌,
}
use balu_todo.Prelude.Int.{ℤ, pos, neg, leb_ℤ}
use balu_todo.Domain.Types.{Role, owner, admin, member, viewer, Comment}

abbrev pub role_rank : Role → ℤ
role_rank viewer = pos 0
role_rank member = pos 1
role_rank admin = pos 2
role_rank owner = pos 3

unfoldable pub rank_of : Option Role → ℤ
rank_of none = neg 1
rank_of (some role) = role_rank role

unfoldable pub can_write : Option Role → Bool
unfolding rank_of
can_write role = leb_ℤ (role_rank member) (rank_of role)

unfoldable pub can_manage_members : Option Role → Bool
unfolding rank_of
can_manage_members role = leb_ℤ (role_rank admin) (rank_of role)

unfoldable pub can_remove_member : Option Role → Role → (is_self : Bool) → Bool
unfolding can_manage_members
can_remove_member actor target is_self =
    if is_self
    then true
    else if not (can_manage_members actor)
    then false
    else leb_ℤ (rank_of (some target)) (rank_of actor)

unfoldable pub can_change_member_role : Option Role → Role → (is_self : Bool) → Bool
unfolding can_manage_members
can_change_member_role actor target is_self =
    if not (can_manage_members actor)
    then false
    else if is_self
    then true
    else leb_ℤ (rank_of (some target)) (rank_of actor)

abbrev is_owner : Option Role → Bool
is_owner (some owner) = true
is_owner role = false

unfoldable pub assignable_roles : Option Role → List Role
unfolding can_manage_members
assignable_roles actor =
    let base = admin ∷ member ∷ viewer ∷ [] in
    if not (can_manage_members actor) then [] else if is_owner actor then owner ∷ base else base

unfoldable pub can_comment : Option Role → Bool
unfolding can_write
can_comment role = can_write role

unfoldable pub can_edit_comment : Comment → Option String → Bool
can_edit_comment comment user_id = is_some user_id && same (some comment.author_id) user_id

unfoldable pub can_delete_comment : Comment → Option String → Option Role → Bool
unfolding can_edit_comment can_manage_members
can_delete_comment comment user_id role =
    can_edit_comment comment user_id || can_manage_members role
