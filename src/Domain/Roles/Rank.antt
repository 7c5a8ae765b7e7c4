-- ===== src/Domain/Roles/Rank.antt =====
-- The role rules of packages/domain/src/roles.ts, for each actor.
use balu_todo.Prelude.{◌≡◌, refl, Bool, true, false, Option, none, some, All, []}
use balu_todo.Prelude.Int.{leb_ℤ}
use balu_todo.Domain.Types.{Role, owner, admin, member, viewer}
use balu_todo.Domain.Roles.{
  rank_of, can_write, can_manage_members, can_remove_member, can_change_member_role,
  assignable_roles,
}

-- The rules for one actor.
pub record IsRanked (actor : Option Role) : Type 0 where
  pub assigns :
      All (λ role. leb_ℤ (rank_of (some role)) (rank_of actor) ≡ true) (assignable_roles actor)
  pub assigns_none : can_manage_members actor ≡ false → assignable_roles actor ≡ []
  pub acts_below :
      (target : Role)
      → leb_ℤ (rank_of (some target)) (rank_of actor) ≡ false
      → (can_remove_member actor target false ≡ false)
        × (can_change_member_role actor target false ≡ false)
  pub leaves : (target : Role) → can_remove_member actor target true ≡ true
  pub stays :
      (target : Role) (is_self : Bool)
      → can_manage_members actor ≡ false
      → can_change_member_role actor target is_self ≡ false
  pub writes : can_manage_members actor ≡ true → can_write actor ≡ true

outranked :
    (actor : Option Role) (target : Role)
    → leb_ℤ (rank_of (some target)) (rank_of actor) ≡ false
    → can_manage_members actor ≡ true
    → (can_remove_member actor target false ≡ false)
      × (can_change_member_role actor target false ≡ false)
unfolding can_remove_member can_change_member_role
outranked actor target e m = rw (m, e) (refl, refl)

-- Nobody assigns a role above their own, and who may not manage members assigns none; nobody removes a
-- member above them or changes such a member's role; everybody may leave; who may not manage members
-- changes no role, their own included; and who may manage members may write.
pub assignable_roles-IsRanked : (actor : Option Role) → IsRanked actor
unfolding assignable_roles can_remove_member can_change_member_role can_write
assignable_roles-IsRanked none = record {
  assigns = tt;
  assigns_none = λ e. refl;
  acts_below = λ target e. (refl, refl);
  leaves = λ target. refl;
  stays = λ target is_self e. refl;
  writes = λ e. absurd (cc);
}
assignable_roles-IsRanked (some owner) = record {
  assigns = (refl, (refl, (refl, (refl, tt))));
  assigns_none = λ e. absurd (cc);
  acts_below = λ target e. outranked (some owner) target e refl;
  leaves = λ target. refl;
  stays = λ target is_self e. absurd (cc);
  writes = λ e. refl;
}
assignable_roles-IsRanked (some admin) = record {
  assigns = (refl, (refl, (refl, tt)));
  assigns_none = λ e. absurd (cc);
  acts_below = λ target e. outranked (some admin) target e refl;
  leaves = λ target. refl;
  stays = λ target is_self e. absurd (cc);
  writes = λ e. refl;
}
assignable_roles-IsRanked (some member) = record {
  assigns = tt;
  assigns_none = λ e. refl;
  acts_below = λ target e. (refl, refl);
  leaves = λ target. refl;
  stays = λ target is_self e. refl;
  writes = λ e. absurd (cc);
}
assignable_roles-IsRanked (some viewer) = record {
  assigns = tt;
  assigns_none = λ e. refl;
  acts_below = λ target e. (refl, refl);
  leaves = λ target. refl;
  stays = λ target is_self e. refl;
  writes = λ e. absurd (cc);
}
