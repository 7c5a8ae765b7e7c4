-- ===== src/Domain/Roles/Tests.antt =====
-- Instances of the theorems about packages/domain/src/roles.ts.
use balu_todo.Prelude.{some}
use balu_todo.Domain.Types.{admin}
use balu_todo.Domain.Roles.Rank.{IsRanked, assignable_roles-IsRanked}

assignable_roles-IsRanked_example : IsRanked (some admin)
assignable_roles-IsRanked_example = assignable_roles-IsRanked (some admin)
