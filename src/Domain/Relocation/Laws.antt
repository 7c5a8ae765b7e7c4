-- ===== src/Domain/Relocation/Laws.antt =====
-- What the notice of packages/domain/src/relocation.ts says of the tasks.
use balu_todo.Prelude.{String, ◌≡◌, ◌⊎◌, Option, none, some, List, [], ◌∷◌, All}
use balu_todo.Domain.Relocation.{RelocationNotice, mixed, by_first_reason}

-- Each of the tasks landed in a place of that kind.
abbrev pub AreAll : RelocationNotice → List (List String) → Type 0
AreAll k lists = All (λ reasons. by_first_reason reasons ≡ k) lists

-- No notice without a task; a notice that names a place holds of each task; and one place that each
-- task landed in is named.
pub record IsNotice (lists : List (List String)) (notice : Option RelocationNotice) : Type 0 where
  pub silent : notice ≡ none → lists ≡ []
  pub no_task : lists ≡ [] → notice ≡ none
  pub true_of_each : (k : RelocationNotice) → notice ≡ some k → (k ≡ mixed) ⊎ AreAll k lists
  pub named :
      (k : RelocationNotice) (reasons : List String) (rest : List (List String))
      → lists ≡ reasons ∷ rest
      → AreAll k lists
      → notice ≡ some k
