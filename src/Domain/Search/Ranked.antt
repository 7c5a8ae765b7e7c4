-- ===== src/Domain/Search/Ranked.antt =====
-- The order of the tasks that packages/domain/src/search.ts finds.
use mathlib.Core.Path.{subst}
use mathlib.Core.List.{Perm}
use balu_todo.Prelude.{
  ℕ, false, not, ◌&&◌, ◌||◌, is_some, filter, arith, ◌≡◌, refl, sym, ap, ◌∙◌, Bool, Bool-cases, inl,
  inr, Option, none, some, List, [], ◌∷◌, ◌++◌, map, length, take, drop, take-append-drop,
  length-take, min, or_else, if◌then◌else◌,
}
use balu_todo.Prelude.Int.{ℤ, pos, ltb_ℤ}
use balu_todo.Prelude.Sort.{sort, goes_first}
use balu_todo.Prelude.Sort.Laws.{sort-perm, sort-IsOrdered}
use balu_todo.Prelude.Compare.{◌-ℤ◌}
use balu_todo.Prelude.Compare.Laws.{
  IsSigned, IsSigned-IsComparison, difference-IsSigned, turned-IsSigned, first_of-IsSigned,
}
use balu_todo.Prelude.Compare.Orders.{
  IsPairwise, IsPairwise-IsOrdered, IsLessOr, IsFirstOr, IsFirstOr-tested, less_or,
}
use balu_todo.Domain.Types.{Task}
use balu_todo.Domain.Lists.{is_open}
use balu_todo.Domain.Projects.Archived.{shown, exclude_archived_project_tasks-shown}
use balu_todo.Domain.Search.{
  Language, Scored, ReplicaSearchInput, completion, push_scored, score_task, is_searched,
  score_tasks, compare_tasks, pool_of, search_replica,
}

-- The tasks that are searched: those outside archived projects, or all.
abbrev pub searched_tasks : ReplicaSearchInput → List Task
searched_tasks input =
    if input.include_archived_projects then input.tasks else shown input.tasks input.projects

pool_of-searched_tasks :
    (language : Language) (input : ReplicaSearchInput)
    → pool_of language input ≡ searched_tasks input
pool_of-searched_tasks language input =
    rw (exclude_archived_project_tasks-shown input.tasks input.projects) refl

abbrev pub item_of : Scored Task → Task
item_of s = s.item

-- A task is not deleted, is open unless completed ones are asked for, and has a score.
abbrev pub is_hit : Language → List ℕ → Bool → Task → Bool
is_hit language q include_completed t =
    not t.is_deleted
    && (include_completed || not (is_some t.completed_at))
    && is_some (score_task language q t)

abbrev pub scored_of : Language → List ℕ → Task → Scored Task
scored_of language q t = record { item = t; score = or_else (score_task language q t) (pos 0) }

-- The hits with their scores.
abbrev pub hits : Language → List ℕ → Bool → List Task → List (Scored Task)
hits language q include_completed tasks =
    map (scored_of language q) (filter (is_hit language q include_completed) tasks)

-- Of two hits the first is open and the second completed; or both are the same and the first has the
-- greater score; or they score the same and the collation does not put the second before the first.
abbrev pub IsBetter : Language → Scored Task → Scored Task → Type 0
IsBetter language x y =
    IsFirstOr (not (is_some x.item.completed_at)) (not (is_some y.item.completed_at)) (
      IsLessOr y.score x.score
        (ltb_ℤ (language.locale_compare y.item.title x.item.title) (pos 0) ≡ false))

-- The tasks that a query shows, with those for which there is no room.
pub record IsFound (language : Language) (q : List ℕ) (input : ReplicaSearchInput)
    (tasks : List Task) : Type 0 where
  pub top : List (Scored Task)
  pub left_out : List (Scored Task)
  pub shown_top : tasks ≡ map item_of top
  pub complete :
      Perm (top ++ left_out) (hits language q input.include_completed (searched_tasks input))
  pub ordered : IsPairwise (IsBetter language) (top ++ left_out)
  pub bounded : length top ≡ min (or_else input.cap 100) (length (top ++ left_out))

module _ (language : Language) (collates : IsSigned language.locale_compare) where
  compare_tasks-IsSigned : IsSigned (compare_tasks language)
  compare_tasks-IsSigned =
      first_of-IsSigned _ _ (difference-IsSigned (λ (s : Scored Task). pos (completion s.item))) (
        first_of-IsSigned _ _
          (turned-IsSigned (λ (a b : Scored Task). a.score -ℤ b.score)
            (difference-IsSigned (λ (s : Scored Task). s.score)))
          (record {
            turned = λ x y. collates.turned x.item.title y.item.title;
            trans = λ x y z. collates.trans x.item.title y.item.title z.item.title;
          }))

  compare_tasks-IsBetter :
      (x y : Scored Task) → goes_first (compare_tasks language) y x ≡ false → IsBetter language x y
  compare_tasks-IsBetter x y h =
      IsFirstOr-tested (not (is_some x.item.completed_at)) (not (is_some y.item.completed_at))
        (completion x.item) (completion y.item) _ (ground arith) (ground arith)
        (less_or (pos (completion x.item)) (pos (completion y.item)) _ _ h
          (λ h1. less_or y.score x.score _ _ h1 (λ h2. h2)))

  module _ (q : List ℕ) (include_completed : Bool) where
    push-scored_of :
        (task : Task) (o : Option ℤ) (rest : List Task)
        → score_task language q task ≡ o
        → push_scored task o (map (scored_of language q) rest)
          ≡ map (scored_of language q) (if is_some o then task ∷ rest else rest)
    push-scored_of task none rest e = refl
    push-scored_of task (some score) rest e = rw e

    score_tasks-hits :
        (tasks : List Task)
        → score_tasks language q include_completed tasks ≡ hits language q include_completed tasks
    unfolding score_tasks is_open
    score_tasks-hits [] = refl
    score_tasks-hits (task ∷ tasks) =
        rw (score_tasks-hits tasks)
          (elim (Bool-cases (is_searched language include_completed task)) [
            | inl s ↦
                let hit : is_hit language q include_completed task
                    ≡ is_some (score_task language q task) =
                  ground (arith, s) in
                rw (s, hit)
                  (push-scored_of task (score_task language q task)
                    (filter (is_hit language q include_completed) tasks) refl)
            | inr s ↦
                let missed : is_hit language q include_completed task ≡ false = ground (arith, s) in
                rw (s, missed)
          ])

  IsFound-sort :
      (q : List ℕ) (input : ReplicaSearchInput) (scored : List (Scored Task))
      → scored ≡ hits language q input.include_completed (searched_tasks input)
      → IsFound language q input
          (map item_of (take (or_else input.cap 100) (sort (compare_tasks language) scored)))
  IsFound-sort q input scored e =
      let n = or_else input.cap 100 in
      let sorted = sort (compare_tasks language) scored in
      let whole = take-append-drop n sorted in
      record {
        top = take n sorted;
        left_out = drop n sorted;
        shown_top = refl;
        complete =
            subst (λ l. Perm l (hits language q input.include_completed (searched_tasks input)))
              (sym whole)
              (subst (λ l. Perm sorted l) e (sort-perm (compare_tasks language) scored));
        ordered = subst (IsPairwise (IsBetter language)) (sym whole) (
            IsPairwise-IsOrdered (IsBetter language) (compare_tasks language) compare_tasks-IsBetter
              sorted
              (sort-IsOrdered (compare_tasks language)
                (IsSigned-IsComparison (compare_tasks language) compare_tasks-IsSigned) scored));
        bounded = length-take n sorted ∙ ap (λ l. min n (length l)) (sym whole);
      }

  -- For a query that is not blank, the tasks shown and those left out are together, with their scores,
  -- all tasks searched that are not deleted, are open unless completed ones are asked for, and have a
  -- score (outside archived projects, unless these are asked for); they are ordered with the open ones
  -- before the completed, then the greater score first, then by title; those shown come first and are as
  -- many as the cap allows. The titles are compared by a collation.
  pub search_replica-IsFound :
      (input : ReplicaSearchInput) (c : ℕ) (q : List ℕ)
      → language.normalized input.query ≡ c ∷ q
      → IsFound language (c ∷ q) input (search_replica language input).tasks
  unfolding search_replica
  search_replica-IsFound input c q e = rw e (
      IsFound-sort (c ∷ q) input
        (score_tasks language (c ∷ q) input.include_completed (pool_of language input))
        (ap (score_tasks language (c ∷ q) input.include_completed)
            (pool_of-searched_tasks language input)
          ∙ score_tasks-hits (c ∷ q) input.include_completed (searched_tasks input)))
