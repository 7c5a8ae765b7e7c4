-- ===== src/Domain/Lists/Cover.antt =====
-- Which tasks match the predicates of the smart lists in packages/domain/src/taskLists.ts.
use balu_todo.Prelude.{
  String, ◌≡◌, refl, Bool-cases, inl, inr, Bool, true, false, ◌||◌, Option, arith,
}
use balu_todo.Domain.Types.{Task, IsoDate}
use balu_todo.Domain.Lists.{
  SmartList, inbox, today, upcoming, anytime, someday, logbook, matches_list, is_top_level,
}

-- Which predicates of the lists hold of the task `t`.
pub record IsShown (t : Task) (day : IsoDate) (user_id : Option String) : Type 0 where
  pub listed :
      t.is_deleted ≡ false
      → is_top_level t ≡ true
      → (list : SmartList) × (matches_list t list day user_id ≡ true)
  pub hidden :
      (list : SmartList)
      → matches_list t list day user_id ≡ true
      → (t.is_deleted ≡ false) × (is_top_level t ≡ true)
  pub history :
      (list : SmartList)
      → matches_list t logbook day user_id ≡ true
      → matches_list t list day user_id ≡ true
      → list ≡ logbook
  pub put_off :
      matches_list t someday day user_id ≡ true
      → (matches_list t inbox day user_id
          || matches_list t today day user_id
          || matches_list t anytime day user_id)
        ≡ false

module _ (t : Task) (day : IsoDate) (user_id : Option String) where
  hidden :
      (list : SmartList)
      → matches_list t list day user_id ≡ true
      → (t.is_deleted ≡ false) × (is_top_level t ≡ true)
  unfolding matches_list
  hidden inbox e = ground arith
  hidden _ e = ground arith

  history :
      (list : SmartList)
      → matches_list t logbook day user_id ≡ true
      → matches_list t list day user_id ≡ true
      → list ≡ logbook
  unfolding matches_list
  history logbook e h = refl
  history _ e h = ground arith

  -- Some list's predicate holds of the task.
  listed_by :
      t.is_deleted ≡ false
      → is_top_level t ≡ true
      → (matches_list t logbook day user_id
          || (matches_list t someday day user_id
              || (matches_list t inbox day user_id
                  || (matches_list t anytime day user_id
                      || (matches_list t today day user_id
                          || matches_list t upcoming day user_id)))))
        ≡ true
  unfolding matches_list
  listed_by d p = ground arith

  or_in :
      (list : SmartList) (rest : Bool)
      → (matches_list t list day user_id || rest) ≡ true
      → (rest ≡ true → (l : SmartList) × (matches_list t l day user_id ≡ true))
      → (l : SmartList) × (matches_list t l day user_id ≡ true)
  or_in list rest e later = elim (Bool-cases (matches_list t list day user_id)) [
    | inl q ↦ (list, q)
    | inr q ↦ later (ground (arith, e, q))
  ]

  listed :
      t.is_deleted ≡ false
      → is_top_level t ≡ true
      → (l : SmartList) × (matches_list t l day user_id ≡ true)
  listed d p = or_in logbook _ (listed_by d p) (λ e1. or_in someday _ e1 (λ e2.
      or_in inbox _ e2 (λ e3. or_in anytime _ e3 (λ e4. or_in today _ e4 (λ e5. (upcoming, e5))))))

  put_off :
      matches_list t someday day user_id ≡ true
      → (matches_list t inbox day user_id
          || matches_list t today day user_id
          || matches_list t anytime day user_id)
        ≡ false
  unfolding matches_list
  put_off e = ground arith

-- Of the lists' predicates, before `selectList` leaves out the tasks of archived projects: every live
-- top-level task matches that of at least one smart list, whatever its dates and state; none holds of a
-- deleted task or a subtask; a task that matches the Logbook's matches no other; and one that matches
-- Someday's matches none of Inbox, Today and Anytime.
pub matches_list-IsShown :
    (t : Task) (day : IsoDate) (user_id : Option String) → IsShown t day user_id
matches_list-IsShown t day user_id = record {
  listed = listed t day user_id;
  hidden = hidden t day user_id;
  history = history t day user_id;
  put_off = put_off t day user_id;
}
