-- ===== src/Domain/Search.antt =====
-- packages/domain/src/search.ts: the ranking of tasks, projects and labels for a query.
pub mod Matches
pub mod Ranked
use balu_todo.Prelude.{
  ℕ, zero, suc, ◌+◌, ◌-◌, String, ◌==◌, Bool, true, false, not, ◌&&◌, ◌||◌, Option, none, some,
  List, [], ◌∷◌, ◌++◌, map, filter, length, take, drop, eqb, is_some, or_else, if◌then◌else◌,
}
use balu_todo.Prelude.Int.{ℤ, pos, negsuc, ◌+ℤ◌, ltb_ℤ}
use balu_todo.Prelude.Codes.{eq_codes}
use balu_todo.Prelude.Sort.{sort}
use balu_todo.Prelude.Compare.{◌-ℤ◌, first_of}
use balu_todo.Domain.Types.{Task, Project, Label}
use balu_todo.Domain.Lists.{is_open}
use balu_todo.Domain.Projects.{exclude_archived_project_tasks}

-- What the engine does with texts: `toLowerCase`, `trim().toLowerCase()` of a query, both as UTF-16
-- units, and `localeCompare`.
pub record Language : Type 0 where
  pub lower : String → List ℕ
  pub normalized : String → List ℕ
  pub locale_compare : String → String → ℤ

abbrev pub is_word_boundary : ℕ → Bool
is_word_boundary c = eqb c 32 || eqb c 45 || eqb c 95 || eqb c 47 || eqb c 46 || eqb c 44

-- The loop of `subsequenceScore`, from the offset `ti` on: the places of the first and the last match.
unfoldable pub match_units : ℕ → ℤ → ℤ → List ℕ → List ℕ → Option (ℤ × ℤ)
match_units ti first_at last_at [] text = some (first_at, last_at)
match_units ti first_at last_at (c ∷ query) [] = none
match_units ti first_at last_at (c ∷ query) (d ∷ text) =
    let hit =
      match_units (ti + 1) (if ltb_ℤ first_at (pos 0) then pos ti else first_at) (pos ti) query
        text in
    let miss = match_units (ti + 1) first_at last_at (c ∷ query) text in
    if eqb d c then hit else miss

abbrev pub at_least_zero : ℤ → ℤ
at_least_zero z = if ltb_ℤ z (pos 0) then pos 0 else z

abbrev pub compactness : ℕ → Option (ℤ × ℤ) → Option ℤ
compactness size none = none
compactness size (some (first_at, last_at)) =
    some (
      pos 200 +ℤ at_least_zero (pos 80 -ℤ ((last_at -ℤ first_at +ℤ pos 1) -ℤ pos size)) -ℤ first_at)

unfoldable pub subsequence_score : List ℕ → List ℕ → Option ℤ
unfolding match_units
subsequence_score query text =
    compactness (length query) (match_units 0 (negsuc 0) (negsuc 0) query text)

abbrev pub starts_with : List ℕ → List ℕ → Bool
starts_with [] text = true
starts_with (c ∷ query) [] = false
starts_with (c ∷ query) (d ∷ text) = eqb d c && starts_with query text

-- `t.indexOf(q)` from the offset `i` on
unfoldable pub index_from : ℕ → List ℕ → List ℕ → Option ℕ
index_from i query [] = if starts_with query [] then some i else none
index_from i query (d ∷ text) =
    let later = index_from (i + 1) query text in
    if starts_with query (d ∷ text) then some i else later

abbrev pub first_is_boundary : List ℕ → Bool
first_is_boundary [] = false
first_is_boundary (c ∷ text) = is_word_boundary c

abbrev pub score_at : List ℕ → List ℕ → Option ℕ → Option ℤ
score_at query text none = subsequence_score query text
score_at query text (some zero) = some (pos 800)
score_at query text (some (suc i)) =
    some ((if first_is_boundary (drop i text) then pos 600 else pos 400) -ℤ pos (suc i))

unfoldable pub score_units : List ℕ → List ℕ → Option ℤ
unfolding subsequence_score index_from eq_codes
score_units [] text = some (pos 0)
score_units (c ∷ query) text =
    if eq_codes text (c ∷ query)
    then some (pos 1000)
    else score_at (c ∷ query) text (index_from 0 (c ∷ query) text)

-- A title counts, and the notes 300 less.
abbrev pub lowered : Option ℤ → Option ℤ → Option ℤ
lowered (some title) notes = some title
lowered none none = none
lowered none (some notes) = some (notes -ℤ pos 300)

pub record Scored (A : Type 0) : Type 0 where
  pub item : A
  pub score : ℤ

abbrev pub push_scored : {A : Type 0} → A → Option ℤ → List (Scored A) → List (Scored A)
push_scored item none rest = rest
push_scored item (some score) rest = record { item = item; score = score } ∷ rest

pub record ReplicaSearchInput : Type 0 where
  pub query : String
  pub tasks : List Task
  pub projects : List Project
  pub labels : List Label
  pub include_completed : Bool
  pub include_archived_projects : Bool
  pub cap : Option ℕ

pub record ReplicaSearchResults : Type 0 where
  pub tasks : List Task
  pub projects : List Project
  pub labels : List Label

abbrev pub completion : Task → ℕ
completion t = if is_some t.completed_at then 1 else 0

module _ (language : Language) where
  abbrev pub score_text : List ℕ → String → Option ℤ
  score_text q text = score_units q (language.lower text)

  abbrev pub score_notes : List ℕ → String → Option ℤ
  score_notes q notes = if notes == "" then none else score_text q notes

  abbrev pub score_task : List ℕ → Task → Option ℤ
  score_task q task = lowered (score_text q task.title) (score_notes q task.notes)

  abbrev pub is_searched : Bool → Task → Bool
  is_searched include_completed task = not task.is_deleted && (include_completed || is_open task)

  unfoldable pub score_tasks : List ℕ → Bool → List Task → List (Scored Task)
  unfolding score_units
  score_tasks q include_completed [] = []
  score_tasks q include_completed (task ∷ tasks) =
      let rest = score_tasks q include_completed tasks in
      let pushed = push_scored task (score_task q task) rest in
      if is_searched include_completed task then pushed else rest

  abbrev pub compare_tasks : Scored Task → Scored Task → ℤ
  compare_tasks a b =
      first_of (pos (completion a.item) -ℤ pos (completion b.item))
        (first_of (b.score -ℤ a.score) (language.locale_compare a.item.title b.item.title))

  module _ {A : Type 0} (name : A → String) where
    unfoldable pub score_items : List ℕ → List A → List (Scored A)
    unfolding score_units
    score_items q [] = []
    score_items q (item ∷ items) = push_scored item (score_text q (name item)) (score_items q items)

    abbrev pub compare_items : Scored A → Scored A → ℤ
    compare_items a b =
        first_of (b.score -ℤ a.score) (language.locale_compare (name a.item) (name b.item))

    unfoldable pub rank : List A → List ℕ → List A
    unfolding score_items
    rank items q = map (λ (s : Scored A). s.item) (sort compare_items (score_items q items))

  abbrev pub pool_of : ReplicaSearchInput → List Task
  pool_of input =
      if input.include_archived_projects
      then input.tasks
      else exclude_archived_project_tasks input.tasks input.projects

  abbrev pub search_for : List ℕ → ReplicaSearchInput → ReplicaSearchResults
  search_for [] input = record { tasks = []; projects = []; labels = [] }
  search_for (c ∷ q) input = record {
    tasks =
        map (λ (s : Scored Task). s.item)
          (take (or_else input.cap 100)
            (sort compare_tasks (score_tasks (c ∷ q) input.include_completed (pool_of input))));
    projects =
        rank (λ (p : Project). p.name)
          (filter
            (λ (p : Project).
              not p.is_deleted && (input.include_archived_projects || not (is_some p.archived_at)))
            input.projects)
          (c ∷ q);
    labels =
        rank (λ (l : Label). l.name) (filter (λ (l : Label). not l.is_deleted) input.labels)
          (c ∷ q);
  }

  unfoldable pub search_replica : ReplicaSearchInput → ReplicaSearchResults
  unfolding score_tasks rank
  search_replica input = search_for (language.normalized input.query) input

pub data SearchKind : Type 0 where
  task project label : SearchKind

pub record SearchItem : Type 0 where
  pub kind : SearchKind
  pub id : String
  pub text : String
  pub score : ℤ

module _ (language : Language) where
  abbrev pub push_item : SearchKind → String → String → Option ℤ → List SearchItem → List SearchItem
  push_item kind id text none rest = rest
  push_item kind id text (some score) rest =
      record { kind = kind; id = id; text = text; score = score } ∷ rest

  -- The loops over the tasks, the projects and the labels.
  unfoldable pub task_items : List ℕ → List Task → List SearchItem
  unfolding score_units
  task_items q [] = []
  task_items q (t ∷ tasks) =
      let rest = task_items q tasks in
      let pushed = push_item task t.id t.title (score_task language q t) rest in
      if t.is_deleted then rest else pushed

  unfoldable pub project_items : List ℕ → List Project → List SearchItem
  unfolding score_units
  project_items q [] = []
  project_items q (p ∷ projects) =
      let rest = project_items q projects in
      let pushed = push_item project p.id p.name (score_text language q p.name) rest in
      if p.is_deleted then rest else pushed

  unfoldable pub label_items : List ℕ → List Label → List SearchItem
  unfolding score_units
  label_items q [] = []
  label_items q (l ∷ labels) =
      let rest = label_items q labels in
      let pushed = push_item label l.id l.name (score_text language q l.name) rest in
      if l.is_deleted then rest else pushed

  abbrev pub compare_search_items : SearchItem → SearchItem → ℤ
  compare_search_items a b = first_of (b.score -ℤ a.score) (language.locale_compare a.text b.text)

  abbrev pub items_for : List ℕ → List Task → List Project → List Label → ℕ → List SearchItem
  items_for [] tasks projects labels limit = []
  items_for (c ∷ q) tasks projects labels limit = take limit (
      sort compare_search_items
        (task_items (c ∷ q) tasks ++ project_items (c ∷ q) projects ++ label_items (c ∷ q) labels))

  unfoldable pub search_items : String → List Task → List Project → List Label → ℕ → List SearchItem
  unfolding task_items project_items label_items
  search_items query tasks projects labels limit =
      items_for (language.normalized query) tasks projects labels limit
