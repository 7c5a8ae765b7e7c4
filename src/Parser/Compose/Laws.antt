-- ===== src/Parser/Compose/Laws.antt =====
-- The arguments that packages/nl-parser/src/compose.ts composes.
use mathlib.Core.Path.{subst}
use balu_todo.Prelude.{
  ◌≡◌, ◌⊎◌, inl, inr, refl, sym, ap, ◌∙◌, Bool, true, false, ◌||◌, String, ◌==◌, Option, none, some,
  List, [], ◌∷◌, All, arith, is_some, or_else, or_maybe, truthy, Option-cases,
}
use balu_todo.Domain.Types.{IsoDate}
use balu_todo.Parser.Types.{Text, ParseResult}
use balu_todo.Parser.Title.{trim}
use balu_todo.Parser.Title.Tidy.{visible, visible-trim}
use balu_todo.Parser.Target.{ComposeContext, in_project, in_list, nowhere}
use balu_todo.Parser.Compose.{
  NamedEntity, TaskArgs, Runtime, Dated, match_tokens, or_text, typed_args, with_context,
  is_explicit, dated, with_time, compose_task_args,
}
use balu_todo.Parser.Compose.Days.{
  IsShifted, IsTogether, IsTogether-move_to, IsShifted-move_to, dated-keeps,
}
use balu_todo.Parser.Compose.Matching.{is_live, IsLive, IsLive-match_tokens}

abbrev pub is_someday_list : ComposeContext → Bool
is_someday_list (in_list list) = list == "someday"
is_someday_list context = false

-- What composing promises of its arguments.
pub record IsComposed (env : Runtime) (projects labels : List NamedEntity)
    (context : ComposeContext) (text : Text) (result : ParseResult) (a : TaskArgs) : Type 0 where
  pub titled : a.title ≡ [] → visible text ≡ []
  pub no_start : a.someday ≡ true → a.start_date ≡ none
  pub start :
      is_someday_list context ≡ false
      → (s : IsoDate) → result.start_date ≡ some s
      → a.start_date ≡ some s
  pub deadline : (s : IsoDate) → result.deadline ≡ some s → a.deadline ≡ some s
  pub reminded : is_some a.reminder_at ≡ is_some (truthy result.time)
  pub typed_day :
      (time : String) (s : IsoDate)
      → truthy result.time ≡ some time
      → or_maybe result.start_date result.deadline ≡ some s
      → a.reminder_at ≡ some (env.to_utc s time)
  pub one_day :
      is_explicit env result ≡ false
      → (time : String) (s : IsoDate) → truthy result.time ≡ some time
      → a.start_date ≡ some s
      → a.reminder_at ≡ some (env.to_utc s time)
  pub labelled : All (λ id. is_live id labels ≡ true) a.label_ids
  pub filed :
      (p : String) → a.project_id ≡ some p → (is_live p projects ≡ true) ⊎ (context ≡ in_project p)

or_text_nil :
    (env : Runtime) (projects labels : List NamedEntity) (a b : Text)
    → or_text env projects labels a b ≡ []
    → b ≡ []
or_text_nil env projects labels [] b h = h
or_text_nil env projects labels (c ∷ a) b h = cc

truthy-some : (o : Option String) (p : String) → truthy o ≡ some p → o ≡ some p
truthy-some none p h = cc
truthy-some (some s) p h = ground (arith, h)

module _ (env : Runtime) (projects labels : List NamedEntity) (text : Text)
    (result : ParseResult) where
  typed-titled : (typed_args env projects labels text result).title ≡ [] → visible text ≡ []
  unfolding typed_args
  typed-titled h =
      sym (visible-trim text) ∙ ap visible (or_text_nil env projects labels _ (trim text) h)

  typed-IsLive : IsLive projects labels (
      match_tokens env projects labels
        (record { project_id = none; label_ids = []; strip = [] })
        result.tokens)
  typed-IsLive =
      IsLive-match_tokens env projects labels
        (record { project_id = none; label_ids = []; strip = [] }) result.tokens
        (record { filed = λ p e. cc; labelled = tt })

  typed-filed :
      (p : String)
      → (typed_args env projects labels text result).project_id ≡ some p
      → is_live p projects ≡ true
  unfolding typed_args
  typed-filed p e = typed-IsLive.filed p (truthy-some _ p e)

  typed-labelled :
      All (λ id. is_live id labels ≡ true) (typed_args env projects labels text result).label_ids
  unfolding typed_args
  typed-labelled = typed-IsLive.labelled

-- What the context changes of arguments without a someday flag.
module _ (env : Runtime) (today : IsoDate) (b : TaskArgs) where
  context_no_start :
      (context : ComposeContext)
      → b.someday ≡ false
      → (with_context env context today b).someday ≡ true
      → (with_context env context today b).start_date ≡ none
  unfolding with_context
  context_no_start (in_project id) f h = cc
  context_no_start (in_list list) f h = ground (arith, f, h)
  context_no_start nowhere f h = cc

  context_start :
      (context : ComposeContext) (s : IsoDate)
      → is_someday_list context ≡ false
      → b.start_date ≡ some s
      → (with_context env context today b).start_date ≡ some s
  unfolding with_context
  context_start (in_project id) s f e = e
  context_start (in_list list) s f e = ground (arith, f, e)
  context_start nowhere s f e = e

  context_same :
      (context : ComposeContext)
      → ((with_context env context today b).title ≡ b.title)
        × ((with_context env context today b).deadline ≡ b.deadline)
        × ((with_context env context today b).label_ids ≡ b.label_ids)
        × ((with_context env context today b).reminder_at ≡ b.reminder_at)
  unfolding with_context
  context_same (in_project id) = (refl, refl, refl, refl)
  context_same (in_list list) = (refl, refl, refl, refl)
  context_same nowhere = (refl, refl, refl, refl)

  context_filed :
      (context : ComposeContext) (p : String)
      → (with_context env context today b).project_id ≡ some p
      → (b.project_id ≡ some p) ⊎ (context ≡ in_project p)
  unfolding with_context
  context_filed (in_project id) p e = elim (Option-cases b.project_id) [
    | inl none_typed ↦
        let mine : some id ≡ some p = rw none_typed at e in
        let same_one : id ≡ p = cc in inr (ap in_project same_one)
    | inr (q, typed) ↦ let theirs : some q ≡ some p = rw typed at e in inl (typed ∙ theirs)
  ]
  context_filed (in_list list) p e = inl e
  context_filed nowhere p e = inl e

none_of : (o : Option IsoDate) → is_some o ≡ false → o ≡ none
none_of none h = refl
none_of (some s) h = cc

-- The typed day, or the day of the start, or today.
abbrev day_of : ParseResult → TaskArgs → IsoDate → IsoDate
day_of result c today =
    or_else (or_maybe result.start_date (or_maybe result.deadline c.start_date)) today

typed_day_of :
    (x y z : Option IsoDate) (today s : IsoDate)
    → or_maybe x y ≡ some s
    → or_else (or_maybe x (or_maybe y z)) today ≡ s
typed_day_of none none z today s h = cc
typed_day_of none (some d) z today s h = cc
typed_day_of (some d) y z today s h = cc

day_of_start :
    (x y z : Option IsoDate) (today s : IsoDate)
    → (is_some x || is_some y) ≡ false
    → z ≡ some s
    → s ≡ or_else (or_maybe x (or_maybe y z)) today
day_of_start none none z today s h e = rw e refl
day_of_start none (some d) z today s h e = cc
day_of_start (some d) y z today s h e = cc

is_some_either :
    (x y : Option IsoDate) (s : IsoDate) → or_maybe x y ≡ some s → (is_some x || is_some y) ≡ true
is_some_either none none s h = cc
is_some_either none (some d) s h = refl
is_some_either (some d) y s h = refl

module _ (env : Runtime) (result : ParseResult) (today : IsoDate) (time : String)
    (c : TaskArgs) where
  dated_explicit :
      is_explicit env result ≡ true
      → dated env result today time c ≡ record { day = day_of result c today; args = c }
  unfolding dated
  dated_explicit h = rw h

  IsShifted-dated : IsShifted c (dated env result today time c)
  IsShifted-dated =
      dated-keeps env (IsShifted c) (IsShifted-move_to env c) result today time c
        (record { start_date = c.start_date; args = refl; still = refl })

  IsTogether-dated : is_explicit env result ≡ false → IsTogether (dated env result today time c)
  IsTogether-dated h =
      dated-keeps env IsTogether (IsTogether-move_to env) result today time c
        (λ s e. day_of_start result.start_date result.deadline c.start_date today s h e)

module _ (env : Runtime) (projects labels : List NamedEntity) (today : IsoDate)
    (context : ComposeContext) (text : Text) (result : ParseResult) where
  abbrev in_its_context : TaskArgs
  in_its_context = with_context env context today (typed_args env projects labels text result)

  typed_deadline : (s : IsoDate) → result.deadline ≡ some s → in_its_context.deadline ≡ some s
  unfolding typed_args
  typed_deadline s h =
      (context_same env today (typed_args env projects labels text result) context).1 ∙ h

  untimed : in_its_context.reminder_at ≡ none
  unfolding typed_args
  untimed = (context_same env today (typed_args env projects labels text result) context).3

  context_titled : in_its_context.title ≡ [] → visible text ≡ []
  context_titled h =
      typed-titled env projects labels text result
        (sym (context_same env today (typed_args env projects labels text result) context).0 ∙ h)

  no_start_in_context : in_its_context.someday ≡ true → in_its_context.start_date ≡ none
  unfolding typed_args
  no_start_in_context h =
      context_no_start env today (typed_args env projects labels text result) context refl h

  start_in_context :
      is_someday_list context ≡ false
      → (s : IsoDate) → result.start_date ≡ some s
      → in_its_context.start_date ≡ some s
  unfolding typed_args
  start_in_context f s e =
      context_start env today (typed_args env projects labels text result) context s f e

  labelled_in_context : All (λ id. is_live id labels ≡ true) in_its_context.label_ids
  labelled_in_context =
      subst (All (λ id. is_live id labels ≡ true))
        (sym (context_same env today (typed_args env projects labels text result) context).2)
        (typed-labelled env projects labels text result)

  filed_in_context :
      (p : String)
      → in_its_context.project_id ≡ some p
      → (is_live p projects ≡ true) ⊎ (context ≡ in_project p)
  filed_in_context p e =
      elim (context_filed env today (typed_args env projects labels text result) context p e) [
        | inl typed ↦ inl (typed-filed env projects labels text result p typed)
        | inr there ↦ inr there
      ]

  IsComposed-untimed :
      truthy result.time ≡ none → IsComposed env projects labels context text result in_its_context
  IsComposed-untimed e = record {
    titled = context_titled;
    no_start = no_start_in_context;
    start = start_in_context;
    deadline = typed_deadline;
    reminded = rw (untimed, e) refl;
    typed_day = λ time s h k. absurd_time time h e;
    one_day = λ x time s h k. absurd_time time h e;
    labelled = labelled_in_context;
    filed = filed_in_context;
  }
    where
      absurd_time :
          {A : Type 0}
          → (time : String) → truthy result.time ≡ some time
          → truthy result.time ≡ none
          → A
      absurd_time time h e = cc

  IsComposed-timed :
      (time : String)
      → truthy result.time ≡ some time
      → IsComposed env projects labels context text result
          (with_time env (some time) result today in_its_context)
  IsComposed-timed time e =
      let d = dated env result today time in_its_context in
      let sh = IsShifted-dated env result today time in_its_context in
      record {
        titled = λ h. context_titled (sym (ap (λ (x : TaskArgs). x.title) sh.args) ∙ h);
        no_start = λ h.
            ap (λ (x : TaskArgs). x.start_date) sh.args
            ∙ none_of sh.start_date (
                sh.still
                ∙ ap is_some
                    (no_start_in_context (sym (ap (λ (x : TaskArgs). x.someday) sh.args) ∙ h)));
        start = λ f s h.
            ap (λ (x : Dated). x.args.start_date)
              (dated_explicit env result today time in_its_context (ground (arith, h)))
            ∙ start_in_context f s h;
        deadline = λ s h.
            let kept : d.args.deadline ≡ some s =
              ap (λ (x : TaskArgs). x.deadline) sh.args ∙ typed_deadline s h in
            ground (arith, h, kept);
        reminded = rw e refl;
        typed_day = λ t s h k.
            same_reminder t s
              (ap (λ (x : Dated). x.day)
                  (dated_explicit env result today time in_its_context
                    (is_some_either result.start_date result.deadline s k))
                ∙ typed_day_of result.start_date result.deadline in_its_context.start_date today s
                    k)
              (sym e ∙ h);
        one_day = λ x t s h k.
            same_reminder t s (sym (IsTogether-dated env result today time in_its_context x s k))
              (sym e ∙ h);
        labelled =
            subst (λ (x : TaskArgs). All (λ id. is_live id labels ≡ true) x.label_ids) (sym sh.args)
              labelled_in_context;
        filed = λ p h. filed_in_context p (sym (ap (λ (x : TaskArgs). x.project_id) sh.args) ∙ h);
      }
    where
      same_reminder :
          (t : String) (s : IsoDate)
          → (dated env result today time in_its_context).day ≡ s
          → some time ≡ some t
          → some (env.to_utc (dated env result today time in_its_context).day time)
            ≡ some (env.to_utc s t)
      same_reminder t s day h =
          let at_time : time ≡ t = cc in
          ap (λ x. some (env.to_utc x time)) day ∙ ap (λ x. some (env.to_utc s x)) at_time

  -- The arguments that quick-add composes have no empty title unless the text has nothing visible, and
  -- no start date in Someday; a typed start (outside Someday) and a typed deadline stay as typed; they
  -- have a reminder just if a time was typed, on the typed day if there is one, and otherwise on the day
  -- of the start date if they have one; every label is an existing one, and the project is an existing
  -- one or that of the context.
  pub compose_task_args-IsComposed :
      IsComposed env projects labels context text result
        (compose_task_args env projects labels today context text result)
  unfolding compose_task_args
  compose_task_args-IsComposed = elim (Option-cases (truthy result.time)) [
    | inl e ↦
        subst
          (λ o.
            IsComposed env projects labels context text result
              (with_time env o result today in_its_context))
          (sym e) (IsComposed-untimed e)
    | inr (time, e) ↦
        subst
          (λ o.
            IsComposed env projects labels context text result
              (with_time env o result today in_its_context))
          (sym e) (IsComposed-timed time e)
  ]
