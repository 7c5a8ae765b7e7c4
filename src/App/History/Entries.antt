-- ===== src/App/History/Entries.antt =====
-- The history that apps/web/src/lib/useUrlSync.ts leaves.
use balu_todo.Prelude.{
  ◌≤◌, String, ◌≡◌, refl, sym, ap, ◌∙◌, Bool, true, false, Bool-cases, inl, inr, Option, none, some,
  List, [], ◌∷◌, ◌==◌, eq_iff, same, same_iff, is_some, or_else, truthy, length, arith,
  if◌then◌else◌,
}
use balu_todo.App.History.{
  AppRoute, HistoryOp, keep, push, replace, back, replace_reader, Entry, History, build_app_url,
  is_reader, path_changed, transition, decide_history_op, pop, carry_out, sync_url,
}

-- A marked entry stands right on one with the URL of its marker.
abbrev pub IsOn : Option String → List Entry → Type 0
IsOn none below = Unit
IsOn (some url) [] = true ≡ false
IsOn (some url) (e ∷ below) = e.url ≡ url

abbrev pub AreOn : List Entry → Type 0
AreOn [] = Unit
AreOn (e ∷ below) = IsOn e.under below × AreOn below

abbrev pub IsMarked : History → Type 0
IsMarked h = IsOn h.here.under h.below × AreOn h.below

module _ (encode : String → String) (parse : String → Option AppRoute) (r : AppRoute) where
  -- What the carried out decision promises.
  pub record IsSynced (h h' : History) : Type 0 where
    pub shown : h'.here.url ≡ build_app_url encode r
    pub marked : IsMarked h'
    pub closed : is_reader encode parse (parse h.here.url) ≡ true → length h'.below ≤ length h.below

  -- When each call is right.
  abbrev IsAllowed : HistoryOp → History → Type 0
  IsAllowed keep h = build_app_url encode r ≡ h.here.url
  IsAllowed push h = is_reader encode parse (parse h.here.url) ≡ false
  IsAllowed replace h = Unit
  IsAllowed back h = h.here.under ≡ some (build_app_url encode r)
  IsAllowed replace_reader h = is_some h.here.under ≡ true

  IsOn-marker_for :
      (o : Option String) (e : Entry) (below : List Entry)
      → IsOn (if is_some o then some e.url else none) (e ∷ below)
  IsOn-marker_for none e below = tt
  IsOn-marker_for (some id) e below = refl

  IsOn-or_else :
      (o : Option String) (below : List Entry)
      → is_some o ≡ true
      → IsOn o below
      → IsOn (some (or_else o "")) below
  IsOn-or_else none below q h = cc
  IsOn-or_else (some url) below q h = h

  IsSynced-back :
      (u : Option String) (url : String) (below : List Entry)
      → u ≡ some (build_app_url encode r)
      → IsOn u below
      → AreOn below
      → IsSynced
          (record { here = record { url = url; under = u }; below = below })
          (pop encode parse (record { here = record { url = url; under = u }; below = below }))
  IsSynced-back none url below q h k = cc
  IsSynced-back (some v) url [] q h k = cc
  IsSynced-back (some v) url (e ∷ below) q h k = record {
    shown = h ∙ some_injective v (build_app_url encode r) q;
    marked = k;
    closed = λ c. omega arith;
  }
    where
      some_injective : (x y : String) → some x ≡ some y → x ≡ y
      some_injective x y p = ap (λ o. or_else o x) p

  IsSynced-carry_out :
      (op : HistoryOp) (h : History)
      → IsAllowed op h
      → IsMarked h
      → IsSynced h (carry_out encode parse r op h)
  unfolding carry_out
  IsSynced-carry_out keep h q m = record { shown = sym q; marked = m; closed = λ c. omega arith }
  IsSynced-carry_out push h q m = record {
    shown = refl;
    marked = (IsOn-marker_for (truthy r.fullscreen_task_id) h.here h.below, m);
    closed = λ c. absurd (sym c ∙ q);
  }
    where
      absurd : {A : Type 0} → true ≡ false → A
      absurd p = cc
  IsSynced-carry_out replace h q m = record {
    shown = refl;
    marked = (tt, m.1);
    closed = λ c. omega arith;
  }
  IsSynced-carry_out back h q m = IsSynced-back h.here.under h.here.url h.below q m.0 m.1
  IsSynced-carry_out replace_reader h q m = record {
    shown = refl;
    marked = (IsOn-or_else h.here.under h.below q m.0, m.1);
    closed = λ c. omega arith;
  }

  IsAllowed-transition :
      (replace_next was open_now : Bool) (h : History)
      → is_reader encode parse (parse h.here.url) ≡ was
      → IsAllowed (transition encode parse r replace_next h.here was open_now) h
  IsAllowed-transition replace_next true false h e =
      elim (Bool-cases (same h.here.under (some (build_app_url encode r)))) [
        | inl q ↦ rw q ((same_iff h.here.under (some (build_app_url encode r))).0 q)
        | inr q ↦ rw q tt
      ]
  IsAllowed-transition replace_next true true h e = elim (Bool-cases (is_some h.here.under)) [
    | inl q ↦ rw q q
    | inr q ↦ rw q tt
  ]
  IsAllowed-transition true false open_now h e = tt
  IsAllowed-transition false false true h e = e
  IsAllowed-transition false false false h e =
      elim (Bool-cases (path_changed encode parse (parse h.here.url) r)) [
        | inl q ↦ rw q e
        | inr q ↦ rw q tt
      ]

  IsAllowed-decide_history_op :
      (replace_next : Bool) (h : History)
      → IsAllowed (decide_history_op encode parse r replace_next h.here) h
  unfolding decide_history_op
  IsAllowed-decide_history_op replace_next h =
      elim (Bool-cases (build_app_url encode r == h.here.url)) [
        | inl q ↦ rw q ((eq_iff (build_app_url encode r) h.here.url).0 q)
        | inr q ↦ elim (Bool-cases (is_some (parse h.here.url))) [
          | inl p ↦
              rw (q, p)
                (IsAllowed-transition replace_next (is_reader encode parse (parse h.here.url))
                  (is_some r.fullscreen_task_id) h refl)
          | inr p ↦ rw (q, p) tt
        ]
      ]

  -- After the URL has followed the state, the address bar shows the state's URL, a marked entry still
  -- stands right on the one that it names, and leaving or switching a full-screen task adds no entry.
  -- Every marked entry stands right on the one that it names before.
  pub sync_url-IsSynced :
      (replace_next : Bool) (h : History)
      → IsMarked h
      → IsSynced h (sync_url encode parse r replace_next h)
  unfolding sync_url
  sync_url-IsSynced replace_next h m =
      IsSynced-carry_out (decide_history_op encode parse r replace_next h.here) h
        (IsAllowed-decide_history_op replace_next h) m
