-- ===== src/Parser/Resolve/Laws.antt =====
-- The choice of packages/nl-parser/src/index.ts among overlapping candidates.
use mathlib.Core.Path.{subst}
use balu_todo.Prelude.{
  ℕ, ◌+◌, eqb, Option, none, some, All-append, sym, ◌≡◌, ◌⊎◌, inl, inr, Bool, true, false, ◌&&◌,
  ◌||◌, refl, arith, List, [], ◌∷◌, All, leb, ltb, All-weaken, Bool-cases,
}
use balu_todo.Prelude.Int.{pos, ltb_ℤ, eqb_ℤ, leb_ℤ}
use balu_todo.Prelude.Sort.{sort, goes_first}
use balu_todo.Prelude.Sort.Laws.{IsOrdered, sort-IsOrdered, All-sort, sort-All}
use balu_todo.Prelude.Compare.{◌-ℤ◌}
use balu_todo.Prelude.Compare.Laws.{
  IsSigned, IsSigned-IsComparison, difference-IsSigned, first_of-IsSigned, turned-IsSigned,
}
use balu_todo.Prelude.Compare.Orders.{less_or, leb-difference}
use balu_todo.Parser.Types.{Text}
use balu_todo.Parser.Resolve.{
  Candidate, Match, Matcher, Payload, keep, collect_matches, collect, size, by_place, choose,
  resolve,
}

-- A span that is not empty.
abbrev pub is_proper : Candidate → Bool
is_proper c = ltb c.span.first c.span.past

-- Of two candidates from the same place, `d` ends after `c`, or at the same place and its matcher is
-- no later in the grammar.
abbrev pub is_preferred : Candidate → Candidate → Bool
is_preferred d c =
    ltb c.span.past d.span.past || (eqb c.span.past d.span.past && leb d.order c.order)

-- `c` begins within `d`, and `d` is preferred if they begin at the same place.
abbrev pub begins_in : Candidate → Candidate → Bool
begins_in c d =
    leb d.span.first c.span.first
    && ltb c.span.first d.span.past
    && (ltb d.span.first c.span.first || is_preferred d c)

abbrev pub is_covered : Candidate → List Candidate → Bool
is_covered c [] = false
is_covered c (d ∷ ds) = begins_in c d || is_covered c ds

-- Each begins at or after the end of those before it.
abbrev pub IsApart : List Candidate → Type 0
IsApart [] = Unit
IsApart (c ∷ cs) = All (λ (d : Candidate). leb c.span.past d.span.first ≡ true) cs × IsApart cs

pub record IsResolved (cands chosen : List Candidate) : Type 0 where
  pub sound : (p : Candidate → Bool) → All (λ c. p c ≡ true) cands → All (λ c. p c ≡ true) chosen
  pub apart : IsApart chosen
  pub complete : All (λ c. is_covered c chosen ≡ true) cands

by_place-IsSigned : IsSigned by_place
by_place-IsSigned =
    first_of-IsSigned _ _ (difference-IsSigned (λ (c : Candidate). pos c.span.first)) (
      first_of-IsSigned _ _
        (turned-IsSigned (λ (a b : Candidate). size a -ℤ size b) (difference-IsSigned size))
        (difference-IsSigned (λ (c : Candidate). pos c.order)))

-- What does not go before `c` does not begin before it.
first_of-by_place :
    (c d : Candidate) → goes_first by_place d c ≡ false → leb c.span.first d.span.first ≡ true
first_of-by_place c d h = ground (arith, h)

All-choose : (P : Candidate → Type 0) (e : ℕ) (cs : List Candidate) → All P cs → All P (choose e cs)
unfolding choose
All-choose P e [] h = tt
All-choose P e (c ∷ cs) (p, h) = elim (Bool-cases (leb e c.span.first)) [
  | inl q ↦ rw q (p, All-choose P c.span.past cs h)
  | inr q ↦ rw q (All-choose P e cs h)
]

or_true : (b : Bool) → (b || true) ≡ true
or_true true = refl
or_true false = refl

-- From one place, a longer candidate and one as long.
longer :
    (c d : Candidate)
    → eqb_ℤ (pos d.span.first) (pos c.span.first) ≡ true
    → ltb_ℤ (size c) (size d) ≡ true
    → ltb c.span.past d.span.past ≡ true
longer c d e h = ground (arith, e, h)

as_long :
    (c d : Candidate)
    → eqb_ℤ (pos d.span.first) (pos c.span.first) ≡ true
    → eqb_ℤ (size c) (size d) ≡ true
    → eqb c.span.past d.span.past ≡ true
as_long c d e h = ground (arith, e, h)

begins_first :
    (c d : Candidate)
    → ltb_ℤ (pos d.span.first) (pos c.span.first) ≡ true
    → ltb d.span.first c.span.first ≡ true
begins_first c d h = ground (arith, h)

no_later : (c d : Candidate) → leb_ℤ (pos d.order) (pos c.order) ≡ true → leb d.order c.order ≡ true
no_later c d h = ground (arith, h)

-- What `c` does not go before begins earlier or is preferred to it.
preferred-by_place :
    (c d : Candidate)
    → goes_first by_place c d ≡ false
    → (ltb d.span.first c.span.first || is_preferred d c) ≡ true
preferred-by_place c d h =
    elim (less_or (pos d.span.first) (pos c.span.first) _ _ h (λ h1.
      less_or (size c) (size d) _ _ h1 (λ h2. leb-difference (pos d.order) (pos c.order) h2))) [
        | inl f ↦ rw (begins_first c d f)
        | inr (e, inl l) ↦ rw (longer c d e l, or_true (ltb d.span.first c.span.first))
        | inr (e, inr (l, o)) ↦ rw (
          as_long c d e l,
          no_later c d o,
          or_true (ltb c.span.past d.span.past),
          or_true (ltb d.span.first c.span.first),
        )
      ]

-- All that is chosen begins at or after the end of what was chosen before.
choose-after :
    (e : ℕ) (cs : List Candidate)
    → All (λ c. is_proper c ≡ true) cs
    → All (λ (d : Candidate). leb e d.span.first ≡ true) (choose e cs)
unfolding choose
choose-after e [] h = tt
choose-after e (c ∷ cs) (p, h) = elim (Bool-cases (leb e c.span.first)) [
  | inl q ↦ rw q (
    q,
    All-weaken (λ d r. ground (arith, p, q, r)) (choose c.span.past cs)
        (choose-after c.span.past cs h),
  )
  | inr q ↦ rw q (choose-after e cs h)
]

choose-IsApart :
    (e : ℕ) (cs : List Candidate) → All (λ c. is_proper c ≡ true) cs → IsApart (choose e cs)
unfolding choose
choose-IsApart e [] h = tt
choose-IsApart e (c ∷ cs) (p, h) = elim (Bool-cases (leb e c.span.first)) [
  | inl q ↦ rw q (choose-after c.span.past cs h, choose-IsApart c.span.past cs h)
  | inr q ↦ rw q (choose-IsApart e cs h)
]

-- A candidate begins before `e`, or within a chosen one.
abbrev IsSettled : ℕ → List Candidate → Candidate → Type 0
IsSettled e chosen c = (ltb c.span.first e ≡ true) ⊎ (is_covered c chosen ≡ true)

by_place_irrefl : (c : Candidate) → goes_first by_place c c ≡ false
by_place_irrefl c = ground arith

-- The candidates after a chosen one.
settle_after :
    (c : Candidate) (e : ℕ) (d : Candidate) (chosen : List Candidate)
    → goes_first by_place d c ≡ false
    → IsSettled c.span.past chosen d
    → IsSettled e (c ∷ chosen) d
settle_after c e d chosen h (inl q) =
    inr (ground (arith, preferred-by_place d c h, first_of-by_place c d h, q))
settle_after c e d chosen h (inr q) = inr (rw (q, or_true (begins_in d c)))

settle_all :
    (c : Candidate) (e : ℕ) (ds chosen : List Candidate)
    → All (λ d. goes_first by_place d c ≡ false) ds
    → All (IsSettled c.span.past chosen) ds
    → All (IsSettled e (c ∷ chosen)) ds
settle_all c e [] chosen h k = tt
settle_all c e (d ∷ ds) chosen (p, h) (q, k) =
    (settle_after c e d chosen p q, settle_all c e ds chosen h k)

choose_fits :
    (e : ℕ) (c : Candidate) (cs : List Candidate)
    → leb e c.span.first ≡ true
    → choose e (c ∷ cs) ≡ c ∷ choose c.span.past cs
unfolding choose
choose_fits e c cs q = rw q

choose_passes :
    (e : ℕ) (c : Candidate) (cs : List Candidate)
    → leb e c.span.first ≡ false
    → choose e (c ∷ cs) ≡ choose e cs
unfolding choose
choose_passes e c cs q = rw q

begins_in_itself : (c : Candidate) → is_proper c ≡ true → begins_in c c ≡ true
begins_in_itself c p = ground (arith, p)

choose-IsSettled :
    (e : ℕ) (cs : List Candidate)
    → All (λ c. is_proper c ≡ true) cs
    → IsOrdered by_place cs
    → All (IsSettled e (choose e cs)) cs
choose-IsSettled e [] h o = tt
choose-IsSettled e (c ∷ cs) (p, h) (f, o) = elim (Bool-cases (leb e c.span.first)) [
  | inl q ↦
      subst (λ l. All (IsSettled e l) (c ∷ cs)) (sym (choose_fits e c cs q))
        (
          inr (rw (begins_in_itself c p)),
          settle_all c e cs (choose c.span.past cs) f (choose-IsSettled c.span.past cs h o),
        )
  | inr q ↦
      subst (λ l. All (IsSettled e l) (c ∷ cs)) (sym (choose_passes e c cs q))
        (inl (ground (arith, q)), choose-IsSettled e cs h o)
]

settled_at_0 :
    (c : Candidate) (chosen : List Candidate) → IsSettled 0 chosen c → is_covered c chosen ≡ true
settled_at_0 c chosen (inl q) = ground (arith, q)
settled_at_0 c chosen (inr q) = q

-- If no candidate is empty, the chosen tokens are candidates, each begins at or after the end of those
-- before it, and every candidate begins within a chosen one that, if it begins at the same place, is
-- longer, or as long and no later in the grammar.
pub resolve-IsResolved :
    (cands : List Candidate)
    → All (λ c. is_proper c ≡ true) cands
    → IsResolved cands (resolve cands)
unfolding resolve
resolve-IsResolved cands h =
    let proper = All-sort by_place (λ c. is_proper c ≡ true) cands h in
    record {
      sound = λ p k.
          All-choose (λ c. p c ≡ true) 0 (sort by_place cands)
            (All-sort by_place (λ c. p c ≡ true) cands k);
      apart = choose-IsApart 0 (sort by_place cands) proper;
      complete =
          sort-All by_place (λ c. is_covered c (choose 0 (sort by_place cands)) ≡ true) cands
            (All-weaken (λ c. settled_at_0 c (choose 0 (sort by_place cands))) (sort by_place cands)
              (choose-IsSettled 0 (sort by_place cands) proper
                (sort-IsOrdered by_place (IsSigned-IsComparison _ by_place-IsSigned) cands)));
    }

keep-is_proper :
    (m : Match) (order : ℕ) (p : Option Payload) (rest : List Candidate)
    → eqb m.size 0 ≡ false
    → All (λ c. is_proper c ≡ true) rest
    → All (λ c. is_proper c ≡ true) (keep m order p rest)
keep-is_proper m order none rest q h = h
keep-is_proper m order (some p) rest q h = (ground (arith, q), h)

collect_matches-is_proper :
    (order : ℕ) (ms : List Match) → All (λ c. is_proper c ≡ true) (collect_matches order ms)
unfolding collect_matches
collect_matches-is_proper order [] = tt
collect_matches-is_proper order (m ∷ ms) = elim (Bool-cases (eqb m.size 0)) [
  | inl q ↦ rw q (collect_matches-is_proper order ms)
  | inr q ↦ rw q (
      keep-is_proper m order m.payload (collect_matches order ms) q
        (collect_matches-is_proper order ms))
]

-- What the matchers find is not empty.
pub collect-is_proper :
    (text : Text) (matchers : List Matcher) (order : ℕ)
    → All (λ c. is_proper c ≡ true) (collect text matchers order)
unfolding collect
collect-is_proper text [] order = tt
collect-is_proper text (matcher ∷ matchers) order =
    All-append (λ c. is_proper c ≡ true) (collect_matches order (matcher text))
      (collect text matchers (order + 1)) (collect_matches-is_proper order (matcher text))
      (collect-is_proper text matchers (order + 1))
