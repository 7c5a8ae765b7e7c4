-- ===== src/Parser/Title/Uncovered.antt =====
-- What packages/nl-parser/src/title.ts leaves of a text: an independent description, by positions.
use balu_todo.Prelude.{
  ℕ, zero, suc, ◌+◌, ◌-◌, ◌<◌, ◌≤◌, max, ◌≡◌, sym, refl, ap, ◌∙◌, Bool, true, false, ◌&&◌, ◌||◌,
  List, [], ◌∷◌, ◌++◌, take, drop, arith, leb, ltb, All, All-weaken, Bool-cases, inl, inr,
  if◌then◌else◌,
}
use balu_todo.Prelude.Int.{pos}
use balu_todo.Prelude.Sort.{sort, insert, goes_first}
use balu_todo.Prelude.Sort.Laws.{IsOrdered, IsFirst, sort-IsOrdered, All-sort}
use balu_todo.Prelude.Compare.Laws.{IsSigned-IsComparison, difference-IsSigned}
use balu_todo.Parser.Types.{Text, Span}
use balu_todo.Parser.Title.{slice, by_first, strip_from}

abbrev pub is_in : ℕ → Span → Bool
is_in i s = leb s.first i && ltb i s.past

-- Some span has the position.
abbrev pub is_covered : ℕ → List Span → Bool
is_covered i [] = false
is_covered i (s ∷ spans) = is_in i s || is_covered i spans

-- The units at positions that no span has, where the first unit is at the position `i`.
abbrev pub uncovered : ℕ → List Span → Text → Text
uncovered i spans [] = []
uncovered i spans (c ∷ text) =
    let rest = uncovered (suc i) spans text in if is_covered i spans then rest else c ∷ rest

-- A span that does not end before it begins.
abbrev pub is_span : Span → Bool
is_span s = leb s.first s.past

drop_all : (k : ℕ) → drop {A = ℕ} k [] ≡ []
drop_all zero = refl
drop_all (suc k) = refl

drop_at : (m n : ℕ) (text : Text) → m ≡ n → drop m text ≡ drop n text
drop_at m n text e = ap (λ k. drop k text) e

uncovered_at :
    (m n : ℕ) (spans : List Span) (text : Text)
    → m ≡ n
    → uncovered m spans text ≡ uncovered n spans text
uncovered_at m n spans text e = ap (λ k. uncovered k spans text) e

drop-drop : (a b : ℕ) (text : Text) → drop b (drop a text) ≡ drop (a + b) text
drop-drop zero b text = drop_at b (zero + b) text (omega arith)
drop-drop (suc a) b [] =
    drop_all b ∙ sym (drop_all (suc (a + b))) ∙ drop_at (suc (a + b)) (suc a + b) [] (omega arith)
drop-drop (suc a) b (c ∷ text) =
    drop-drop a b text ∙ drop_at (suc (a + b)) (suc a + b) (c ∷ text) (omega arith)

take_all : (k : ℕ) → take {A = ℕ} k [] ≡ []
take_all zero = refl
take_all (suc k) = refl

slice_at : (a m n : ℕ) (text : Text) → m ≡ n → slice text a m ≡ slice text a n
slice_at a m n text e = ap (λ k. slice text a k) e

slice-drop : (a k : ℕ) (text : Text) → slice text a (a + k) ≡ take k (drop a text)
slice-drop zero k text = slice_at zero (zero + k) k text (omega arith)
slice-drop (suc a) k [] =
    slice_at (suc a) (suc a + k) (suc (a + k)) [] (omega arith) ∙ sym (take_all k)
slice-drop (suc a) k (c ∷ text) =
    slice_at (suc a) (suc a + k) (suc (a + k)) (c ∷ text) (omega arith) ∙ slice-drop a k text

-- A stretch of covered positions leaves nothing.
uncovered_skip :
    (k i : ℕ) (spans : List Span) (text : Text)
    → ((j : ℕ) → i ≤ j → j < i + k → is_covered j spans ≡ true)
    → uncovered i spans text ≡ uncovered (i + k) spans (drop k text)
uncovered_skip zero i spans text h = uncovered_at i (i + zero) spans text (omega arith)
uncovered_skip (suc k) i spans [] h = refl
uncovered_skip (suc k) i spans (c ∷ text) h =
    let here : is_covered i spans ≡ true = h i (omega arith) (omega arith) in
    rw here (
      uncovered_skip k (suc i) spans text (λ j a b. h j (omega (arith, a)) (omega (arith, b)))
      ∙ uncovered_at (suc i + k) (i + suc k) spans (drop k text) (omega arith))

-- A stretch of uncovered positions stays.
uncovered_keep :
    (k i : ℕ) (spans : List Span) (text : Text)
    → ((j : ℕ) → i ≤ j → j < i + k → is_covered j spans ≡ false)
    → uncovered i spans text ≡ take k text ++ uncovered (i + k) spans (drop k text)
uncovered_keep zero i spans text h = uncovered_at i (i + zero) spans text (omega arith)
uncovered_keep (suc k) i spans [] h = refl
uncovered_keep (suc k) i spans (c ∷ text) h =
    let here : is_covered i spans ≡ false = h i (omega arith) (omega arith) in
    rw here (
      ap (λ l. c ∷ l)
        (uncovered_keep k (suc i) spans text (λ j a b. h j (omega (arith, a)) (omega (arith, b)))
          ∙ ap (λ l. take k text ++ l)
              (uncovered_at (suc i + k) (i + suc k) spans (drop k text) (omega arith))))

-- Behind a span it does not count.
uncovered_past :
    (i : ℕ) (s : Span) (spans : List Span) (text : Text)
    → s.past ≤ i
    → uncovered i (s ∷ spans) text ≡ uncovered i spans text
uncovered_past i s spans [] h = refl
uncovered_past i s spans (c ∷ text) h =
    ground (arith, h, uncovered_past (suc i) s spans text (omega (arith, h)))

uncovered_nil : (i : ℕ) (text : Text) → uncovered i [] text ≡ text
uncovered_nil i [] = refl
uncovered_nil i (c ∷ text) = ap (λ l. c ∷ l) (uncovered_nil (suc i) text)

-- No span covers a position before all of them.
before_all :
    (j : ℕ) (first : ℕ) (spans : List Span)
    → All (λ (s : Span). leb first s.first ≡ true) spans
    → j < first
    → is_covered j spans ≡ false
before_all j first [] h l = refl
before_all j first (s ∷ spans) (p, h) l = ground (arith, p, l, before_all j first spans h l)

module _ (s : Span) (spans : List Span) where
  -- From a position on that the first span has, or that is behind it, what follows the span.
  uncovered_behind :
      (i : ℕ) (text : Text)
      → s.first ≤ i
      → uncovered i (s ∷ spans) (drop i text)
        ≡ uncovered (max i s.past) spans (drop (max i s.past) text)
  uncovered_behind i text h =
      let k = max i s.past - i in
      let e : i + k ≡ max i s.past = omega arith in
      uncovered_skip k i (s ∷ spans) (drop i text) (λ j a b. ground (arith, a, b, h))
      ∙ uncovered_past (i + k) s spans (drop k (drop i text)) (omega arith)
      ∙ ap (λ l. uncovered (i + k) spans l) (drop-drop i k text)
      ∙ uncovered_at (i + k) (max i s.past) spans (drop (i + k) text) e
      ∙ ap (λ l. uncovered (max i s.past) spans l) (drop_at (i + k) (max i s.past) text e)

  -- From a position on that is before the span.
  uncovered_before :
      (i : ℕ) (text : Text)
      → i < s.first
      → s.first ≤ s.past
      → All (λ (d : Span). leb s.first d.first ≡ true) spans
      → uncovered i (s ∷ spans) (drop i text)
        ≡ slice text i s.first ++ uncovered (max i s.past) spans (drop (max i s.past) text)
  uncovered_before i text h p o =
      let k = s.first - i in
      let e : i + k ≡ s.first = omega (arith, h) in
      let m : max s.first s.past ≡ max i s.past = omega (arith, h, p) in
      uncovered_keep k i (s ∷ spans) (drop i text)
        (λ j a b. before_all j s.first (s ∷ spans) (ground arith, o) (omega (arith, b, h)))
      ∙ ap (λ l. take k (drop i text) ++ uncovered (i + k) (s ∷ spans) l) (drop-drop i k text)
      ∙ ap (λ n. take k (drop i text) ++ uncovered n (s ∷ spans) (drop n text)) e
      ∙ ap (λ l. l ++ uncovered s.first (s ∷ spans) (drop s.first text))
          (sym (slice-drop i k text) ∙ slice_at i (i + k) s.first text e)
      ∙ ap (λ l. slice text i s.first ++ l) (uncovered_behind s.first text (omega arith))
      ∙ ap (λ n. slice text i s.first ++ uncovered n spans (drop n text)) m

-- The loop over spans in order leaves what none of them covers.
IsFirst-leb :
    (s : Span) (spans : List Span)
    → IsFirst by_first s spans
    → All (λ (d : Span). leb s.first d.first ≡ true) spans
IsFirst-leb s spans h = All-weaken (λ d p. ground (arith, p)) spans h

strip_from-uncovered :
    (i : ℕ) (spans : List Span) (text : Text)
    → IsOrdered by_first spans
    → All (λ s. is_span s ≡ true) spans
    → strip_from text i spans ≡ uncovered i spans (drop i text)
unfolding strip_from
strip_from-uncovered i [] text o h = sym (uncovered_nil i (drop i text))
strip_from-uncovered i (s ∷ spans) text (f, o) (p, h) = elim (Bool-cases (ltb i s.first)) [
  | inl q ↦
      rw (q, strip_from-uncovered (max i s.past) spans text o h)
        (sym (
          uncovered_before s spans i text (ground (arith, q)) (ground (arith, p))
            (IsFirst-leb s spans f)))
  | inr q ↦
      rw (q, strip_from-uncovered (max i s.past) spans text o h)
        (sym (uncovered_behind s spans i text (ground (arith, q))))
]

swap_or : (a b c : Bool) → (a || (b || c)) ≡ (b || (a || c))
swap_or a b c = ground arith

is_covered-insert :
    (i : ℕ) (s : Span) (spans : List Span)
    → is_covered i (insert by_first s spans) ≡ is_covered i (s ∷ spans)
unfolding insert
is_covered-insert i s [] = refl
is_covered-insert i s (d ∷ spans) = elim (Bool-cases (goes_first by_first d s)) [
  | inl q ↦
      rw (q, is_covered-insert i s spans) (swap_or (is_in i d) (is_in i s) (is_covered i spans))
  | inr q ↦ rw q
]

is_covered-sort :
    (i : ℕ) (spans : List Span) → is_covered i (sort by_first spans) ≡ is_covered i spans
unfolding sort
is_covered-sort i [] = refl
is_covered-sort i (s ∷ spans) =
    is_covered-insert i s (sort by_first spans) ∙ ap (λ b. is_in i s || b) (is_covered-sort i spans)

uncovered-sort :
    (i : ℕ) (spans : List Span) (text : Text)
    → uncovered i (sort by_first spans) text ≡ uncovered i spans text
uncovered-sort i spans [] = refl
uncovered-sort i spans (c ∷ text) = rw (is_covered-sort i spans, uncovered-sort (suc i) spans text)

-- Without the given spans, in whatever order and however they overlap, the text is what stands at the
-- positions that none of them covers, if no span ends before it begins.
pub strip_from-sort :
    (spans : List Span) (text : Text)
    → All (λ s. is_span s ≡ true) spans
    → strip_from text 0 (sort by_first spans) ≡ uncovered 0 spans text
strip_from-sort spans text h =
    strip_from-uncovered 0 (sort by_first spans) text
      (sort-IsOrdered by_first
        (IsSigned-IsComparison by_first (difference-IsSigned (λ (s : Span). pos s.first))) spans)
      (All-sort by_first (λ s. is_span s ≡ true) spans h)
    ∙ uncovered-sort 0 spans text
