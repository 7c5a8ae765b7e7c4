-- ===== src/Parser/Parse/Laws.antt =====
-- What `parseQuickAdd` of packages/nl-parser/src/index.ts makes of a text.
use mathlib.Core.Path.{subst}
use mathlib.Core.List.{append-nil, append_assoc}
use balu_todo.Prelude.{
  ◌≡◌, refl, sym, ap, ◌∙◌, Bool, true, Bool-cases, inl, inr, Option, none, some, String, List, [],
  ◌∷◌, ◌++◌, map, length, All, All-append, All-weaken, arith, leb, ltb, or_maybe,
}
use balu_todo.Domain.Types.{IsoDate}
use balu_todo.Prelude.Sort.{sort}
use balu_todo.Prelude.Sort.Laws.{IsOrdered, sort-IsOrdered_id}
use balu_todo.Parser.Types.{
  Text, Span, Token, ParseResult, Meaning, start, deadline, evening, label,
}
use balu_todo.Parser.Title.{build_title, strip_from, by_first}
use balu_todo.Parser.Title.Uncovered.{uncovered, is_span, strip_from-sort}
use balu_todo.Parser.Title.Tidy.{is_tidy, is_tidy-trim}
use balu_todo.Parser.Title.Words.{words_of, words_of-title}
use balu_todo.Parser.Resolve.{Candidate, Matcher, collect, resolve}
use balu_todo.Parser.Resolve.Laws.{is_proper, IsApart, resolve-IsResolved, collect-is_proper}
use balu_todo.Parser.Parse.{
  becomes_due, turn, absorb, absorb_keyword, has_deadline, read_token, read_tokens, token_of,
  by_start, empty_result, parse_quick_add,
}

abbrev pub span_of : Token → Span
span_of t = t.span

-- The spans are in order and do not overlap, and none is empty.
abbrev pub AreApart : List Span → Type 0
AreApart [] = Unit
AreApart (s ∷ spans) =
    (ltb s.first s.past ≡ true)
    × All (λ (d : Span). leb s.past d.first ≡ true) spans
    × AreApart spans

abbrev pub starts_on : Meaning → Option IsoDate
starts_on (start d) = some d
starts_on (evening d) = some d
starts_on m = none

abbrev pub due_on : Meaning → Option IsoDate
due_on (deadline d) = some d
due_on m = none

abbrev pub label_in : Meaning → List String
label_in (label q) = q ∷ []
label_in m = []

-- The value of the last token that has one.
abbrev pub last_of : {A : Type 0} → (Meaning → Option A) → List Token → Option A
last_of f [] = none
last_of f (t ∷ ts) = or_maybe (last_of f ts) (f t.meaning)

abbrev pub labels_in : List Token → List String
labels_in [] = []
labels_in (t ∷ ts) = label_in t.meaning ++ labels_in ts

pub record IsParsed (text : Text) (r : ParseResult) : Type 0 where
  pub apart : AreApart (map span_of r.tokens)
  pub words : words_of r.title ≡ words_of (uncovered 0 (map span_of r.tokens) text)
  pub tidy : is_tidy r.title ≡ true
  pub start_date : r.start_date ≡ last_of starts_on r.tokens
  pub deadline : r.deadline ≡ last_of due_on r.tokens
  pub labels : r.label_queries ≡ labels_in r.tokens

abbrev spans_of : List Candidate → List Span
spans_of cs = map (λ (c : Candidate). c.span) cs

spans_of-apart :
    (c : Candidate) (cs : List Candidate)
    → All (λ (d : Candidate). leb c.span.past d.span.first ≡ true) cs
    → All (λ (s : Span). leb c.span.past s.first ≡ true) (spans_of cs)
spans_of-apart c [] h = tt
spans_of-apart c (d ∷ cs) (p, h) = (p, spans_of-apart c cs h)

AreApart-spans_of :
    (cs : List Candidate) → All (λ c. is_proper c ≡ true) cs → IsApart cs → AreApart (spans_of cs)
AreApart-spans_of [] h a = tt
AreApart-spans_of (c ∷ cs) (p, h) (q, a) = (p, spans_of-apart c cs q, AreApart-spans_of cs h a)

-- What is apart is in the order of its places.
IsOrdered-apart :
    (cs : List Candidate) → All (λ c. is_proper c ≡ true) cs → IsApart cs → IsOrdered by_start cs
IsOrdered-apart [] h a = tt
IsOrdered-apart (c ∷ cs) (p, h) (q, a) =
    (All-weaken (λ d r. ground (arith, p, r)) cs q, IsOrdered-apart cs h a)

module _ (is_gap : Text → Bool) (text : Text) where
  spans_of-turn :
      (a b : Candidate) (o : Option Meaning) (rest later : List Candidate)
      → spans_of later ≡ spans_of (b ∷ rest)
      → spans_of (turn is_gap text a b o rest later) ≡ spans_of (a ∷ b ∷ rest)
  spans_of-turn a b none rest later h = ap (λ l. a.span ∷ l) h
  spans_of-turn a b (some m) rest later h = refl

  spans_of-absorb : (cs : List Candidate) → spans_of (absorb is_gap text cs) ≡ spans_of cs
  unfolding absorb
  spans_of-absorb [] = refl
  spans_of-absorb (a ∷ []) = refl
  spans_of-absorb (a ∷ b ∷ rest) =
      spans_of-turn a b (becomes_due is_gap text a b) rest (absorb is_gap text (b ∷ rest))
        (spans_of-absorb (b ∷ rest))

  spans_of-absorb_keyword :
      (cs : List Candidate) → spans_of (absorb_keyword is_gap text cs) ≡ spans_of cs
  unfolding absorb_keyword
  spans_of-absorb_keyword cs = elim (Bool-cases (has_deadline cs)) [
    | inl q ↦ rw q
    | inr q ↦ rw q (spans_of-absorb cs)
  ]

or_maybe_assoc :
    {A : Type 0} (a b c : Option A) → or_maybe a (or_maybe b c) ≡ or_maybe (or_maybe a b) c
or_maybe_assoc none b c = refl
or_maybe_assoc (some a) b c = refl

or_maybe-none : {A : Type 0} (a : Option A) → or_maybe a none ≡ a
or_maybe-none none = refl
or_maybe-none (some a) = refl

tokens-read_token :
    (c : Candidate) (m : Meaning) (r : ParseResult) → (read_token c m r).tokens ≡ r.tokens
tokens-read_token c (start d) r = refl
tokens-read_token c _ r = refl

start_date-read_token :
    (c : Candidate) (m : Meaning) (r : ParseResult)
    → (read_token c m r).start_date ≡ or_maybe (starts_on m) r.start_date
start_date-read_token c (start d) r = refl
start_date-read_token c (evening d) r = refl
start_date-read_token c _ r = refl

deadline-read_token :
    (c : Candidate) (m : Meaning) (r : ParseResult)
    → (read_token c m r).deadline ≡ or_maybe (due_on m) r.deadline
deadline-read_token c (deadline d) r = refl
deadline-read_token c _ r = refl

label_queries-read_token :
    (c : Candidate) (m : Meaning) (r : ParseResult)
    → (read_token c m r).label_queries ≡ r.label_queries ++ label_in m
label_queries-read_token c (label q) r = refl
label_queries-read_token c _ r = sym (append-nil r.label_queries)

-- The result with the token of a candidate added.
abbrev with_token : Candidate → ParseResult → ParseResult
with_token c r = record r { tokens = r.tokens ++ token_of c ∷ [] }

tokens-read_tokens :
    (r : ParseResult) (cs : List Candidate)
    → (read_tokens r cs).tokens ≡ r.tokens ++ map token_of cs
unfolding read_tokens
tokens-read_tokens r [] = sym (append-nil r.tokens)
tokens-read_tokens r (c ∷ cs) =
    tokens-read_tokens (read_token c c.meaning (with_token c r)) cs
    ∙ ap (λ l. l ++ map token_of cs) (tokens-read_token c c.meaning (with_token c r))
    ∙ append_assoc r.tokens (token_of c ∷ []) (map token_of cs)

start_date-read_tokens :
    (r : ParseResult) (cs : List Candidate)
    → (read_tokens r cs).start_date ≡ or_maybe (last_of starts_on (map token_of cs)) r.start_date
unfolding read_tokens
start_date-read_tokens r [] = refl
start_date-read_tokens r (c ∷ cs) =
    start_date-read_tokens (read_token c c.meaning (with_token c r)) cs
    ∙ ap (λ o. or_maybe (last_of starts_on (map token_of cs)) o)
        (start_date-read_token c c.meaning (with_token c r))
    ∙ or_maybe_assoc (last_of starts_on (map token_of cs)) (starts_on c.meaning) r.start_date

deadline-read_tokens :
    (r : ParseResult) (cs : List Candidate)
    → (read_tokens r cs).deadline ≡ or_maybe (last_of due_on (map token_of cs)) r.deadline
unfolding read_tokens
deadline-read_tokens r [] = refl
deadline-read_tokens r (c ∷ cs) =
    deadline-read_tokens (read_token c c.meaning (with_token c r)) cs
    ∙ ap (λ o. or_maybe (last_of due_on (map token_of cs)) o)
        (deadline-read_token c c.meaning (with_token c r))
    ∙ or_maybe_assoc (last_of due_on (map token_of cs)) (due_on c.meaning) r.deadline

label_queries-read_tokens :
    (r : ParseResult) (cs : List Candidate)
    → (read_tokens r cs).label_queries ≡ r.label_queries ++ labels_in (map token_of cs)
unfolding read_tokens
label_queries-read_tokens r [] = sym (append-nil r.label_queries)
label_queries-read_tokens r (c ∷ cs) =
    label_queries-read_tokens (read_token c c.meaning (with_token c r)) cs
    ∙ ap (λ l. l ++ labels_in (map token_of cs))
        (label_queries-read_token c c.meaning (with_token c r))
    ∙ append_assoc r.label_queries (label_in c.meaning) (labels_in (map token_of cs))

span_of-token_of : (cs : List Candidate) → map span_of (map token_of cs) ≡ spans_of cs
span_of-token_of [] = refl
span_of-token_of (c ∷ cs) = ap (λ l. c.span ∷ l) (span_of-token_of cs)

is_span-apart : (spans : List Span) → AreApart spans → All (λ s. is_span s ≡ true) spans
is_span-apart [] h = tt
is_span-apart (s ∷ spans) (p, q, h) = (ground (arith, p), is_span-apart spans h)

-- The result that the source makes of its chosen candidates.
abbrev made_of : Text → List Candidate → ParseResult
made_of text chosen = record (read_tokens empty_result chosen) {
  title = build_title text (map (λ (c : Candidate). c.span) chosen);
}

spans_of-result :
    (text : Text) (cs : List Candidate) → map span_of (made_of text cs).tokens ≡ spans_of cs
spans_of-result text cs =
    ap (λ l. map span_of l) (tokens-read_tokens empty_result cs) ∙ span_of-token_of cs

words-result :
    (text : Text) (cs : List Candidate)
    → AreApart (spans_of cs)
    → words_of (build_title text (spans_of cs)) ≡ words_of (uncovered 0 (spans_of cs) text)
unfolding build_title
words-result text cs a =
    words_of-title (strip_from text 0 (sort by_first (spans_of cs)))
    ∙ ap words_of (strip_from-sort (spans_of cs) text (is_span-apart (spans_of cs) a))

tidy-build_title : (text : Text) (spans : List Span) → is_tidy (build_title text spans) ≡ true
unfolding build_title
tidy-build_title text spans = is_tidy-trim (strip_from text 0 (sort by_first spans))

IsParsed-result :
    (text : Text) (cs : List Candidate) → AreApart (spans_of cs) → IsParsed text (made_of text cs)
IsParsed-result text cs a =
    let e = spans_of-result text cs in
    let t = tokens-read_tokens empty_result cs in
    record {
      apart = subst AreApart (sym e) a;
      words = words-result text cs a ∙ ap (λ l. words_of (uncovered 0 l text)) (sym e);
      tidy = tidy-build_title text (spans_of cs);
      start_date =
          start_date-read_tokens empty_result cs
          ∙ or_maybe-none (last_of starts_on (map token_of cs))
          ∙ ap (last_of starts_on) (sym t);
      deadline =
          deadline-read_tokens empty_result cs
          ∙ or_maybe-none (last_of due_on (map token_of cs))
          ∙ ap (last_of due_on) (sym t);
      labels = label_queries-read_tokens empty_result cs ∙ ap labels_in (sym t);
    }

chosen_apart :
    (cands : List Candidate)
    → All (λ c. is_proper c ≡ true) cands
    → AreApart (spans_of (sort by_start (resolve cands)))
chosen_apart cands h =
    let d = resolve-IsResolved cands h in
    let proper = d.sound is_proper h in
    subst (λ l. AreApart (spans_of l))
      (sym (
        sort-IsOrdered_id by_start (resolve cands)
          (IsOrdered-apart (resolve cands) proper d.apart)))
      (AreApart-spans_of (resolve cands) proper d.apart)

-- Whatever the matchers find in a text: the tokens of the result are in order, not empty, and do not
-- overlap; the title has the words of the text that no token covers, in order, its only spaces are single
-- blanks, and it has none at its ends; the start date is that of the last start or evening token,
-- the deadline that of the last deadline token, and the label queries are those of the label tokens, in
-- order.
pub parse_quick_add-IsParsed :
    (is_gap : Text → Bool) (symbols matchers : List Matcher) (text : Text)
    → IsParsed text (parse_quick_add is_gap symbols matchers text)
unfolding parse_quick_add
parse_quick_add-IsParsed is_gap symbols matchers text =
    let cands = collect text symbols 0 ++ collect text matchers (length symbols) in
    let proper =
      All-append (λ c. is_proper c ≡ true) (collect text symbols 0)
        (collect text matchers (length symbols)) (collect-is_proper text symbols 0)
        (collect-is_proper text matchers (length symbols)) in
    let chosen = sort by_start (resolve cands) in
    IsParsed-result text (absorb_keyword is_gap text chosen) (
      subst AreApart (sym (spans_of-absorb_keyword is_gap text chosen)) (chosen_apart cands proper))
