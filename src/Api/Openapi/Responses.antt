-- ===== src/Api/Openapi/Responses.antt =====
-- The responses of an operation after `_problem_responses`.
use projects_api.Common.{
  Text, lit, ◌==◌, ==_sound, ==_refl, ==_ne, ◌≡◌, ◌≢◌, refl, sym, ◌∙◌, Bool, true, false, Option,
  none, some, List, [], ◌∷◌, if◌then◌else◌, Bool-cases, inl, inr,
}
use projects_api.Json.{Json, Fields, null, bool, number, string, array, object, end, field, put}
use projects_api.Json.Dict.{get, pop, setdefault}
use projects_api.Json.Dict.Laws.{get-put, get-pop, get-setdefault, get-sort_fields, or_some}
use projects_api.Json.Dict.Sorted.{IsSorted, sort_fields-IsSorted}
use projects_api.Json.Print.{sort_fields}
use projects_api.Domain.Exceptions.{Result, ok, Result-cases}
use projects_api.Api.Openapi.{
  dict_or_new, problem_content, defaults, described, add_defaults, is_success, with_problem,
  problem_contents, problem_responses,
}

-- A response whose only content is a problem.
abbrev pub HasProblem : Json → Type 0
HasProblem response =
    (fs : Fields) × (response ≡ object fs) × (get (lit "content") fs ≡ some problem_content)

abbrev pub IsThere : Text → Fields → Type 0
IsThere code responses = (response : Json) × (get code responses ≡ some response)

pub record ProblemResponses (public : Bool) (before after : Fields) : Type 0 where
  -- Successes are as they were, other responses but for their content.
  pub success : (code : Text) → is_success code ≡ true → get code after ≡ get code before
  pub kept :
      (code : Text) (fs : Fields)
      → is_success code ≡ false
      → code ≢ lit "422"
      → get code before ≡ some (object fs)
      → get code after ≡ some (object (put (lit "content") problem_content fs))
  pub problems :
      (code : Text) (response : Json)
      → is_success code ≡ false
      → get code after ≡ some response
      → HasProblem response
  pub sorted : IsSorted after
  pub no_422 : get (lit "422") after ≡ none
  pub error : IsThere (lit "500") after
  pub gateway : public ≡ false → IsThere (lit "403") after × IsThere (lit "429") after

-- How a response changes; the flag tells a success.
abbrev Changed : Bool → Option Json → Option Json → Type 0
Changed b none o = o ≡ none
Changed true (some v) o = o ≡ some v
Changed false (some v) o =
    (fs : Fields) × (v ≡ object fs) × (o ≡ some (object (put (lit "content") problem_content fs)))

with_problem-Changed :
    (b : Bool) (v w : Json)
    → (if b then ok v else with_problem v) ≡ ok w
    → Changed b (some v) (some w)
with_problem-Changed true v w h = cc (h)
with_problem-Changed false (object fs) w h = (fs, refl, cc (h))
with_problem-Changed false null w h = cc (h)
with_problem-Changed false (bool b) w h = cc (h)
with_problem-Changed false (number n) w h = cc (h)
with_problem-Changed false (string s) w h = cc (h)
with_problem-Changed false (array xs) w h = cc (h)

fields_cancel : (fs gs : Fields) → ◌≡◌ {A = Result Fields} (ok fs) (ok gs) → fs ≡ gs
fields_cancel fs gs h = cc (h)

problem_contents-Changed :
    (fs gs : Fields)
    → problem_contents fs ≡ ok gs
    → (code : Text) → Changed (is_success code) (get code fs) (get code gs)
unfolding problem_contents get
problem_contents-Changed end gs h code = rw (← fields_cancel end gs h) refl
problem_contents-Changed (field k v fs) gs h code =
    elim (Result-cases (if is_success k then ok v else with_problem v)) [
      | inr (e, d) ↦ cc (rw d at h)
      | inl (w, d) ↦ elim (Result-cases (problem_contents fs)) [
        | inr (e, f) ↦ cc (rw (d, f) at h)
        | inl (rest, f) ↦
            rw (← fields_cancel (field k w rest) gs (rw (d, f) at h))
              (elim (Bool-cases (k == code)) [
                | inl e ↦ rw (e, ← ==_sound k code e) (with_problem-Changed (is_success k) v w d)
                | inr e ↦ rw e (problem_contents-Changed fs rest f code)
              ])
      ]
    ]

abbrev default_of : List (Text × Text) → Text → Option Json
default_of [] code = none
default_of ((c, description) ∷ ds) code =
    or_some (if c == code then some (described description) else none) (default_of ds code)

or_some_assoc : (a b c : Option Json) → or_some (or_some a b) c ≡ or_some a (or_some b c)
or_some_assoc none b c = refl
or_some_assoc (some a) b c = refl

or_none : (a : Option Json) → or_some a none ≡ a
or_none none = refl
or_none (some a) = refl

get-add_defaults :
    (ds : List (Text × Text)) (fs : Fields) (code : Text)
    → get code (add_defaults ds fs) ≡ or_some (get code fs) (default_of ds code)
unfolding add_defaults
get-add_defaults [] fs code = sym (or_none (get code fs))
get-add_defaults ((c, d) ∷ ds) fs code =
    rw (get-add_defaults ds (setdefault c (described d) fs) code, get-setdefault)
      (or_some_assoc (get code fs) _ _)

success_ne : (c code : Text) → is_success c ≡ false → is_success code ≡ true → (c == code) ≡ false
success_ne c code h k = ==_ne c code (λ e. cc (e, h, k))

no_default :
    (public : Bool) (code : Text)
    → is_success code ≡ true
    → default_of (defaults public) code ≡ none
no_default public code h =
    let ne403 = success_ne (lit "403") code (unfold lit in refl) h in
    let ne429 = success_ne (lit "429") code (unfold lit in refl) h in
    let ne500 = success_ne (lit "500") code (unfold lit in refl) h in of public ne403 ne429 ne500
  where
    of :
        (public : Bool)
        → (lit "403" == code) ≡ false
        → (lit "429" == code) ≡ false
        → (lit "500" == code) ≡ false
        → default_of (defaults public) code ≡ none
    of true a b c = rw c refl
    of false a b c = rw (a, b, c) refl

no_422_default : (public : Bool) → default_of (defaults public) (lit "422") ≡ none
unfolding lit ◌==◌
no_422_default true = refl
no_422_default false = refl

default_500 :
    (public : Bool)
    → default_of (defaults public) (lit "500")
      ≡ some (described (lit "Unexpected error. Quote `requestId` when reporting it."))
unfolding lit ◌==◌
default_500 true = refl
default_500 false = refl

default_403 :
    default_of (defaults false) (lit "403")
    ≡ some (described (lit "Missing or invalid API key (rejected by API Gateway)."))
unfolding lit ◌==◌
default_403 = refl

default_429 :
    default_of (defaults false) (lit "429")
    ≡ some (described (lit "Throttled by the usage plan; retry with back-off."))
unfolding lit ◌==◌
default_429 = refl

module _ (public : Bool) (before : Fields) where
  abbrev base : Fields
  base = add_defaults (defaults public) (pop (lit "422") before)

  get-base :
      (code : Text)
      → get code base
        ≡ or_some
            (if lit "422" == code then none else get code before)
            (default_of (defaults public) code)
  get-base code = rw (get-add_defaults (defaults public), get-pop) refl

  module _ (contents : Fields) (h : problem_contents base ≡ ok contents) where
    -- One response of the result.
    changed :
        (code : Text) → Changed (is_success code) (get code base) (get code (sort_fields contents))
    changed code = rw get-sort_fields (problem_contents-Changed base contents h code)

    success_kept :
        (code : Text) → is_success code ≡ true → get code (sort_fields contents) ≡ get code before
    success_kept code s =
        let same : get code base ≡ get code before =
          get-base code
          ∙ rw (no_default public code s, success_ne (lit "422") code (unfold lit in refl) s)
              (or_none (get code before)) in
        of (get code base) _ (rw s at (changed code)) ∙ same
      where
        of : (o p : Option Json) → Changed true o p → p ≡ o
        of none p e = e
        of (some v) p e = e

    other_kept :
        (code : Text) (fs : Fields)
        → is_success code ≡ false
        → code ≢ lit "422"
        → get code before ≡ some (object fs)
        → get code (sort_fields contents) ≡ some (object (put (lit "content") problem_content fs))
    other_kept code fs s other there =
        let same : get code base ≡ some (object fs) =
          get-base code ∙ rw (==_ne (lit "422") code (λ e. other (sym e)), there) refl in
        of _ (rw (s, same) at (changed code))
      where
        of :
            (p : Option Json)
            → Changed false (some (object fs)) p
            → p ≡ some (object (put (lit "content") problem_content fs))
        of p (gs, e, q) = cc (e, q)

    other_problem :
        (code : Text) (response : Json)
        → is_success code ≡ false
        → get code (sort_fields contents) ≡ some response
        → HasProblem response
    other_problem code response s there = of (get code base) (rw (s, there) at (changed code))
      where
        of : (o : Option Json) → Changed false o (some response) → HasProblem response
        of none e = cc (e)
        of (some v) (fs, e, q) = (
          put (lit "content") problem_content fs,
          cc (q),
          get-put (lit "content") (lit "content") problem_content fs
              ∙ rw (==_refl (lit "content")) refl,
        )

    dropped : get (lit "422") (sort_fields contents) ≡ none
    dropped = of (is_success (lit "422")) _ _ none_there (changed (lit "422"))
      where
        none_there : get (lit "422") base ≡ none
        none_there = get-base (lit "422") ∙ rw (==_refl (lit "422")) (no_422_default public)

        of : (b : Bool) (o p : Option Json) → o ≡ none → Changed b o p → p ≡ none
        of b none p e q = q
        of b (some v) p e q = cc (e)

    defaulted :
        (code description : Text)
        → default_of (defaults public) code ≡ some (described description)
        → IsThere code (sort_fields contents)
    defaulted code description d =
        let (v, there) =
          of_or (if lit "422" == code then none else get code before) (described description) in
        let same : get code base ≡ some v = get-base code ∙ rw d there in
        of (is_success code) v _ (rw same at (changed code))
      where
        of_or : (o : Option Json) (w : Json) → (v : Json) × (or_some o (some w) ≡ some v)
        of_or none w = (w, refl)
        of_or (some v) w = (v, refl)

        of :
            (b : Bool) (v : Json) (p : Option Json)
            → Changed b (some v) p
            → (response : Json) × (p ≡ some response)
        of true v p q = (v, q)
        of false v p (fs, e, q) = (object (put (lit "content") problem_content fs), q)

    contents-ProblemResponses : ProblemResponses public before (sort_fields contents)
    contents-ProblemResponses = record {
      success = success_kept;
      kept = other_kept;
      problems = other_problem;
      sorted = sort_fields-IsSorted contents;
      no_422 = dropped;
      error = defaulted (lit "500") _ (default_500 public);
      gateway = λ e. (
        defaulted (lit "403") (lit "Missing or invalid API key (rejected by API Gateway).")
            (rw e default_403),
        defaulted (lit "429") (lit "Throttled by the usage plan; retry with back-off.")
            (rw e default_429),
      );
    }

object_cancel :
    (fs gs : Fields) → ◌≡◌ {A = Option Json} (some (object fs)) (some (object gs)) → fs ≡ gs
object_cancel fs gs h = cc (h)

-- Where `_problem_responses` returns, the responses that were declared have become: successes as
-- they were; every other response but 422 as it was, with a problem as its content; no 422; 500,
-- and 403 and 429 unless the operation is public; the codes are in order. Nothing but `responses`
-- has changed.
pub problem_responses-ok :
    (public : Bool) (operation done : Fields)
    → problem_responses public operation ≡ ok done
    → (before : Fields) × (after : Fields) × (dict_or_new (get (lit "responses") operation)
        ≡ ok before)
      × (get (lit "responses") done ≡ some (object after))
      × ProblemResponses public before after
      × ((name : Text) → name ≢ lit "responses" → get name done ≡ get name operation)
unfolding problem_responses
problem_responses-ok public operation done h =
    elim (Result-cases (dict_or_new (get (lit "responses") operation))) [
      | inr (e, d) ↦ cc (rw d at h)
      | inl (before, d) ↦ elim (Result-cases (problem_contents (base public before))) [
        | inr (e, f) ↦ cc (rw (d, f) at h)
        | inl (contents, f) ↦
            let written =
              fields_cancel (put (lit "responses") (object (sort_fields contents)) operation) done
                (rw (d, f) at h) in
            (
              before,
              sort_fields contents,
              d,
              rw (← written) (
                  get-put (lit "responses") (lit "responses") (object (sort_fields contents))
                    operation
                  ∙ rw (==_refl (lit "responses")) refl),
              contents-ProblemResponses public before contents f,
              λ name other. rw (← written) (
                  get-put name (lit "responses") (object (sort_fields contents)) operation
                  ∙ rw (==_ne (lit "responses") name (λ e. other (sym e))) refl),
            )
      ]
    ]
