-- ===== src/Json/Dict/Laws.antt =====
-- What is read from a `dict` after it has changed.
use projects_api.Common.{
  Text, ◌==◌, ==_sound, ==_iff, ◌≡◌, refl, Bool, true, false, Option, none, some, [], ◌∷◌,
  if◌then◌else◌, arith, Option-cases, inl, inr,
}
use projects_api.Json.{Json, Fields, end, field, put}
use projects_api.Json.Print.{text_le, insert_field, sort_fields}
use projects_api.Json.Dict.{get, pop, setdefault}

pub get-put :
    (k n : Text) (v : Json) (fs : Fields)
    → get k (put n v fs) ≡ (if n == k then some v else get k fs)
unfolding get put
get-put k n v end = refl
get-put k n v (field j w fs) = ground (arith, ==_iff j n, ==_iff j k, ==_iff n k, get-put k n v fs)

pub get-pop : (k n : Text) (fs : Fields) → get k (pop n fs) ≡ (if n == k then none else get k fs)
unfolding get pop
get-pop k n end = ground arith
get-pop k n (field j w fs) = ground (arith, ==_iff j n, ==_iff j k, ==_iff n k, get-pop k n fs)

abbrev pub or_some : Option Json → Option Json → Option Json
or_some none o = o
or_some (some v) o = some v

or_none : (o : Option Json) → o ≡ or_some o none
or_none none = refl
or_none (some v) = refl

pub get-setdefault :
    (k n : Text) (v : Json) (fs : Fields)
    → get k (setdefault n v fs) ≡ or_some (get k fs) (if n == k then some v else none)
unfolding setdefault
get-setdefault k n v fs = elim (Option-cases (get n fs)) [
  | inl e ↦ rw e (rw get-put (none_case (n == k) (==_sound n k) e))
  | inr (w, e) ↦ rw e (some_case (n == k) (==_sound n k) e)
]
  where
    none_case :
        (b : Bool)
        → (b ≡ true → n ≡ k)
        → get n fs ≡ none
        → (if b then some v else get k fs) ≡ or_some (get k fs) (if b then some v else none)
    none_case true same e = rw (← same refl) (rw e refl)
    none_case false same e = or_none (get k fs)

    some_case :
        {w : Json} (b : Bool)
        → (b ≡ true → n ≡ k)
        → get n fs ≡ some w
        → get k fs ≡ or_some (get k fs) (if b then some v else none)
    some_case true same e = rw (← same refl) (rw e refl)
    some_case false same e = or_none (get k fs)

text_le_refl : (s : Text) → text_le s s ≡ true
unfolding text_le
text_le_refl [] = refl
text_le_refl (c ∷ s) = ground (arith, text_le_refl s)

le_of_same : (s t : Text) → s ≡ t → text_le s t ≡ true
le_of_same s t e = rw e (text_le_refl t)

get-insert_field :
    (k j : Text) (v : Json) (fs : Fields)
    → get k (insert_field j v fs) ≡ (if j == k then some v else get k fs)
unfolding get insert_field
get-insert_field k j v end = refl
get-insert_field k j v (field i w fs) =
    ground (arith, ==_iff i k, ==_iff j k, le_of_same j i, get-insert_field k j v fs)

-- Sorting is stable, so that the first field of a name stays the first.
pub get-sort_fields : (k : Text) (fs : Fields) → get k (sort_fields fs) ≡ get k fs
unfolding get sort_fields
get-sort_fields k end = refl
get-sort_fields k (field j v fs) = rw (get-insert_field, get-sort_fields k fs) refl
