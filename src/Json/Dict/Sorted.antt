-- ===== src/Json/Dict/Sorted.antt =====
-- `sorted` puts the names of a `dict` in order.
use projects_api.Common.{Text, ◌≡◌, refl, true, false, [], ◌∷◌, arith, Bool-cases, inl, inr}
use projects_api.Json.{Json, Fields, end, field}
use projects_api.Json.Print.{text_le, insert_field, sort_fields}

-- No name of the fields is before `k`.
abbrev pub NoneBefore : Text → Fields → Type 0
NoneBefore k end = Unit
NoneBefore k (field j v fs) = (text_le k j ≡ true) × NoneBefore k fs

abbrev pub IsSorted : Fields → Type 0
IsSorted end = Unit
IsSorted (field k v fs) = NoneBefore k fs × IsSorted fs

text_le_total : (s t : Text) → text_le s t ≡ false → text_le t s ≡ true
unfolding text_le
text_le_total [] t h = cc (h)
text_le_total (c ∷ s) [] h = refl
text_le_total (c ∷ s) (d ∷ t) h = ground (arith, text_le_total s t)

text_le_trans : (s t u : Text) → text_le s t ≡ true → text_le t u ≡ true → text_le s u ≡ true
unfolding text_le
text_le_trans [] t u h k = refl
text_le_trans (c ∷ s) [] u h k = cc (h)
text_le_trans (c ∷ s) (d ∷ t) [] h k = cc (k)
text_le_trans (c ∷ s) (d ∷ t) (e ∷ u) h k = ground (arith, text_le_trans s t u)

NoneBefore-trans :
    (j k : Text) (fs : Fields) → text_le j k ≡ true → NoneBefore k fs → NoneBefore j fs
NoneBefore-trans j k end h v = tt
NoneBefore-trans j k (field i v fs) h (le, rest) =
    (text_le_trans j k i h le, NoneBefore-trans j k fs h rest)

insert_field-NoneBefore :
    (j k : Text) (v : Json) (fs : Fields)
    → text_le j k ≡ true
    → NoneBefore j fs
    → NoneBefore j (insert_field k v fs)
unfolding insert_field
insert_field-NoneBefore j k v end h n = (h, tt)
insert_field-NoneBefore j k v (field i w fs) h (le, rest) = elim (Bool-cases (text_le k i)) [
  | inl e ↦ rw e (h, (le, rest))
  | inr e ↦ rw e (le, insert_field-NoneBefore j k v fs h rest)
]

insert_field-IsSorted :
    (k : Text) (v : Json) (fs : Fields) → IsSorted fs → IsSorted (insert_field k v fs)
unfolding insert_field
insert_field-IsSorted k v end h = (tt, tt)
insert_field-IsSorted k v (field i w fs) (n, rest) = elim (Bool-cases (text_le k i)) [
  | inl e ↦ rw e ((e, NoneBefore-trans k i fs e n), (n, rest))
  | inr e ↦
      rw e (
        insert_field-NoneBefore i k v fs (text_le_total k i e) n,
        insert_field-IsSorted k v fs rest,
      )
]

pub sort_fields-IsSorted : (fs : Fields) → IsSorted (sort_fields fs)
unfolding sort_fields
sort_fields-IsSorted end = tt
sort_fields-IsSorted (field k v fs) =
    insert_field-IsSorted k v (sort_fields fs) (sort_fields-IsSorted fs)
