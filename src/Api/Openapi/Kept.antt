-- ===== src/Api/Openapi/Kept.antt =====
-- A definition that the document refers to is not dropped.
use projects_api.Common.{
  Text, lit, ◌==◌, ==_sound, ==_refl, ◌≡◌, ◌⊎◌, inl, inr, refl, sym, subst, ◌∙◌, Bool, true, false,
  none, some, List, [], ◌∷◌, ◌++◌, if◌then◌else◌, arith, Bool-cases, Option-cases,
}
use projects_api.Json.{
  Json, Items, Fields, null, bool, number, string, array, object, nil, cons, end, field, put,
}
use projects_api.Json.Dict.{get, pop}
use projects_api.Json.Dict.Laws.{get-put, get-pop}
use projects_api.Json.Print.{escape_all, quoted, separator, print, print_items, print_fields}
use projects_api.Domain.Exceptions.{Result, ok}
use projects_api.Api.Openapi.References.{
  starts_with, contains, reference, dumps, pop_all, removed, restore, with_schemas,
  drop_unreferenced,
}

-- A text is one of the strings of a document.
abbrev mutual
  pub Occurs : Text → Json → Type 0
  Occurs s (string t) = s ≡ t
  Occurs s (array xs) = OccursItems s xs
  Occurs s (object fs) = OccursFields s fs
  Occurs s _ = ⊥

  pub OccursItems : Text → Items → Type 0
  OccursItems s nil = ⊥
  OccursItems s (cons x xs) = Occurs s x ⊎ OccursItems s xs

  pub OccursFields : Text → Fields → Type 0
  OccursFields s end = ⊥
  OccursFields s (field k v fs) = Occurs s v ⊎ OccursFields s fs

starts_with_refl : (s : Text) → starts_with s s ≡ true
unfolding starts_with
starts_with_refl [] = refl
starts_with_refl (c ∷ s) = ground (arith, starts_with_refl s)

starts_with_longer : (p s t : Text) → starts_with p s ≡ true → starts_with p (s ++ t) ≡ true
unfolding starts_with
starts_with_longer [] s t h = refl
starts_with_longer (c ∷ p) [] t h = cc (h)
starts_with_longer (c ∷ p) (d ∷ s) t h = ground (arith, starts_with_longer p s t)

contains_of_start : (p s : Text) → starts_with p s ≡ true → contains p s ≡ true
unfolding contains
contains_of_start p [] h = h
contains_of_start p (c ∷ s) h = rw h refl

contains_behind : (p a s : Text) → contains p s ≡ true → contains p (a ++ s) ≡ true
unfolding contains
contains_behind p [] s h = h
contains_behind p (c ∷ a) s h = ground (arith, contains_behind p a s h)

contains_before : (p s t : Text) → contains p s ≡ true → contains p (s ++ t) ≡ true
unfolding contains
contains_before p [] t h = contains_of_start p t (starts_with_longer p [] t h)
contains_before p (c ∷ s) t h =
    ground (arith, starts_with_longer p (c ∷ s) t, contains_before p s t)

module _ (comma colon s : Text) where
  mutual
    unfolding print

    contains-print : (v : Json) → Occurs s v → contains (quoted s) (print comma colon v) ≡ true
    contains-print (string t) e =
        rw (← e) (contains_of_start (quoted s) (quoted s) (starts_with_refl (quoted s)))
    contains-print (array xs) h =
        contains_behind (quoted s) (b'[' ∷ []) (print_items comma colon true xs)
          (contains-items true xs h)
    contains-print (object fs) h =
        contains_behind (quoted s) (b'{' ∷ []) (print_fields comma colon true fs)
          (contains-fields true fs h)
    contains-print null h = absurd h
    contains-print (bool true) h = absurd h
    contains-print (bool false) h = absurd h
    contains-print (number n) h = absurd h

    contains-items :
        (first : Bool) (xs : Items)
        → OccursItems s xs
        → contains (quoted s) (print_items comma colon first xs) ≡ true
    contains-items first nil h = absurd h
    contains-items first (cons x xs) (inl h) =
        contains_behind (quoted s) (separator comma colon first) _
          (contains_before (quoted s) (print comma colon x) _ (contains-print x h))
    contains-items first (cons x xs) (inr h) =
        contains_behind (quoted s) (separator comma colon first) _
          (contains_behind (quoted s) (print comma colon x) _ (contains-items false xs h))

    contains-fields :
        (first : Bool) (fs : Fields)
        → OccursFields s fs
        → contains (quoted s) (print_fields comma colon first fs) ≡ true
    contains-fields first end h = absurd h
    contains-fields first (field k v fs) (inl h) =
        contains_behind (quoted s) (separator comma colon first) _ (
          contains_behind (quoted s) (quoted k) _ (
            contains_behind (quoted s) colon _
              (contains_before (quoted s) (print comma colon v) _ (contains-print v h))))
    contains-fields first (field k v fs) (inr h) =
        contains_behind (quoted s) (separator comma colon first) _ (
          contains_behind (quoted s) (quoted k) _ (
            contains_behind (quoted s) colon _
              (contains_behind (quoted s) (print comma colon v) _ (contains-fields false fs h))))

module _ (dumped name : Text) where
  get_unless :
      (b : Bool) (n : Text) (v : Json) (base : Fields)
      → (n == name) ≡ false
      → get name (if b then put n v base else base) ≡ get name base
  get_unless true n v base h = get-put name n v base ∙ rw h refl
  get_unless false n v base h = refl

  popped_none :
      (n : Text) (schemas : Fields) → get name schemas ≡ none → get name (pop n schemas) ≡ none
  popped_none n schemas h = get-pop name n schemas ∙ of (n == name)
    where
      of : (b : Bool) → (if b then none else get name schemas) ≡ none
      of true = refl
      of false = h

  restore_other :
      (names : List Text) (schemas base : Fields)
      → get name schemas ≡ none
      → get name (restore dumped (removed names schemas) base) ≡ get name base
  unfolding restore
  restore_other [] schemas base h = refl
  restore_other (n ∷ names) schemas base h =
      let gone = popped_none n schemas h in
      elim (Option-cases (get n schemas)) [
        | inl e ↦ rw e (restore_other names (pop n schemas) base gone)
        | inr (v, e) ↦ elim (Bool-cases (n == name)) [
          | inl q ↦ cc (h, e, ==_sound n name q)
          | inr q ↦ rw e (
              restore_other names (pop n schemas) _ gone
              ∙ get_unless (contains (b'"' ∷ (reference n ++ b'"' ∷ [])) dumped) n v base q)
        ]
      ]

  get-restore :
      (names : List Text) (schemas base : Fields) (definition : Json)
      → contains (b'"' ∷ (reference name ++ b'"' ∷ [])) dumped ≡ true
      → get name schemas ≡ some definition
      → get name base ≡ get name (pop_all names schemas)
      → get name (restore dumped (removed names schemas) base) ≡ some definition
  unfolding restore
  get-restore [] schemas base d c there same = same ∙ there
  get-restore (n ∷ names) schemas base d c there same = elim (Bool-cases (n == name)) [
    | inl q ↦
        let e = ==_sound n name q in
        let found : get n schemas ≡ some d = rw e there in
        rw found (
          restore_other names (pop n schemas) _ (get-pop name n schemas ∙ rw q refl)
          ∙ rw e (rw c (get-put name name d base ∙ rw (==_refl name) refl)))
    | inr q ↦
        let still : get name (pop n schemas) ≡ some d = get-pop name n schemas ∙ rw q there in
        elim (Option-cases (get n schemas)) [
          | inl e ↦ rw e (get-restore names (pop n schemas) base d c still same)
          | inr (v, e) ↦ rw e (
              get-restore names (pop n schemas) _ d c still (
                get_unless (contains (b'"' ∷ (reference n ++ b'"' ∷ [])) dumped) n v base q ∙ same))
        ]
  ]

quoted_plain : (s : Text) → escape_all s ≡ s → quoted s ≡ b'"' ∷ (s ++ b'"' ∷ [])
unfolding quoted
quoted_plain s h = rw h refl

fields_cancel : (fs gs : Fields) → ◌≡◌ {A = Result Fields} (ok fs) (ok gs) → fs ≡ gs
fields_cancel fs gs h = cc (h)

contains-named :
    (comma colon s : Text) (v : Json)
    → escape_all s ≡ s
    → Occurs s v
    → contains (b'"' ∷ (s ++ b'"' ∷ [])) (print comma colon v) ≡ true
contains-named comma colon s v h o =
    subst (λ (q : Text). contains q (print comma colon v) ≡ true) (quoted_plain s h)
      (contains-print comma colon s v o)

-- Where `_drop_unreferenced` returns for a document with component schemas, it has changed nothing
-- but these; a definition stays if some string of the document without the named definitions refers
-- to it, for a name that JSON prints unescaped.
pub drop_unreferenced-keeps :
    (names : List Text) (schema document components schemas : Fields) (name : Text)
    (definition : Json)
    → drop_unreferenced names schema ≡ ok document
    → get (lit "components") schema ≡ some (object components)
    → get (lit "schemas") components ≡ some (object schemas)
    → get name schemas ≡ some definition
    → escape_all (reference name) ≡ reference name
    → Occurs (reference name) (object (with_schemas schema components (pop_all names schemas)))
    → (kept : Fields) × (document ≡ with_schemas schema components kept)
      × (get name kept ≡ some definition)
unfolding drop_unreferenced
drop_unreferenced-keeps names schema document components schemas name definition h c s there plain
      o =
    let tree = object (with_schemas schema components (pop_all names schemas)) in
    let named = contains-named (lit ", ") (lit ": ") (reference name) tree plain o in
    (
      restore (dumps tree) (removed names schemas) (pop_all names schemas),
      sym (fields_cancel _ document (rw (c, s) at h)),
      get-restore (dumps tree) name names schemas (pop_all names schemas) definition named there
          refl,
    )
