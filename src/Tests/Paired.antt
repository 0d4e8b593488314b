-- ===== src/Tests/Paired.antt =====
-- An index of two projects of one owner.
use projects_api.Common.{
  ◌≤◌, Text, lit, ◌≡◌, refl, ◌∙◌, subst, ◌&&◌, true, Option, none, some, List, [], ◌∷◌, ◌++◌, All,
  length, leb, and-eq-true, arith, if◌then◌else◌, Bool-cases, inl, inr, ◌⊎◌, All-map,
}
use projects_api.Json.Print.{text_le}
use projects_api.Dynamo.{text, Attribute, attribute, Item, Key, Query, done, Dynamo}
use projects_api.Dynamo.Behaviour.{Contents, Documented, is_text}
use projects_api.Repository.Index.{Index, NotAfter, Descending}
use projects_api.Tests.Memory.{
  found_items, found_items_seen, length-found_items, found_items-Descending, indexed, memory,
  memory_documented, page_of,
}
use projects_api.Domain.Models.{Project, Datetime}
use projects_api.Domain.Models.Times.{IsWhole, days_in_month}
use projects_api.Repository.Records.{record_key}
use projects_api.Tests.Data.{demo, noon}

abbrev morning : Datetime
morning = record noon { month = 2; hour = 9 }

-- Created a month later.
abbrev pub later : Project
later = record demo {
  project_id = lit "prj_00000000000000000000000000000001";
  name = lit "Second App";
  created_at = morning;
  updated_at = morning;
}

pub morning-IsWhole : IsWhole morning
unfolding days_in_month
morning-IsWhole = record {
  year = (omega arith, omega arith);
  month = (omega arith, omega arith);
  day = (omega arith, omega arith);
  hour = omega arith;
  minute = omega arith;
  second = omega arith;
  whole = refl;
}

abbrev sort_text : Option Attribute → Text
sort_text (some (text s)) = s
sort_text _ = []

-- The index has two projects, of which a page has both only in order.
abbrev of_two : Query → Option Item → Option Item → List Item
of_two q none older = found_items q older
of_two q (some newer) none = found_items q (some newer)
of_two q (some newer) (some older) =
    if leb 2 q.limit
      && text_le (sort_text (attribute "GSI1SK" older)) (sort_text (attribute "GSI1SK" newer))
    then found_items q (some newer) ++ found_items q (some older)
    else found_items q (some newer)

abbrev page_items : Query → Contents → List Item
page_items q c = of_two q (c (record_key later.project_id)) (c indexed)

abbrev pub paired : Dynamo
paired = record memory {
  query = λ q c. (done (record { items = page_items q c; last_key = none }), c);
}

abbrev pub paired_documented : Documented paired
paired_documented = record {
  contents = memory_documented.contents;
  get_reads = memory_documented.get_reads;
  get_keeps = memory_documented.get_keeps;
  query_keeps = λ q c. refl;
  transact_done = memory_documented.transact_done;
  transact_failed = memory_documented.transact_failed;
  transact_cancelled = memory_documented.transact_cancelled;
  update_done = memory_documented.update_done;
  update_failed = memory_documented.update_failed;
  update_refused = memory_documented.update_refused;
}

module _ (q : Query) where
  length-found : (o : Option Item) → length (found_items q o) ≤ 1
  length-found none = omega arith
  length-found (some item) = ground arith

  pub length-of_two : (a b : Option Item) → length (of_two q a b) ≤ q.limit
  length-of_two none b = length-found_items q b
  length-of_two (some a) none = length-found_items q (some a)
  length-of_two (some a) (some b) = ground (arith, length-found_items q (some a))

module _ (q : Query) where
  one_or_none :
      (item : Item) → (found_items q (some item) ≡ item ∷ []) ⊎ (found_items q (some item) ≡ [])
  one_or_none item =
      elim (Bool-cases (is_text q.partition (attribute "GSI1PK" item) && leb 1 q.limit)) [
        | inl e ↦ inl (rw e refl)
        | inr e ↦ inr (rw e refl)
      ]

  in_order :
      (a b : Item)
      → text_le (sort_text (attribute "GSI1SK" b)) (sort_text (attribute "GSI1SK" a)) ≡ true
      → NotAfter a b
  in_order a b h s t e f = rw (e, f) at h

  pair-Descending :
      (a b : Item) → NotAfter a b → Descending (found_items q (some a) ++ found_items q (some b))
  pair-Descending a b h = elim (one_or_none a) [
    | inr e ↦ rw e (found_items-Descending q (some b))
    | inl e ↦ elim (one_or_none b) [
      | inl f ↦ rw (e, f) ((h, tt), (tt, tt))
      | inr f ↦ rw (e, f) (tt, tt)
    ]
  ]

  pub of_two-Descending : (a b : Option Item) → Descending (of_two q a b)
  of_two-Descending none b = found_items-Descending q b
  of_two-Descending (some a) none = found_items-Descending q (some a)
  of_two-Descending (some a) (some b) =
      elim (Bool-cases (
        leb 2 q.limit
        && text_le (sort_text (attribute "GSI1SK" b)) (sort_text (attribute "GSI1SK" a)))) [
          | inl e ↦ rw e (pair-Descending a b (in_order a b (and-eq-true _ _ e).1))
          | inr e ↦ rw e (found_items-Descending q (some a))
        ]

abbrev Seen : Contents → Item → Type 0
Seen c item = (c (record_key later.project_id) ≡ some item) ⊎ (c indexed ≡ some item)

module _ (q : Query) (c : Contents) where
  abbrev Good : Item → Type 0
  Good item = Seen c item × (attribute "GSI1PK" item ≡ some (text q.partition))

  found_newer : (o : Option Item) → c (record_key later.project_id) ≡ o → All Good (found_items q o)
  found_newer o h =
      All-map (λ item (e, at). (inl (h ∙ e), at)) (found_items q o) (found_items_seen q o)

  found_older : (o : Option Item) → c indexed ≡ o → All Good (found_items q o)
  found_older o h =
      All-map (λ item (e, at). (inr (h ∙ e), at)) (found_items q o) (found_items_seen q o)

  All-append : (xs ys : List Item) → All Good xs → All Good ys → All Good (xs ++ ys)
  All-append [] ys h k = k
  All-append (x ∷ xs) ys (g, h) k = (g, All-append xs ys h k)

  pub of_two_seen :
      (a b : Option Item)
      → c (record_key later.project_id) ≡ a
      → c indexed ≡ b
      → All Good (of_two q a b)
  of_two_seen none b h k = found_older b k
  of_two_seen (some a) none h k = found_newer (some a) h
  of_two_seen (some a) (some b) h k =
      elim (Bool-cases (
        leb 2 q.limit
        && text_le (sort_text (attribute "GSI1SK" b)) (sort_text (attribute "GSI1SK" a)))) [
          | inl e ↦ rw e (All-append _ _ (found_newer (some a) h) (found_older (some b) k))
          | inr e ↦ rw e (found_newer (some a) h)
        ]

pub follows_at :
    (before after : Contents) (item : Item) → Seen after item → (k : Key) × (after k ≡ some item)
follows_at before after item (inl e) = (record_key later.project_id, e)
follows_at before after item (inr e) = (indexed, e)

abbrev pub paired_index : Index paired paired_documented
paired_index = record {
  Seen = Seen;
  query_items = λ q c page named h.
      subst (λ (items : List Item). All (Good q c) items) (page_of (page_items q c) page h)
        (of_two_seen q c _ _ refl refl);
  query_limit = λ q c page h.
      subst (λ (items : List Item). length items ≤ q.limit) (page_of (page_items q c) page h)
        (length-of_two q _ _);
  query_order = λ q c page named descending h.
      subst Descending (page_of (page_items q c) page h) (of_two-Descending q _ _);
  get_follows = λ k c item seen. inl seen;
  query_follows = λ q c item seen. inl seen;
  transact_follows = λ ws c item seen. inr (inr (follows_at c _ item seen));
  update_follows = λ k cond sets c item seen. inr (inr (follows_at c _ item seen));
}
