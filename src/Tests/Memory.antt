-- ===== src/Tests/Memory.antt =====
-- A table in memory, which answers every request: the documented behaviour can be met.
use package.text.Mathlib.TextEquality.{eq_iff}
use projects_api.Common.{
  ◌≤◌, lit, Text, ==_sound, ◌&&◌, All, length, leb, and-eq-true, String, ◌≡◌, refl, ap, subst, Bool,
  true, false, Option, none, some, List, [], ◌∷◌, ◌++◌, arith, if◌then◌else◌, Bool-cases, inl, inr,
}
use projects_api.Dynamo.{
  text, other, Attribute, attribute, Query, Page, Item, Key, Condition, Write, ClientError, Reply,
  done, failed, Dynamo,
}
use projects_api.Dynamo.Behaviour.{
  Contents, Documented, IsUp, IsServing, ReasonsTell, ReasonsFit, TellsWhy, allowed, all_allowed,
  write_all, meets, assign, item_or_key, is_text,
}
use projects_api.Repository.Records.{record_key}
use projects_api.Repository.Index.{Index, Descending}

abbrev pub reason_code : Bool → Option String
reason_code true = some "None"
reason_code false = some "ConditionalCheckFailed"

-- One reason for each write.
unfoldable pub reasons_of : List Write → Contents → List (Option String)
reasons_of [] c = []
reasons_of (w ∷ ws) c = reason_code (allowed w c) ∷ reasons_of ws c

other_code : ◌≡◌ {A = Option String} (some "None") (some "ConditionalCheckFailed") → ⊥
other_code h = ground (arith, eq_iff "None" "ConditionalCheckFailed")

pub reasons_fit : (ws : List Write) (c : Contents) → ReasonsFit (reasons_of ws c) ws c
unfolding reasons_of
reasons_fit [] c = tt
reasons_fit (w ∷ ws) c = (fits (allowed w c), reasons_fit ws c)
  where
    fits : (b : Bool) → reason_code b ≡ some "ConditionalCheckFailed" → b ≡ false
    fits true h = absurd (other_code h)
    fits false h = refl

abbrev pub cancelled : List Write → Contents → ClientError
cancelled ws c = record {
  code = some "TransactionCanceledException";
  reasons = reasons_of ws c;
  message = "";
}

abbrev pub refused : ClientError
refused = record { code = some "ConditionalCheckFailedException"; reasons = []; message = "" }

abbrev pub transact : List Write → Contents → Reply Unit × Contents
transact ws c = if all_allowed ws c then (done tt, write_all ws c) else (failed (cancelled ws c), c)

abbrev pub update : Key → Condition → Item → Contents → Reply Unit × Contents
update k cond sets c =
    if meets cond (c k)
    then (done tt, assign k (some (sets ++ item_or_key k (c k))) c)
    else (failed refused, c)

-- The index of the table is that of one project.
abbrev pub indexed : Key
indexed = record_key (lit "prj_9f1c2b3a4d5e6f708192a3b4c5d6e7f8")

abbrev pub found_items : Query → Option Item → List Item
found_items q none = []
found_items q (some item) =
    if is_text q.partition (attribute "GSI1PK" item) && leb 1 q.limit then item ∷ [] else []

abbrev pub memory : Dynamo
memory = record {
  Db = Contents;
  get_item = λ k c. (done (c k), c);
  transact_write_items = transact;
  update_item = update;
  query = λ q c. (done (record { items = found_items q (c indexed); last_key = none }), c);
}

pub reasons_tell : (ws : List Write) (c : Contents) → ReasonsTell (reasons_of ws c) ws c
unfolding reasons_of
reasons_tell [] c = tt
reasons_tell (w ∷ ws) c = (λ h. rw h refl, reasons_tell ws c)

pub get_ok :
    (k : Key) (c : Contents) (found : Option Item)
    → ◌≡◌ {A = Reply (Option Item)} (done (c k)) (done found)
    → c k ≡ found
get_ok k c found h = cc (h)

pub transact_ok :
    (ws : List Write) (c : Contents)
    → (transact ws c).0 ≡ done tt
    → (all_allowed ws c ≡ true) × ((transact ws c).1 ≡ write_all ws c)
transact_ok ws c h = elim (Bool-cases (all_allowed ws c)) [
  | inl e ↦ (e, rw e refl)
  | inr e ↦ cc (rw e at h)
]

pub transact_no :
    (ws : List Write) (c : Contents) (e : ClientError)
    → (transact ws c).0 ≡ failed e
    → ((transact ws c).1 ≡ c) × (cancelled ws c ≡ e) × (all_allowed ws c ≡ false)
transact_no ws c e h = elim (Bool-cases (all_allowed ws c)) [
  | inl b ↦ cc (rw b at h)
  | inr b ↦ (rw b refl, cc (rw b at h), b)
]

pub update_ok :
    (k : Key) (cond : Condition) (sets : Item) (c : Contents)
    → (update k cond sets c).0 ≡ done tt
    → (meets cond (c k) ≡ true)
      × ((update k cond sets c).1 ≡ assign k (some (sets ++ item_or_key k (c k))) c)
update_ok k cond sets c h = elim (Bool-cases (meets cond (c k))) [
  | inl e ↦ (e, rw e refl)
  | inr e ↦ cc (rw e at h)
]

pub update_no :
    (k : Key) (cond : Condition) (sets : Item) (c : Contents) (e : ClientError)
    → (update k cond sets c).0 ≡ failed e
    → ((update k cond sets c).1 ≡ c) × (meets cond (c k) ≡ false)
update_no k cond sets c e h = elim (Bool-cases (meets cond (c k))) [
  | inl b ↦ cc (rw b at h)
  | inr b ↦ (rw b refl, b)
]

pub cancelled_tells :
    (ws : List Write) (c : Contents) → all_allowed ws c ≡ false → TellsWhy (cancelled ws c) ws c
cancelled_tells ws c b = record {
  by_reasons = λ r rs e. subst (λ l. ReasonsFit l ws c) e (reasons_fit ws c);
  by_message = λ i e found. b;
}

abbrev pub memory_documented : Documented memory
memory_documented = record {
  contents = λ c. c;
  get_reads = get_ok;
  get_keeps = λ k c. refl;
  query_keeps = λ q c. refl;
  transact_done = transact_ok;
  transact_failed = λ ws c e h. inl (transact_no ws c e h).0;
  transact_cancelled = λ ws c e h code.
      let (kept, same, some_refused) = transact_no ws c e h in
      (kept, subst (λ (x : ClientError). TellsWhy x ws c) same (cancelled_tells ws c some_refused));
  update_done = update_ok;
  update_failed = λ k cond sets c e h. inl (update_no k cond sets c e h).0;
  update_refused = λ k cond sets c e h code. update_no k cond sets c e h;
}

abbrev pub memory_up : IsUp memory memory_documented
memory_up = record {
  update_answers = λ k cond sets c h. rw h refl;
  update_refuses = λ k cond sets c h. (refused, rw h refl, refl);
}

abbrev pub memory_serving : IsServing memory memory_documented
memory_serving = record {
  transact_answers = λ ws c h. rw h refl;
  transact_refuses = λ ws c h. (cancelled ws c, rw h refl, refl, reasons_tell ws c);
}

is_text_sound : (t : Text) (o : Option Attribute) → is_text t o ≡ true → o ≡ some (text t)
unfolding is_text
is_text_sound t none h = cc (h)
is_text_sound t (some (text v)) h = ap (λ (x : Text). some (text x)) (==_sound v t h)
is_text_sound t (some other) h = cc (h)

pub found_items_seen :
    (q : Query) (o : Option Item)
    → All
        (λ item. (o ≡ some item) × (attribute "GSI1PK" item ≡ some (text q.partition)))
        (found_items q o)
found_items_seen q none = tt
found_items_seen q (some item) =
    elim (Bool-cases (is_text q.partition (attribute "GSI1PK" item) && leb 1 q.limit)) [
      | inr e ↦ rw e tt
      | inl e ↦
          rw e
            ((refl, is_text_sound q.partition (attribute "GSI1PK" item) (and-eq-true _ _ e).0), tt)
    ]

pub length-found_items : (q : Query) (o : Option Item) → length (found_items q o) ≤ q.limit
length-found_items q none = omega arith
length-found_items q (some item) = ground arith

pub found_items-Descending : (q : Query) (o : Option Item) → Descending (found_items q o)
found_items-Descending q none = tt
found_items-Descending q (some item) =
    elim (Bool-cases (is_text q.partition (attribute "GSI1PK" item) && leb 1 q.limit)) [
      | inl e ↦ rw e (tt, tt)
      | inr e ↦ rw e tt
    ]

pub page_of :
    (items : List Item) (page : Page)
    → ◌≡◌ {A = Reply Page} (done (record { items = items; last_key = none })) (done page)
    → items ≡ page.items
page_of items page h = cc (h)

abbrev pub memory_index : Index memory memory_documented
memory_index = record {
  Seen = λ c item. c indexed ≡ some item;
  query_items = λ q c page named h.
      subst
        (λ (items : List Item).
          All
            (λ item. (c indexed ≡ some item) × (attribute "GSI1PK" item ≡ some (text q.partition)))
            items)
        (page_of (found_items q (c indexed)) page h) (found_items_seen q (c indexed));
  query_limit = λ q c page h.
      subst (λ (items : List Item). length items ≤ q.limit)
        (page_of (found_items q (c indexed)) page h) (length-found_items q (c indexed));
  query_order = λ q c page named descending h.
      subst Descending (page_of (found_items q (c indexed)) page h)
        (found_items-Descending q (c indexed));
  get_follows = λ k c item seen. inl seen;
  query_follows = λ q c item seen. inl seen;
  transact_follows = λ ws c item seen. inr (inr (indexed, seen));
  update_follows = λ k cond sets c item seen. inr (inr (indexed, seen));
}
