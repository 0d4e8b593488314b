-- ===== src/Repository/Listing.antt =====
-- `list_by_owner` returns what the page of its query reads as.
use projects_api.Common.{
  false, suc, Bool-cases, ℕ, Text, ◌≡◌, refl, sym, ap, subst, ◌∙◌, inl, inr, Option, none, some,
  List, [], ◌∷◌, All, length,
}
use projects_api.Dynamo.{ClientError, Attribute, Item, attribute, text, Query, Page, Dynamo, done}
use projects_api.Dynamo.Behaviour.{Reply-cases}
use projects_api.Domain.Exceptions.{
  Error, invalid_cursor, client_error, Result, ok, raise, Result-cases,
}
use projects_api.Domain.Models.{Project}
use projects_api.World.{World}
use projects_api.Repository.{is_code, to_projects, query_failed, list_by_owner}
use projects_api.Repository.Keys.{owner_gsi1pk_cancel}
use projects_api.Repository.Records.{
  Runtime, gsi1_name, owner_gsi1pk, project_gsi1sk_prefix, to_project,
}
use projects_api.Repository.Stored.{to_project_stored}
use projects_api.Repository.Index.{Placed}

-- The query of `list_by_owner`.
abbrev pub owner_query : Text → ℕ → Option Item → Query
owner_query owner_id limit cursor = record {
  index_name = gsi1_name;
  partition = owner_gsi1pk owner_id;
  prefix = project_gsi1sk_prefix;
  scan_index_forward = false;
  limit = limit;
  start = cursor;
}

text_cancel : (s t : Text) → ◌≡◌ {A = Option Attribute} (some (text s)) (some (text t)) → s ≡ t
text_cancel s t h = cc (h)

pub list_cancel : (ps qs : List Project) → ◌≡◌ {A = Result (List Project)} (ok ps) (ok qs) → ps ≡ qs
list_cancel ps qs h = cc (h)

-- What reads as projects begins with what reads as one.
pub to_projects_cons :
    (r : Runtime) (D : Dynamo) (item : Item) (items : List Item) (projects : List Project)
    → to_projects r D (item ∷ items) ≡ ok projects
    → (p : Project) × (ps : List Project) × (to_project r item ≡ ok p)
      × (to_projects r D items ≡ ok ps)
      × (p ∷ ps ≡ projects)
unfolding to_projects
to_projects_cons r D item items projects h = elim (Result-cases (to_project r item)) [
  | inr (x, e) ↦ cc (rw e at h)
  | inl (p, e) ↦ elim (Result-cases (to_projects r D items)) [
    | inr (x, f) ↦ cc (rw (e, f) at h)
    | inl (ps, f) ↦ (p, ps, e, f, list_cancel (p ∷ ps) projects (rw (e, f) at h))
  ]
]

module _ (r : Runtime) (D : Dynamo) (owner_id : Text) (limit : ℕ) where
  query_raises :
      (cursor : Option Item) (exc : ClientError) (w : World D.Db)
      → (e : Error) × (query_failed r D cursor exc w ≡ (raise e, w))
  unfolding query_failed
  query_raises none exc w = (client_error exc, refl)
  query_raises (some _) exc w = elim (Bool-cases (is_code exc.code "ValidationException")) [
    | inl e ↦ (invalid_cursor, rw e refl)
    | inr e ↦ (client_error exc, rw e refl)
  ]

  queried : Option Item → World D.Db → World D.Db
  queried cursor w = record w { db = (D.query (owner_query owner_id limit cursor) w.db).1 }

  -- A listing sends its query and nothing else.
  pub list_by_owner_db :
      (cursor : Option Item) (w : World D.Db)
      → (list_by_owner r D owner_id limit cursor w).1.db
        ≡ (D.query (owner_query owner_id limit cursor) w.db).1
  unfolding list_by_owner queried
  list_by_owner_db cursor w =
      elim (Reply-cases (D.query (owner_query owner_id limit cursor) w.db).0) [
        | inl (page, d) ↦ elim (Result-cases (to_projects r D page.items)) [
          | inl (ps, e) ↦ rw (d, e) refl
          | inr (x, e) ↦ rw (d, e) refl
        ]
        | inr (x, d) ↦ let (e, k) = query_raises cursor x (queried cursor w) in rw (d, k) refl
      ]

  pub list_by_owner_ok :
      (cursor : Option Item) (w : World D.Db) (projects : List Project) (last_key : Option Item)
      → (list_by_owner r D owner_id limit cursor w).0 ≡ ok (projects, last_key)
      → (page : Page) × ((D.query (owner_query owner_id limit cursor) w.db).0 ≡ done page)
        × (to_projects r D page.items ≡ ok projects)
        × (page.last_key ≡ last_key)
  unfolding list_by_owner queried
  list_by_owner_ok cursor w projects last_key h =
      elim (Reply-cases (D.query (owner_query owner_id limit cursor) w.db).0) [
        | inl (page, d) ↦ elim (Result-cases (to_projects r D page.items)) [
          | inl (ps, e) ↦ (page, d, cc (rw (d, e) at h, e), cc (rw (d, e) at h))
          | inr (x, e) ↦ cc (rw (d, e) at h)
        ]
        | inr (x, d) ↦ let (e, k) = query_raises cursor x (queried cursor w) in cc (rw (d, k) at h)
      ]

  -- An item of the owner's partition of the index.
  abbrev pub Mine : Item → Type 0
  Mine item = Placed item × (attribute "GSI1PK" item ≡ some (text (owner_gsi1pk owner_id)))

  owner_of_item :
      (item : Item) (p : Project) → Mine item → to_project r item ≡ ok p → p.owner_id ≡ owner_id
  owner_of_item item p (placed, at) h =
      let ((o, stored, same), _) = placed _ at in
      let (_, read) = to_project_stored r item p h in
      text_cancel _ _ (sym read ∙ stored) ∙ sym (owner_gsi1pk_cancel owner_id o same)

  pub owners_of_items :
      (items : List Item) (projects : List Project)
      → All Mine items
      → to_projects r D items ≡ ok projects
      → All (λ (p : Project). p.owner_id ≡ owner_id) projects × (length projects ≡ length items)
  unfolding to_projects
  owners_of_items [] projects v h =
      subst
        (λ (ps : List Project). All (λ (p : Project). p.owner_id ≡ owner_id) ps × (length ps ≡ 0))
        (list_cancel [] projects h) (tt, refl)
  owners_of_items (item ∷ items) projects (mine, rest) h =
      let (p, ps, e, f, same) = to_projects_cons r D item items projects h in
      let (owned, count) = owners_of_items items ps rest f in
      subst
        (λ (ps : List Project).
          All (λ (p : Project). p.owner_id ≡ owner_id) ps × (length ps ≡ suc (length items)))
        same ((owner_of_item item p mine e, owned), ap suc count)
