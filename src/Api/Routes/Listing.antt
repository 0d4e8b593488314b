-- ===== src/Api/Routes/Listing.antt =====
-- The list route shows an owner's projects alone, and takes a cursor from its own owner alone.
use projects_api.Common.{
  ℕ, ◌≤◌, Text, ◌==◌, ==_ne, ◌≡◌, ◌≢◌, refl, ap, ◌∙◌, inl, inr, Option, some, List, [], All,
  All-map, arith, false, length,
}
use projects_api.Json.{Json, object}
use projects_api.Json.Print.{sort_keys}
use projects_api.Json.RoundTrip.{IsScalar}
use projects_api.Dynamo.{Item, Page, Dynamo, done}
use projects_api.Dynamo.Behaviour.{Documented}
use projects_api.Domain.Exceptions.{invalid_cursor, Result, ok, raise, Result-cases}
use projects_api.Domain.Models.{Project}
use projects_api.World.{World}
use projects_api.Repository.{list_by_owner, to_projects}
use projects_api.Repository.Index.{Index}
use projects_api.Repository.Keys.{owner_gsi1pk_cancel}
use projects_api.Repository.Listing.{Mine, owner_query, list_by_owner_ok, owners_of_items}
use projects_api.Repository.Order.{ReadsWhole, NewestFirst, order_of_page}
use projects_api.Repository.Records.{Runtime, owner_gsi1pk}
use projects_api.Api.Pagination.{Decoder, key_json, encode_cursor}
use projects_api.Api.Pagination.Printed.{cursor_fields}
use projects_api.Api.Pagination.RoundTrip.{decode_cursor-encode_cursor}
use projects_api.Api.Routes.{cursor_of, list_projects}
use projects_api.System.{Reach}
use projects_api.System.Listed.{IsListed, Reach-IsListed}

abbrev projects_of : Result (List Project × Option Text) → List Project
projects_of (ok (projects, _)) = projects
projects_of (raise _) = []

module _ (r : Runtime) (D : Dynamo) (decode : Decoder) (unknown : Json) (owner_id : Text)
    (limit : ℕ) where
  -- What the route returns, the repository has.
  list_projects-list_by_owner :
      (next_token : Option Text) (w : World D.Db) (projects : List Project) (next : Option Text)
      → (list_projects r D decode unknown owner_id limit next_token w).0 ≡ ok (projects, next)
      → (start : Option Item) × (last_key : Option Item) × ((list_by_owner r D owner_id limit start
            w).0
          ≡ ok (projects, last_key))
  unfolding list_projects
  list_projects-list_by_owner next_token w projects next h =
      elim (Result-cases (cursor_of decode next_token owner_id)) [
        | inr (x, e) ↦ cc (rw e at h)
        | inl (start, e) ↦ elim (Result-cases (list_by_owner r D owner_id limit start w).0) [
          | inr (x, f) ↦ cc (rw (e, f) at h)
          | inl ((ps, last_key), f) ↦
              let same =
                ap (λ (o : Result (List Project × Option Text)). projects_of o) (rw (e, f) at h) in
              (start, last_key, f ∙ ap (λ (l : List Project). ok (l, last_key)) same)
        ]
      ]

module _ (r : Runtime) (D : Dynamo) (doc : Documented D) (index : Index D doc) (s w : World D.Db)
    (decode : Decoder) (unknown : Json) (owner_id : Text) (limit : ℕ) (next_token : Option Text)
    (projects : List Project) (next : Option Text) where
  -- What the route returns, a page of the index reads as.
  list_projects-page :
      IsListed r D doc index s.db
      → Reach r D s w
      → (list_projects r D decode unknown owner_id limit next_token w).0 ≡ ok (projects, next)
      → (start : Option Item) × (page : Page) × ((D.query (owner_query owner_id limit start) w.db).0
          ≡ done page)
        × (to_projects r D page.items ≡ ok projects)
        × All (Mine r D owner_id limit) page.items
  list_projects-page v path h =
      let (start, last_key, listed) =
        list_projects-list_by_owner r D decode unknown owner_id limit next_token w projects next
          h in
      let now = (Reach-IsListed r D doc index s w v path).in_index in
      let (page, answered, read, _) =
        list_by_owner_ok r D owner_id limit start w projects last_key listed in
      (
        start,
        page,
        answered,
        read,
        All-map (λ item (seen, at). (now item seen, at)) page.items
            (index.query_items (owner_query owner_id limit start) w.db page refl answered),
      )

  -- After any steps of any requests, each create being of a project with a time in whole seconds,
  -- from a start where every item of the table and of the index with an index partition is in that
  -- of its owner and has the sort key of its time: a page that the list route returns has only
  -- projects of the caller, and at most `limit` of them.
  pub list_projects-owned :
      IsListed r D doc index s.db
      → Reach r D s w
      → (list_projects r D decode unknown owner_id limit next_token w).0 ≡ ok (projects, next)
      → All (λ (p : Project). p.owner_id ≡ owner_id) projects × (length projects ≤ limit)
  list_projects-owned v path h =
      let (start, page, answered, read, mine) = list_projects-page v path h in
      let (owned, count) = owners_of_items r D owner_id limit page.items projects mine read in
      (
        owned,
        omega
            (arith, count, index.query_limit (owner_query owner_id limit start) w.db page answered),
      )

  -- From such a start and after such steps, where the parser reads back each time in whole seconds:
  -- in a page that the list route returns, no project was created after one that stands before it.
  pub list_projects-NewestFirst :
      IsListed r D doc index s.db
      → Reach r D s w
      → ReadsWhole r
      → (list_projects r D decode unknown owner_id limit next_token w).0 ≡ ok (projects, next)
      → NewestFirst projects
  list_projects-NewestFirst v path reads h =
      let (start, page, answered, read, mine) = list_projects-page v path h in
      order_of_page r reads D page.items projects
        (All-map (λ item (placed, at). (placed _ at).1) page.items mine)
        (index.query_order (owner_query owner_id limit start) w.db page refl refl answered) read

-- The list route raises that the cursor is invalid, and sends no request, for a token of at most
-- 1024 characters that `encode_cursor` made from a key in another owner's partition, the key being
-- the four texts of a cursor without surrogates.
pub list_projects-rejects :
    (r : Runtime) (D : Dynamo) (w : World D.Db) (decode : Decoder) (unknown : Json) (key : Item)
    (owner_id other_id gsi1sk pk sk : Text) (limit : ℕ)
    → sort_keys (object (key_json unknown key))
      ≡ object (cursor_fields (owner_gsi1pk other_id) gsi1sk pk sk)
    → All IsScalar (owner_gsi1pk other_id)
    → All IsScalar gsi1sk
    → All IsScalar pk
    → All IsScalar sk
    → length (encode_cursor unknown key) ≤ 1024
    → other_id ≢ owner_id
    → list_projects r D decode unknown owner_id limit (some (encode_cursor unknown key)) w
      ≡ (raise invalid_cursor, w)
unfolding list_projects
list_projects-rejects r D w decode unknown key owner_id other_id b c d limit sorted ha hb hc hd
      short other =
    let apart : (owner_gsi1pk other_id == owner_gsi1pk owner_id) ≡ false =
      ==_ne _ _ (λ e. other (owner_gsi1pk_cancel other_id owner_id e)) in
    let read =
      decode_cursor-encode_cursor decode unknown key (owner_gsi1pk other_id) b c d owner_id sorted
        ha hb hc hd short in
    rw read (rw apart refl)
