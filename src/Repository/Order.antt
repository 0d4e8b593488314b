-- ===== src/Repository/Order.antt =====
-- The order of a listing: `list_by_owner` asks for the newest project first.
use projects_api.Common.{
  Text, lit, ◌≡◌, sym, subst, ◌∙◌, ap, Option, some, true, List, [], ◌∷◌, ◌++◌, All,
}
use projects_api.Json.Print.{text_le}
use projects_api.Dynamo.{Item, Attribute, attribute, text, Dynamo}
use projects_api.Domain.Exceptions.{ok}
use projects_api.Domain.Models.{Project, Datetime, isoformat}
use projects_api.Domain.Models.Times.{IsWhole, time_le, time_le-isoformat, same_start}
use projects_api.Repository.{to_projects}
use projects_api.Repository.Records.{Runtime, project_gsi1sk_prefix, to_project}
use projects_api.Repository.Listing.{list_cancel, to_projects_cons}
use projects_api.Repository.Stored.{to_project_created}
use projects_api.Repository.Index.{NotAfter, Descending, Dated, gsi1sk}

-- `datetime.fromisoformat` reads the text of a time in whole seconds as that time.
abbrev pub ReadsWhole : Runtime → Type 0
ReadsWhole r = (t : Datetime) → IsWhole t → r.parse_datetime (isoformat t) ≡ some t

-- No project was created after one that stands before it.
unfoldable pub NewestFirst : List Project → Type 0
NewestFirst [] = Unit
NewestFirst (p ∷ ps) =
    All (λ (q : Project). time_le q.created_at p.created_at ≡ true) ps × NewestFirst ps

gsi1sk-text_le :
    (a b : Datetime) (i j : Text)
    → text_le (gsi1sk a i) (gsi1sk b j)
      ≡ text_le (isoformat a ++ (lit "#" ++ i)) (isoformat b ++ (lit "#" ++ j))
unfolding project_gsi1sk_prefix lit
gsi1sk-text_le a b i j = simp same_start

text_cancel : (s t : Text) → ◌≡◌ {A = Option Attribute} (some (text s)) (some (text t)) → s ≡ t
text_cancel s t h = cc (h)

some_cancel : (a b : Datetime) → ◌≡◌ {A = Option Datetime} (some a) (some b) → a ≡ b
some_cancel a b h = cc (h)

module _ (r : Runtime) (reads : ReadsWhole r) where
  -- The time of the sort key is that of the project.
  created_of_item :
      (item : Item) (p : Project)
      → Dated item
      → to_project r item ≡ ok p
      → (id : Text) × IsWhole p.created_at
        × (attribute "GSI1SK" item ≡ some (text (gsi1sk p.created_at id)))
  created_of_item item p (t, id, whole, at, key) h =
      let (cr, stored, parsed) = to_project_created r item p h in
      let same : t ≡ p.created_at =
        some_cancel _ _ (
          sym (reads t whole) ∙ ap r.parse_datetime (text_cancel _ _ (sym at ∙ stored)) ∙ parsed) in
      (id, subst IsWhole same whole, key ∙ ap (λ u. some (text (gsi1sk u id))) same)

  -- An item behind another in the index reads as a project that is not newer.
  order_of_items :
      (first later : Item) (p q : Project)
      → Dated first
      → Dated later
      → NotAfter first later
      → to_project r first ≡ ok p
      → to_project r later ≡ ok q
      → time_le q.created_at p.created_at ≡ true
  order_of_items first later p q dated also behind hp hq =
      let (i, whole, key) = created_of_item first p dated hp in
      let (j, whole_too, key_too) = created_of_item later q also hq in
      time_le-isoformat q.created_at p.created_at whole_too whole (lit "#" ++ j) (lit "#" ++ i)
        (sym (gsi1sk-text_le q.created_at p.created_at j i) ∙ behind _ _ key key_too)

  module _ (D : Dynamo) where
    order_of_rest :
        (first : Item) (p : Project) (items : List Item) (projects : List Project)
        → Dated first
        → to_project r first ≡ ok p
        → All Dated items
        → All (NotAfter first) items
        → to_projects r D items ≡ ok projects
        → All (λ (q : Project). time_le q.created_at p.created_at ≡ true) projects
    unfolding to_projects
    order_of_rest first p [] projects dated hp all behind h =
        subst (All (λ (q : Project). time_le q.created_at p.created_at ≡ true))
          (list_cancel [] projects h) tt
    order_of_rest first p (item ∷ items) projects dated hp (d, all) (b, behind) h =
        let (q, qs, e, f, same) = to_projects_cons r D item items projects h in
        subst (All (λ (q : Project). time_le q.created_at p.created_at ≡ true)) same (
          order_of_items first item p q dated d b hp e,
          order_of_rest first p items qs dated hp all behind f,
        )

    pub order_of_page :
        (items : List Item) (projects : List Project)
        → All Dated items
        → Descending items
        → to_projects r D items ≡ ok projects
        → NewestFirst projects
    unfolding to_projects NewestFirst
    order_of_page [] projects all down h = subst NewestFirst (list_cancel [] projects h) tt
    order_of_page (item ∷ items) projects (d, all) (behind, down) h =
        let (p, ps, e, f, same) = to_projects_cons r D item items projects h in
        subst NewestFirst same
          (order_of_rest item p items ps d e all behind f, order_of_page items ps all down f)
