-- ===== src/Repository/Stored.antt =====
-- What a record that reads as a project has.
use projects_api.Common.{String, Text, ◌≡◌, refl, ap, ◌∙◌, Option, none, some}
use projects_api.Dynamo.{Item, Attribute, text, other, attribute}
use projects_api.Domain.Exceptions.{ok, bound}
use projects_api.Domain.Models.{Project, type_of_value, status_of_value}
use projects_api.Repository.Records.{
  Runtime, text_value, text_field, to_project, and_then, or_raise,
}

text_field_ok :
    (name : String) (item : Item) (t : Text)
    → text_field name item ≡ ok t
    → attribute name item ≡ some (text t)
unfolding text_field
text_field_ok name item t h = of (attribute name item) h
  where
    of : (o : Option Attribute) → text_value name o ≡ ok t → o ≡ some (text t)
    of none h = cc
    of (some (text s)) h = cc (h)
    of (some other) h = cc

built :
    {A B C E : Type 0} (message : Text) (a : Option A) (b : Option B) (c : Option C) (e : Option E)
    (mk : A → B → C → E → Project) (p : Project)
    → or_raise message
        (and_then a λ x. and_then b λ y. and_then c λ z. and_then e λ v. some (mk x y z v))
      ≡ ok p
    → (x : A) × (y : B) × (z : C) × (v : E) × (mk x y z v ≡ p) × (c ≡ some z)
built message none b c e mk p h = cc (h)
built message (some x) none c e mk p h = cc (h)
built message (some x) (some y) none e mk p h = cc (h)
built message (some x) (some y) (some z) none mk p h = cc (h)
built message (some x) (some y) (some z) (some v) mk p h = (x, y, z, v, cc (h), refl)

-- The texts that the project has of its record.
pub to_project_read :
    (r : Runtime) (item : Item) (p : Project)
    → to_project r item ≡ ok p
    → (attribute "name" item ≡ some (text p.name))
      × (attribute "ownerId" item ≡ some (text p.owner_id))
      × ((at : Text) × (attribute "createdAt" item ≡ some (text at))
          × (r.parse_datetime at ≡ some p.created_at))
unfolding to_project
to_project_read r item p h =
    let (id, e1, h1) = bound (text_field "projectId" item) _ p h in
    let (name, e2, h2) = bound (text_field "name" item) _ p h1 in
    let (type, e3, h3) = bound (text_field "type" item) _ p h2 in
    let (status, e4, h4) = bound (text_field "status" item) _ p h3 in
    let (owner, e5, h5) = bound (text_field "ownerId" item) _ p h4 in
    let (cr, e6, h6) = bound (text_field "createdAt" item) _ p h5 in
    let (up, e7, h7) = bound (text_field "updatedAt" item) _ p h6 in
    let (t, s, c, u, same, created) =
      built (r.invalid_record item) (type_of_value type) (status_of_value status)
        (r.parse_datetime cr) (r.parse_datetime up)
        (λ t s c u. record {
          project_id = id;
          name = name;
          type = t;
          status = s;
          owner_id = owner;
          created_at = c;
          updated_at = u;
        })
        p h7 in
    (
      text_field_ok "name" item name e2 ∙ ap (λ (x : Project). some (text x.name)) same,
      text_field_ok "ownerId" item owner e5 ∙ ap (λ (x : Project). some (text x.owner_id)) same,
      (
        cr,
        text_field_ok "createdAt" item cr e6,
        created ∙ ap (λ (x : Project). some x.created_at) same,
      ),
    )

pub to_project_stored :
    (r : Runtime) (item : Item) (p : Project)
    → to_project r item ≡ ok p
    → (attribute "name" item ≡ some (text p.name))
      × (attribute "ownerId" item ≡ some (text p.owner_id))
to_project_stored r item p h = let (name, owner, _) = to_project_read r item p h in (name, owner)

pub to_project_created :
    (r : Runtime) (item : Item) (p : Project)
    → to_project r item ≡ ok p
    → (at : Text) × (attribute "createdAt" item ≡ some (text at))
      × (r.parse_datetime at ≡ some p.created_at)
to_project_created r item p h = let (_, _, created) = to_project_read r item p h in created
