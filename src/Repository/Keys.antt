-- ===== src/Repository/Keys.antt =====
-- The keys of the table do not collide, and the attributes of the items that are written.
use projects_api.Common.{
  Text, lit, ◌==◌, ◌≡◌, refl, false, [], ◌∷◌, ◌++◌, arith, append_cancel_left,
}
use projects_api.Dynamo.{Key, key_eq}
use projects_api.Dynamo.Behaviour.{key_of}
use projects_api.Domain.Validation.{Unicode, name_key}
use projects_api.Domain.Models.{Project}
use projects_api.Repository.Records.{
  name_pk, owner_gsi1pk, record_key, reservation_key, project_item, reservation_item,
}

-- The key of the reservation of a name key.
unfoldable pub reservation_at : Text → Key
reservation_at k = record { pk = lit "NAME#" ++ k; sk = lit "RESERVATION" }

pub reservation_key-at :
    (u : Unicode) (name : Text) → reservation_key u name ≡ reservation_at (name_key u name)
unfolding reservation_key reservation_at
reservation_key-at u name = refl

==-append : (p s t : Text) → ((p ++ s) == (p ++ t)) ≡ (s == t)
unfolding ◌==◌
==-append [] s t = refl
==-append (c ∷ p) s t = ground (arith, ==-append p s t)

pub key_eq-record : (a b : Text) → key_eq (record_key a) (record_key b) ≡ (a == b)
unfolding key_eq record_key lit ◌==◌
key_eq-record a b = ground arith

pub key_eq-reservation : (a b : Text) → key_eq (reservation_at a) (reservation_at b) ≡ (a == b)
unfolding key_eq reservation_at lit ◌==◌
key_eq-reservation a b = ground arith

pub key_eq-record-reservation : (a k : Text) → key_eq (record_key a) (reservation_at k) ≡ false
unfolding key_eq record_key reservation_at lit ◌==◌
key_eq-record-reservation a k = refl

pub key_eq-reservation-record : (k a : Text) → key_eq (reservation_at k) (record_key a) ≡ false
unfolding key_eq record_key reservation_at lit ◌==◌
key_eq-reservation-record k a = refl

module _ (u : Unicode) (p : Project) where
  pub key_of-project_item : key_of (project_item u p) ≡ record_key p.project_id
  unfolding key_of project_item record_key
  key_of-project_item = refl

  pub key_of-reservation_item : key_of (reservation_item u p) ≡ reservation_at (name_key u p.name)
  unfolding key_of reservation_item name_pk reservation_at
  key_of-reservation_item = refl

pub owner_gsi1pk_cancel : (a b : Text) → owner_gsi1pk a ≡ owner_gsi1pk b → a ≡ b
unfolding owner_gsi1pk
owner_gsi1pk_cancel a b h = append_cancel_left (lit "OWNER#") a b h
