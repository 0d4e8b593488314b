-- ===== src/Dynamo.antt =====
-- DynamoDB as the code sees it through boto3: the requests that it sends, the replies that it
-- reads, and the errors. The service is a parameter, `Dynamo`; what is relied on is in
-- `Dynamo/Behaviour`. Each client stands for the one table that every request names.
pub mod Behaviour
use projects_api.Common.{
  ℕ, ◌+◌, String, Text, ◌==◌, Bool, true, false, ◌&&◌, Option, none, some, List, [], ◌∷◌, str_eq,
  if◌then◌else◌,
}

-- An attribute value: `{"S": text}`, or a value under any other type descriptor.
pub data Attribute : Type 0 where
  text : Text → Attribute
  other : Attribute

abbrev pub Item : Type 0
Item = List (String × Attribute)

-- The value of an attribute; the first binding counts.
unfoldable pub attribute : String → Item → Option Attribute
attribute name [] = none
attribute name ((k, v) ∷ item) = if str_eq k name then some v else attribute name item

pub record Key : Type 0 where
  pub pk : Text
  pub sk : Text

unfoldable pub key_eq : Key → Key → Bool
key_eq a b = a.pk == b.pk && a.sk == b.sk

-- `ConditionExpression`, with the expression's values put in.
pub data Condition : Type 0 where
  attribute_not_exists attribute_exists : String → Condition
  equals : String → Text → Condition
  both : Condition → Condition → Condition

-- One entry of `TransactItems`. The key of a `Put` stands in its item.
pub data Write : Type 0 where
  put : Item → Condition → Write
  delete : Key → Condition → Write

-- `exc.response["Error"]["Code"]`, the codes of `exc.response["CancellationReasons"]` (empty where
-- the response has none), and `str(exc)`.
pub record ClientError : Type 0 where
  pub code : Option String
  pub reasons : List (Option String)
  pub message : String

pub data Reply (A : Type 0) : Type 0 where
  done : A → Reply A
  failed : ClientError → Reply A

-- The arguments of `self._client.query`: the index, the partition and the prefix of the sort key in the
-- key condition, the direction, the page size and the start key.
pub record Query : Type 0 where
  pub index_name : String
  pub partition : Text
  pub prefix : Text
  pub scan_index_forward : Bool
  pub limit : ℕ
  pub start : Option Item

pub record Page : Type 0 where
  pub items : List Item
  pub last_key : Option Item

pub record Dynamo : Type 1 where
  pub Db : Type 0
  pub get_item : Key → Db → Reply (Option Item) × Db
  pub transact_write_items : List Write → Db → Reply Unit × Db
  pub update_item : Key → Condition → Item → Db → Reply Unit × Db
  pub query : Query → Db → Reply Page × Db
