-- ===== src/Scripts/SeedIssues/Known.antt =====
-- What the script reads of the JSON that the GitHub CLI prints. The text of a `TypeError` is abridged.
use projects_api.Common.{
  String, Text, lit, ◌==◌, Bool, false, ◌||◌, Option, none, some, List, [], ◌∷◌, if◌then◌else◌,
}
use projects_api.Json.{
  Json, Items, Fields, null, bool, number, string, array, object, nil, cons, end, field,
}
use projects_api.Json.Dict.{get}
use projects_api.Json.Scan.{Scanned, scanned, invalid, out_of_fuel, loads}
use projects_api.Domain.Exceptions.{
  Result, ok, raise, Error, exception, value_error, key_error, ◌>>=◌,
}

abbrev pub type_error : Error
type_error = exception (lit "TypeError")

abbrev elements_of : Items → List Json
elements_of nil = []
elements_of (cons v vs) = v ∷ elements_of vs

abbrev keys_of : Fields → List Json
keys_of end = []
keys_of (field k _ fs) = string k ∷ keys_of fs

abbrev characters : Text → List Json
characters [] = []
characters (c ∷ s) = string (c ∷ []) ∷ characters s

-- `for item in value`
abbrev elements : Json → Result (List Json)
elements (array items) = ok (elements_of items)
elements (object fs) = ok (keys_of fs)
elements (string s) = ok (characters s)
elements null = raise type_error
elements (bool _) = raise type_error
elements (number _) = raise type_error

abbrev value_of : String → Option Json → Result Json
value_of key none = raise (key_error key)
value_of key (some v) = ok v

-- `item[key]`
unfoldable pub item_at : String → Json → Result Json
unfolding get lit
item_at key (object fs) = value_of key (get (lit key) fs)
item_at key _ = raise type_error

-- A value that a set or the keys of a `dict` take.
abbrev hashed : Json → Result Json
hashed (array _) = raise type_error
hashed (object _) = raise type_error
hashed v = ok v

abbrev loaded : Scanned Json → Result Json
loaded (scanned v) = ok v
loaded invalid = raise (value_error "invalid JSON")
loaded out_of_fuel = raise (exception (lit "out of fuel"))

-- `json.loads(raw or "[]")`
unfoldable pub load : Text → Result Json
unfolding loads
load [] = ok (array nil)
load (c ∷ raw) = loaded (loads (c ∷ raw))

unfoldable pub values_at : String → List Json → Result (List Json)
unfolding item_at
values_at key [] = ok []
values_at key (item ∷ items) = do
  v ← item_at key item
  h ← hashed v
  vs ← values_at key items
  ok (h ∷ vs)

-- `{item[key] for item in json.loads(raw or "[]")}`
unfoldable pub existing_at : String → Text → Result (List Json)
unfolding load values_at
existing_at key raw = do v ← load raw; items ← elements v; values_at key items

abbrev is_text : Text → Json → Bool
is_text name (string s) = s == name
is_text name _ = false

-- `name in existing`
unfoldable pub contains : Text → List Json → Bool
unfolding ◌==◌
contains name [] = false
contains name (v ∷ vs) = is_text name v || contains name vs

unfoldable pub titled : List Json → Result (List (Json × Json))
unfolding item_at
titled [] = ok []
titled (item ∷ items) = do
  title ← item_at "title" item
  n ← item_at "number" item
  h ← hashed title
  rest ← titled items
  ok ((h, n) ∷ rest)

-- `{i["title"]: i["number"] for i in json.loads(raw or "[]")}`
unfoldable pub numbered : Text → Result (List (Json × Json))
unfolding load titled
numbered raw = do v ← load raw; items ← elements v; titled items

abbrev or_else : Option Json → Option Json → Option Json
or_else none b = b
or_else (some a) b = some a

-- `known[title]`, where it is in `known`: the last of a title counts.
unfoldable pub known_number : Text → List (Json × Json) → Option Json
unfolding ◌==◌
known_number title [] = none
known_number title ((t, n) ∷ rest) =
    or_else (known_number title rest) (if is_text title t then some n else none)
