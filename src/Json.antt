-- ===== src/Json.antt =====
-- JSON values, and what json.dumps and json.loads of Python's library do for
-- src/projects_api/api/pagination.py. A `bytes` that is ASCII is the list of its codes.
pub mod Dict
pub mod Print
pub mod Strings
pub mod Numbers
pub mod Scan
pub mod RoundTrip
use projects_api.Common.{Text, ◌==◌, Bool, if◌then◌else◌}

-- A number is its literal, also `NaN` and the infinities.
mutual
  pub data Json : Type 0 where
    null : Json
    bool : Bool → Json
    number : Text → Json
    string : Text → Json
    array : Items → Json
    object : Fields → Json

  pub data Items : Type 0 where
    nil : Items
    cons : Json → Items → Items

  pub data Fields : Type 0 where
    end : Fields
    field : Text → Json → Fields → Fields

-- `d[key] = value` on a `dict`: a key that is there keeps its place.
unfoldable pub put : Text → Json → Fields → Fields
unfolding ◌==◌
put key value end = field key value end
put key value (field k v fs) =
    let rest = put key value fs in if k == key then field k value fs else field k v rest

unfoldable pub dict_from : Fields → Fields → Fields
unfolding put
dict_from d end = d
dict_from d (field k v fs) = dict_from (put k v d) fs

-- The `dict` of the pairs of an object, in their order.
abbrev pub dict_of : Fields → Fields
dict_of = dict_from end
