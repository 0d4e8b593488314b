-- ===== src/Json/Dict.antt =====
-- The operations of a Python `dict` on the fields of an object, which keep their order.
pub mod Laws
pub mod Sorted
use projects_api.Common.{Text, ◌==◌, Option, none, some, if◌then◌else◌}
use projects_api.Json.{Json, Fields, end, field, put}

-- `d.get(name)`; the first field of a name counts.
unfoldable pub get : Text → Fields → Option Json
get name end = none
get name (field k v fs) = if k == name then some v else get name fs

-- `d.pop(name, None)`
unfoldable pub pop : Text → Fields → Fields
pop name end = end
pop name (field k v fs) = let rest = pop name fs in if k == name then rest else field k v rest

abbrev pub put_if_none : Option Json → Text → Json → Fields → Fields
put_if_none none name value fs = put name value fs
put_if_none (some _) name value fs = fs

-- `d.setdefault(name, value)`
unfoldable pub setdefault : Text → Json → Fields → Fields
unfolding get
setdefault name value fs = put_if_none (get name fs) name value fs
