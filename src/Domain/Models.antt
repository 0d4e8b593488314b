-- ===== src/Domain/Models.antt =====
-- src/projects_api/domain/models.py: the enums, `Project` and its ids.
pub mod Ids
pub mod Times
use projects_api.Common.{
  ℕ, ◌+◌, ◌/◌, ◌%◌, Text, lit, ◌==◌, Bool, ◌||◌, ◌&&◌, Option, none, some, List, [], ◌∷◌, ◌++◌, leb,
  nat_eq, if◌then◌else◌,
}
use projects_api.Regex.{Regex, class, seq, repeat, literal, fullmatch}

pub data ProjectType : Type 0 where
  agent mcp web : ProjectType

pub data ProjectStatus : Type 0 where
  created provisioning ready failed : ProjectStatus

-- `type.value`
unfoldable pub type_value : ProjectType → Text
unfolding lit
type_value agent = lit "agent"
type_value mcp = lit "mcp"
type_value web = lit "web"

-- `ProjectType(value)`; `none` is its `ValueError`.
unfoldable pub type_of_value : Text → Option ProjectType
unfolding lit ◌==◌
type_of_value v =
    if v == lit "agent"
    then some agent
    else if v == lit "mcp"
    then some mcp
    else if v == lit "web"
    then some web
    else none

-- `status.value`
unfoldable pub status_value : ProjectStatus → Text
unfolding lit
status_value created = lit "CREATED"
status_value provisioning = lit "PROVISIONING"
status_value ready = lit "READY"
status_value failed = lit "FAILED"

-- `ProjectStatus(value)`
unfoldable pub status_of_value : Text → Option ProjectStatus
unfolding lit ◌==◌
status_of_value v =
    if v == lit "CREATED"
    then some created
    else if v == lit "PROVISIONING"
    then some provisioning
    else if v == lit "READY"
    then some ready
    else if v == lit "FAILED"
    then some failed
    else none

-- A `datetime` in UTC.
pub record Datetime : Type 0 where
  pub year : ℕ
  pub month : ℕ
  pub day : ℕ
  pub hour : ℕ
  pub minute : ℕ
  pub second : ℕ
  pub microsecond : ℕ

-- The last digits of a number, most significant first.
abbrev pub digit : ℕ → ℕ
digit n = b'0' + n % 10

abbrev pub two_digits : ℕ → Text
two_digits n = digit (n / 10) ∷ digit n ∷ []

-- `t.isoformat()`: the fraction stands only where it is not zero.
unfoldable pub isoformat : Datetime → Text
isoformat t =
    two_digits (t.year / 100)
    ++ two_digits t.year
    ++ b'-'
      ∷ (two_digits t.month
          ++ b'-'
            ∷ (two_digits t.day
                ++ b'T'
                  ∷ (two_digits t.hour
                      ++ b':'
                        ∷ (two_digits t.minute
                            ++ b':'
                              ∷ (two_digits t.second
                                  ++ ((if nat_eq t.microsecond 0
                                        then []
                                        else b'.'
                                          ∷ (two_digits (t.microsecond / 10000)
                                              ++ two_digits (t.microsecond / 100)
                                              ++ two_digits t.microsecond))
                                      ++ b'+' ∷ b'0' ∷ b'0' ∷ b':' ∷ b'0' ∷ b'0' ∷ []))))))

pub record Project : Type 0 where
  pub project_id : Text
  pub name : Text
  pub type : ProjectType
  pub status : ProjectStatus
  pub owner_id : Text
  pub created_at : Datetime
  pub updated_at : Datetime

unfoldable pub project_id_prefix : Text
unfolding lit
project_id_prefix = lit "prj_"

-- `[0-9a-f]`
unfoldable pub is_hex : ℕ → Bool
is_hex c = leb b'0' c && leb c b'9' || leb b'a' c && leb c b'f'

unfoldable pub project_id_pattern : Regex
unfolding project_id_prefix is_hex
project_id_pattern = seq (literal project_id_prefix) (repeat 32 (class is_hex))

unfoldable pub is_valid_project_id : Text → Bool
unfolding project_id_pattern fullmatch
is_valid_project_id value = fullmatch project_id_pattern value

-- `Project.new`; `now` is what the clock says and `hex` is `uuid4().hex`.
unfoldable pub new_project :
    (name : Text) → ProjectType → (owner_id : Text) → (now : Datetime) → (hex : Text) → Project
new_project name type_ owner_id now hex =
    let at = record now { microsecond = 0 } in
    record {
      project_id = project_id_prefix ++ hex;
      name = name;
      type = type_;
      status = created;
      owner_id = owner_id;
      created_at = at;
      updated_at = at;
    }
