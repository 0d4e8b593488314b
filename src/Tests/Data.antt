-- ===== src/Tests/Data.antt =====
-- The data of the tests.
use projects_api.Common.{arith, refl, Text, lit, ◌==◌, none, some, [], false, if◌then◌else◌}
use projects_api.Dynamo.Behaviour.{Contents}
use projects_api.Domain.Validation.{Unicode}
use projects_api.Domain.Models.{Project, agent, created, Datetime, isoformat}
use projects_api.Domain.Models.Times.{IsWhole, days_in_month}
use projects_api.Repository.Records.{Runtime}
use projects_api.World.{World}

abbrev pub unicode : Unicode
unicode = record { lower = λ s. s; printable = λ c. false }

abbrev pub noon : Datetime
noon = record {
  year = 2026;
  month = 1;
  day = 15;
  hour = 12;
  minute = 30;
  second = 0;
  microsecond = 0;
}

pub noon-IsWhole : IsWhole noon
unfolding days_in_month
noon-IsWhole = record {
  year = (omega arith, omega arith);
  month = (omega arith, omega arith);
  day = (omega arith, omega arith);
  hour = omega arith;
  minute = omega arith;
  second = omega arith;
  whole = refl;
}

abbrev pub runtime : Runtime
runtime = record {
  unicode = unicode;
  parse_datetime = λ s. if s == isoformat noon then some noon else none;
  invalid_record = λ item. lit "invalid";
}

abbrev pub hex : Text
hex = lit "9f1c2b3a4d5e6f708192a3b4c5d6e7f8"

abbrev pub demo : Project
demo = record {
  project_id = lit "prj_9f1c2b3a4d5e6f708192a3b4c5d6e7f8";
  name = lit "Demo App";
  type = agent;
  status = created;
  owner_id = lit "key-1";
  created_at = noon;
  updated_at = noon;
}

-- Another project whose name differs in case alone.
abbrev pub rival : Project
rival = record demo {
  project_id = lit "prj_00000000000000000000000000000000";
  name = lit "demo  APP";
  owner_id = lit "key-2";
}

abbrev pub no_items : Contents
no_items = λ k. none

abbrev pub start : World Contents
start = record { db = no_items; metrics = []; log = [] }
