-- ===== src/Tests/LocalTable.antt =====
-- The local table, made or found.
use projects_api.Common.{lit, ◌≡◌, refl, none, some, []}
use projects_api.Dynamo.{Reply, failed}
use projects_api.Domain.Exceptions.{ok}
use projects_api.Scripts.LocalTable.{CreateTable, create_local_table}

abbrev in_use : CreateTable → Unit {0} → Reply (Unit {0}) × Unit {0}
in_use t s =
    (failed (record { code = some "ResourceInUseException"; reasons = []; message = "" }), s)

found :
    (create_local_table none none (λ url. in_use) tt).0
    ≡ ok (lit "table projects-local already exists")
unfolding create_local_table lit
found = refl
