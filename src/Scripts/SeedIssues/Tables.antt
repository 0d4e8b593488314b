-- ===== src/Scripts/SeedIssues/Tables.antt =====
-- The tables of scripts/seed_issues.py.
use projects_api.Common.{Text, lit, List, [], ◌∷◌}

-- `LABELS`: the name, the color and the description of each.
unfoldable pub labels : List (Text × Text × Text)
unfolding lit
labels =
    (lit "type:feature", lit "1D76DB", lit "User-facing behaviour")
    ∷ (lit "type:infra", lit "5319E7", lit "Terraform / AWS")
    ∷ (lit "type:docs", lit "0E8A16", lit "Documentation and ADRs")
    ∷ (lit "type:test", lit "FBCA04", lit "Tests and verification")
    ∷ (lit "type:chore", lit "C5DEF5", lit "Tooling, CI, housekeeping")
    ∷ (lit "pillar:security", lit "B60205", lit "Well-Architected: security")
    ∷ (lit "pillar:reliability", lit "D93F0B", lit "Well-Architected: reliability")
    ∷ (lit "pillar:performance", lit "E99695", lit "Well-Architected: performance efficiency")
    ∷ (lit "pillar:cost", lit "F9D0C4", lit "Well-Architected: cost optimisation")
    ∷ (lit "pillar:operations", lit "BFD4F2", lit "Well-Architected: operational excellence")
    ∷ (lit "slice:S0", lit "EDEDED", lit "Slice 0: Foundation")
    ∷ (lit "slice:S1", lit "EDEDED", lit "Slice 1: Create project")
    ∷ (lit "slice:S2", lit "EDEDED", lit "Slice 2: Read projects")
    ∷ (lit "slice:S3", lit "EDEDED", lit "Slice 3: Operate")
    ∷ (lit "slice:S4", lit "EDEDED", lit "Slice 4: Lifecycle")
    ∷ (lit "status:blocked", lit "000000", lit "Cannot proceed; see the issue for what unblocks it")
    ∷ []

-- `MILESTONES`
unfoldable pub milestones : List (Text × Text)
unfolding lit
milestones =
    (lit "S0 Foundation", lit "Deployed, monitored GET /health behind API Gateway.")
    ∷ (
      lit "S1 Create project",
      lit "API-key holder can create a project: 201, or 409 if the name is taken.",
    )
    ∷ (lit "S2 Read projects", lit "Owners can fetch and list their projects.")
    ∷ (lit "S3 Operate", lit "On-call can see health, correlate requests, get paged and roll back.")
    ∷ (lit "S4 Lifecycle", lit "Delete, async provisioning skeleton, production environment.")
    ∷ []
