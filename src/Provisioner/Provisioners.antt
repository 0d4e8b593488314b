-- ===== src/Provisioner/Provisioners.antt =====
-- src/projects_provisioner/provisioners.py
use projects_api.Common.{Text, Option, none, List, []}
use projects_api.Domain.Exceptions.{Result, ok}
use projects_api.Domain.Models.{ProjectType, agent, mcp, web}

pub record ProvisionRequest : Type 0 where
  pub project_id : Text
  pub name : Text
  pub type : ProjectType
  pub owner_id : Text

pub record ProvisionResult : Type 0 where
  pub endpoint : Option Text
  pub details : List (Text × Text)

-- A `Provisioner`: its `provision` returns a result or raises.
abbrev pub Provisioner : Type 0
Provisioner = ProvisionRequest → Result ProvisionResult

-- `AgentProvisioner`, `McpProvisioner` and `WebProvisioner` are placeholders.
abbrev pub agent_provisioner : Provisioner
agent_provisioner project = ok (record { endpoint = none; details = [] })

abbrev pub mcp_provisioner : Provisioner
mcp_provisioner project = ok (record { endpoint = none; details = [] })

abbrev pub web_provisioner : Provisioner
web_provisioner project = ok (record { endpoint = none; details = [] })

-- `PROVISIONERS`
unfoldable pub provisioners : ProjectType → Provisioner
provisioners agent = agent_provisioner
provisioners mcp = mcp_provisioner
provisioners web = web_provisioner
