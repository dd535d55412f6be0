-- ===== src/Models/Examples.antt =====
-- Examples of the data model.
use mcp_probe.Base.{◌≡◌, some}
use mcp_probe.Models.Findings.{to_dict, from_dict}
use mcp_probe.Models.Severities.{}
use mcp_probe.Models.Roundtrip.{from_dict-to_dict}
use mcp_probe.Models.Samples.{broken_finding}

from_dict-to_dict_example : from_dict "contract" (to_dict broken_finding) ≡ some broken_finding
from_dict-to_dict_example = from_dict-to_dict broken_finding
