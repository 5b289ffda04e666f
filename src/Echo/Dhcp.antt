-- ===== src/Echo/Dhcp.antt =====
-- `dhcp_config` of src/main.rs.
use embassy_sandbox.Prelude.{ℕ, Option, none, some, leb, if◌then◌else◌, List, length}

-- The fields of embassy_net's `DhcpConfig` that are set, with times in seconds, and all others.
pub record DhcpConfig (Others : Type 0) : Type 0 where
  pub hostname : Option (List ℕ)
  pub discover_timeout : ℕ
  pub initial_request_timeout : ℕ
  pub others : Others

-- `String::from_str`, which fails on a text that is longer than the string may be.
abbrev pub from_str : ℕ → List ℕ → Option (List ℕ)
from_str capacity text = if leb (length text) capacity then some text else none

module _ {Others : Type 0} (capacity : ℕ) (default : DhcpConfig Others) where
  abbrev pub named : Option (List ℕ) → Option (DhcpConfig Others)
  named none = none
  named (some name) = some (record {
    hostname = some name;
    discover_timeout = 16;
    initial_request_timeout = 16;
    others = default.others;
  })

  unfoldable pub dhcp_config : List ℕ → Option (DhcpConfig Others)
  dhcp_config hostname = named (from_str capacity hostname)
