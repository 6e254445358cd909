-- ===== src/Collect/Apache/Sections.antt =====
-- The section reader ends on every list of lines, so a file always has sites, and opens no file
-- twice.
use dtp_discovery_agent.Common.{ℕ, ◌≤◌, length}
use dtp_discovery_agent.Collect.Config.Directives.{Directives}
use dtp_discovery_agent.Collect.Config.Reader.{Files, ConfigBounds}
use dtp_discovery_agent.Collect.Config.Reader.Once.{IsReader}
use dtp_discovery_agent.Collect.Apache.{ApacheState, Section, section, stuck}

-- A section ended, with no more lines left than there were.
abbrev Ends : ℕ → Section → Type 0
Ends n (section ds rest) = length rest ≤ n
Ends n stuck = ⊥

-- What a step keeps of the parser's state.
abbrev Keeps : {A : Type 0} → (ApacheState → Type 0) → (ApacheState → A × ApacheState) → Type 0
Keeps P f = (s : ApacheState) → P s → P (f s).1

module _ (files : Files) (b : ConfigBounds) where
  abbrev Reads : ApacheState → Type 0
  Reads s = IsReader b s.reader
