-- ===== src/Collect/Nginx/Blocks.antt =====
-- The block reader ends on every list of tokens, and opens no file twice.
use dtp_discovery_agent.Common.{ℕ, ◌≤◌, String, ◌≡◌, ◌⊎◌, inl, inr, List, length}
use dtp_discovery_agent.Collect.Result.{Message, in_file, nested_includes, bare_block}
use dtp_discovery_agent.Collect.Config.Directives.{Directives}
use dtp_discovery_agent.Collect.Config.References.{Vhost}
use dtp_discovery_agent.Collect.Config.Reader.{Files, ConfigBounds, ConfigReader}
use dtp_discovery_agent.Collect.Nginx.{Block, block, failed}

-- A block ended, with no more tokens left than there were, or was opened with no directive.
abbrev Ends : ℕ → Block → Type 0
Ends n (block ds rest) = length rest ≤ n
Ends n (failed e) = e ≡ bare_block

-- What a file's reading keeps of the reader.
abbrev Keeps {ℓ} :
    {A : Type ℓ} → (ConfigReader → Type 0) → (ConfigReader → A × ConfigReader) → Type 0
Keeps P f = (r : ConfigReader) → P r → P (f r).1

abbrev pub FileError : ConfigBounds → Message → Type 0
FileError b e =
    (e ≡ nested_includes b.max_depth) ⊎ ((path : String) × (e ≡ in_file path bare_block))

-- What reading a file ends with: its directives, or one of two errors.
abbrev pub FileEnds : ConfigBounds → Message ⊎ Directives → Type 0
FileEnds b (inl e) = FileError b e
FileEnds b (inr ds) = Unit

module _ (files : Files) (b : ConfigBounds) where
  abbrev pub SitesEnd : Message ⊎ List Vhost → Type 0
  SitesEnd (inl e) = FileError b e
  SitesEnd (inr hosts) = Unit
