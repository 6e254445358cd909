-- ===== src/Collect/Config/Reader.antt =====
-- configReader (internal/collect/serverconfig.go): the files of a configuration, each opened once.
-- The file system and package filepath are the parameter Files.
use dtp_discovery_agent.Common.{
  ℕ, suc, String, ◌⊎◌, inl, inr, Bool, not, Option, none, some, List, [], ◌∷◌, ◌++◌, ltb, leb,
  if◌then◌else◌, contains,
}
use dtp_discovery_agent.Common.Text.{runes, codes, contains_any}
use dtp_discovery_agent.Common.Sorting.{sort_strings}
use dtp_discovery_agent.Collect.Result.{Error, Message, text, too_many_files, file_too_large}
pub mod Once

pub record OsError : Type 0 where
  pub words : String
  pub is_not_exist : Bool

-- os.FileInfo
pub record FileInfo : Type 0 where
  pub is_dir : Bool
  pub file_size : ℕ
  pub mode : String
  pub owner : String

-- Abs, Stat, ReadFile, Glob, IsAbs, Join and Dir
pub record Files : Type 0 where
  pub abs : String → Option String
  pub stat : String → OsError ⊎ FileInfo
  pub read_file : String → OsError ⊎ String
  pub glob : String → OsError ⊎ List String
  pub is_abs : String → Bool
  pub join_paths : String → String → String
  pub dir : String → String

-- the fields of ServerConfigBounds that bound the reading
pub record ConfigBounds : Type 0 where
  pub max_files : ℕ
  pub max_file_bytes : ℕ
  pub max_depth : ℕ

pub record ConfigReader : Type 0 where
  pub visited : List String
  pub opened : ℕ
  pub problems : List Error

abbrev pub source_server_config : String
source_server_config = "server_config"

unfoldable pub new_config_reader : ConfigReader
new_config_reader = record { visited = []; opened = 0; problems = [] }

unfoldable pub note : String → Message → ConfigReader → ConfigReader
note path message r = record r {
  problems =
      r.problems
      ++ record { collector = source_server_config; message = message; location = path } ∷ [];
}

module _ (files : Files) (b : ConfigBounds) where
  abbrev pub resolved_path : String → String
  resolved_path path = elim (files.abs path) [ none ↦ path | some p ↦ p ]

  unfoldable pub read_contents : String → String → ConfigReader → Option String × ConfigReader
  read_contents path resolved r = elim (files.read_file resolved) [
    | inl e ↦ (none, note path (text e.words) r)
    | inr contents ↦ (some contents, record r { opened = suc r.opened })
  ]

  unfoldable pub read_file_at :
      String → String → OsError ⊎ FileInfo → ConfigReader → Option String × ConfigReader
  read_file_at path resolved (inl e) r = (none, note path (text e.words) r)
  read_file_at path resolved (inr info) r =
      if info.is_dir
      then (none, r)
      else if ltb b.max_file_bytes info.file_size
      then (none, note path (file_too_large info.file_size b.max_file_bytes) r)
      else read_contents path resolved r

  -- `read`, of a path that was not seen before
  unfoldable pub read_new : String → String → ConfigReader → Option String × ConfigReader
  read_new path resolved r =
      if leb b.max_files r.opened
      then (none, note path (too_many_files b.max_files) r)
      else read_file_at path resolved (files.stat resolved) r

  unfoldable pub read : String → ConfigReader → Option String × ConfigReader
  read path r =
      let resolved = resolved_path path in
      if contains r.visited resolved
      then (none, r)
      else read_new path resolved (record r { visited = resolved ∷ r.visited })

  -- `expand`, of a pattern that is made absolute
  unfoldable pub matches_of :
      String → OsError ⊎ List String → ConfigReader → List String × ConfigReader
  matches_of pattern (inl e) r = ([], note pattern (text e.words) r)
  matches_of pattern (inr []) r =
      if contains_any (runes pattern) (codes "*?[")
      then ([], r)
      else ([], note pattern (text "file does not exist") r)
  matches_of pattern (inr (m ∷ ms)) r = (sort_strings (m ∷ ms), r)

  unfoldable pub expand : String → String → ConfigReader → List String × ConfigReader
  expand pattern relative_to r =
      let whole = if files.is_abs pattern then pattern else files.join_paths relative_to pattern in
      matches_of whole (files.glob whole) r
