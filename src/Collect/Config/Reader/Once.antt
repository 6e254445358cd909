-- ===== src/Collect/Config/Reader/Once.antt =====
-- A configuration opens each file at most once, and at most max_files of them.
use dtp_discovery_agent.Common.{
  ◌≤◌, ◌<◌, String, ◌≡◌, ◌⊎◌, inl, inr, false, List, [], ◌∷◌, arith, ltb, leb, contains, Bool-cases,
  Sum-cases, length,
}
use dtp_discovery_agent.Common.Text.{runes, codes, contains_any}
use dtp_discovery_agent.Collect.Result.{Message}
use dtp_discovery_agent.Collect.Config.Reader.{
  OsError, FileInfo, Files, ConfigBounds, ConfigReader, note, resolved_path, read_contents,
  read_file_at, read_new, read, matches_of, expand, new_config_reader,
}

abbrev pub Distinct : List String → Type 0
Distinct [] = Unit
Distinct (x ∷ xs) = (contains xs x ≡ false) × Distinct xs

-- No path was visited twice, no more files were opened than visited, and none beyond the limit.
pub record IsReader (b : ConfigBounds) (r : ConfigReader) : Type 0 where
  pub distinct : Distinct r.visited
  pub visited_first : r.opened ≤ length r.visited
  pub within : r.opened ≤ b.max_files

pub new_config_reader-IsReader : (b : ConfigBounds) → IsReader b new_config_reader
unfolding new_config_reader
new_config_reader-IsReader b = record {
  distinct = tt;
  visited_first = omega arith;
  within = omega arith;
}

pub note-IsReader :
    {b : ConfigBounds} (path : String) (m : Message) (r : ConfigReader)
    → IsReader b r
    → IsReader b (note path m r)
unfolding note
note-IsReader path m r h = record {
  distinct = h.distinct;
  visited_first = h.visited_first;
  within = h.within;
}

module _ (files : Files) (b : ConfigBounds) where
  -- a reader that may open one file more
  abbrev IsRoomy : ConfigReader → Type 0
  IsRoomy r = IsReader b r × ((r.opened < length r.visited) × (r.opened < b.max_files))

  read_contents-IsReader :
      (path resolved : String) (r : ConfigReader)
      → IsRoomy r
      → IsReader b (read_contents files b path resolved r).1
  unfolding read_contents
  read_contents-IsReader path resolved r (h, (v, w)) = elim (Sum-cases (files.read_file resolved)) [
    | inl (e, q) ↦ rw (read_contents, q) (note-IsReader path _ r h)
    | inr (c, q) ↦
        rw (read_contents, q)
          (record { distinct = h.distinct; visited_first = omega arith; within = omega arith })
  ]

  read_file_at-IsReader :
      (path resolved : String) (i : OsError ⊎ FileInfo) (r : ConfigReader)
      → IsRoomy r
      → IsReader b (read_file_at files b path resolved i r).1
  unfolding read_file_at
  read_file_at-IsReader path resolved (inl e) r h = note-IsReader path _ r h.0
  read_file_at-IsReader path resolved (inr info) r h = elim (Bool-cases info.is_dir) [
    | inl e ↦ rw (read_file_at, e) h.0
    | inr e ↦ elim (Bool-cases (ltb b.max_file_bytes info.file_size)) [
      | inl g ↦ rw (read_file_at, e, g) (note-IsReader path _ r h.0)
      | inr g ↦ rw (read_file_at, e, g) (read_contents-IsReader path resolved r h)
    ]
  ]

  read_new-IsReader :
      (path resolved : String) (r : ConfigReader)
      → IsReader b r
      → r.opened < length r.visited
      → IsReader b (read_new files b path resolved r).1
  unfolding read_new
  read_new-IsReader path resolved r h v = elim (Bool-cases (leb b.max_files r.opened)) [
    | inl e ↦ rw (read_new, e) (note-IsReader path _ r h)
    | inr e ↦
        rw (read_new, e)
          (read_file_at-IsReader path resolved (files.stat resolved) r (h, (v, ground arith)))
  ]

  pub read-IsReader :
      (path : String) (r : ConfigReader) → IsReader b r → IsReader b (read files b path r).1
  unfolding read
  read-IsReader path r h = elim (Bool-cases (contains r.visited (resolved_path files b path))) [
    | inl e ↦ rw (read, e) h
    | inr e ↦
        let p = resolved_path files b path in
        rw (read, e)
          (read_new-IsReader path p (record r { visited = p ∷ r.visited })
            (record {
              distinct = (e, h.distinct);
              visited_first = (let v = h.visited_first in omega arith);
              within = h.within;
            })
            (let v = h.visited_first in omega arith))
  ]

  matches_of-IsReader :
      (pattern : String) (found : OsError ⊎ List String) (r : ConfigReader)
      → IsReader b r
      → IsReader b (matches_of files b pattern found r).1
  unfolding matches_of
  matches_of-IsReader pattern (inl e) r h = note-IsReader pattern _ r h
  matches_of-IsReader pattern (inr []) r h =
      elim (Bool-cases (contains_any (runes pattern) (codes "*?["))) [
        | inl e ↦ rw (matches_of, e) h
        | inr e ↦ rw (matches_of, e) (note-IsReader pattern _ r h)
      ]
  matches_of-IsReader pattern (inr (m ∷ ms)) r h = h

  pub expand-IsReader :
      (pattern relative_to : String) (r : ConfigReader)
      → IsReader b r
      → IsReader b (expand files b pattern relative_to r).1
  unfolding expand
  expand-IsReader pattern relative_to r h = matches_of-IsReader _ _ r h
