-- ===== src/Collect/Walk.antt =====
-- The walk that the collectors of files and of Java keystores share
-- (internal/collect/fs.go, and the same code in keystore.go). filepath.WalkDir's order is that of the
-- tree Entries, which is what the file system holds below a root: the callback is asked of each
-- entry, and what it answers skips a directory or ends the walk.
use dtp_discovery_agent.Common.{
  ℕ, suc, ◌+◌, String, Bool, true, false, not, ◌||◌, Option, none, some, List, [], ◌∷◌, ◌⊎◌, inl,
  inr, ltb, leb, ◌==◌, contains, if◌then◌else◌,
}
use dtp_discovery_agent.Parse.Certificate.{World}
use dtp_discovery_agent.Collect.Result.{Error, text, add_error, incomplete}
use dtp_discovery_agent.Collect.Config.Reader.{OsError, FileInfo, Files}
use dtp_discovery_agent.Collect.ServerConfig.{Collecting, clear_completed}
pub mod Keeping
pub mod Bounds

-- What a directory holds, in lexical order: files, symbolic links among them, whose information may
-- not be had; directories, which may not be read in full; and a root that is not there.
pub data Entries : Type 0 where
  no_entries : Entries
  file : (path : String) (symlink : Bool) (info : Option FileInfo) (rest : Entries) → Entries
  folder : (path : String) (unread : Option String) (children : Entries) (rest : Entries) → Entries
  missing : (path : String) (words : String) (rest : Entries) → Entries

-- What the callback answers.
pub data Answer : Type 0 where
  go_on : Answer
  skip_dir : Answer
  skip_all : Answer
  failed : String → Answer

-- What the walk works on; `seen` counts the candidate files, and `examined` are those marked as
-- examined. `reads` is no part of the code: it logs the absolute path of each file that is opened.
pub record FsState : Type 0 where
  pub work : Collecting
  pub seen : ℕ
  pub examined : List String
  pub reads : List String

-- What the walk takes from outside: the files, the context, and package filepath.
pub record WalkHost : Type 0 where
  pub files : Files
  pub world : World
  pub separators : String → ℕ  -- strings.Count(filepath.Clean(path), the separator)
  pub below : String → Entries
  pub context_error : String

pub record WalkBounds : Type 0 where
  pub max_file_bytes : ℕ
  pub max_depth : ℕ
  pub max_files : ℕ

abbrev pub file_error : String → String → String → Error
file_error source path words = record { collector = source; message = text words; location = path }

-- an error at a path, with the sweep incomplete
unfoldable pub note_unseen : String → String → String → FsState → FsState
note_unseen source path words s = record s {
  work = record s.work {
    result = add_error (file_error source path words) (incomplete s.work.result);
  };
}

unfoldable pub give_up_all : FsState → FsState
give_up_all s = record s { work = clear_completed s.work }

abbrev pub is_there : OsError ⊎ FileInfo → Bool
is_there (inl e) = false
is_there (inr info) = true

-- `candidate` says which files are looked into, and `report` what is made of a file's contents.
module _ (w : WalkHost) (source : String) (b : WalkBounds) (candidate : String → Bool)
    (report : String → FileInfo → String → Collecting → Collecting) where
  open w use {files, world, separators, below, context_error}

  abbrev pub report_read : String → FileInfo → OsError ⊎ String → FsState → FsState
  report_read path info (inl e) s = note_unseen source path e.words s
  report_read path info (inr contents) s = record s { work = report path info contents s.work }

  abbrev pub resolved_path : String → String
  resolved_path path = elim (files.abs path) [ none ↦ path | some p ↦ p ]

  -- os.ReadFile has opened the file
  abbrev pub logged : String → FsState → FsState
  logged path s = record s { reads = resolved_path path ∷ s.reads }

  unfoldable pub examine : String → FileInfo → FsState → FsState
  examine path info s =
      let resolved = resolved_path path in
      if contains s.examined resolved
      then s
      else report_read path info (files.read_file path)
          (logged path (record s { examined = resolved ∷ s.examined }))

  -- a candidate file whose information is had
  unfoldable pub visit_info : String → Option FileInfo → FsState → Answer × FsState
  visit_info path none s = (go_on, s)
  visit_info path (some info) s =
      if ltb b.max_file_bytes info.file_size || info.file_size == 0
      then (go_on, s)
      else (let s' = examine path info s in (if s'.work.limit.full then skip_all else go_on, s'))

  -- the callback at a file
  unfoldable pub visit_file : String → Bool → Option FileInfo → FsState → Answer × FsState
  visit_file path symlink info s =
      if symlink || not (candidate path)
      then (go_on, s)
      else if leb b.max_files s.seen
      then (skip_all, give_up_all s)
      else visit_info path info (record s { seen = suc s.seen })

  -- the callback at a directory
  abbrev pub visit_dir : ℕ → String → Answer
  visit_dir root_depth path =
      if leb (root_depth + b.max_depth) (separators path) then skip_dir else go_on

  -- the question to the context with which the callback begins
  abbrev pub asked : FsState → FsState
  asked s = record s { work = record s.work { polls = suc s.work.polls } }

  -- the callback at a directory that could not be read in full: its children are not walked
  abbrev pub visit_unread : String → Option String → FsState → Answer × FsState
  visit_unread path none s = (go_on, s)
  visit_unread path (some words) s = elim (world.cancelled s.work.polls) [
    | true ↦ (failed context_error, asked s)
    | false ↦ (skip_dir, note_unseen source path words (asked s))
  ]

  unfoldable pub walk_entries : ℕ → Entries → FsState → Answer × FsState
  walk_entries root_depth no_entries s = (go_on, s)
  walk_entries root_depth (file path symlink info rest) s = elim (world.cancelled s.work.polls) [
    | true ↦ (failed context_error, asked s)
    | false ↦
        let (answer, s') = visit_file path symlink info (asked s) in
        elim answer [
          | go_on ↦ walk_entries root_depth rest s'
          | skip_dir ↦ (go_on, s')
          | skip_all ↦ (skip_all, s')
          | failed words ↦ (failed words, s')
        ]
  ]
  walk_entries root_depth (folder path unread children rest) s =
      elim (world.cancelled s.work.polls) [
        | true ↦ (failed context_error, asked s)
        | false ↦ elim (visit_dir root_depth path) [
          | go_on ↦
              let (answer, s') = visit_unread path unread (asked s) in
              elim answer [
                | go_on ↦
                    let (inner, s'') = walk_entries root_depth children s' in
                    elim inner [
                      | go_on ↦ walk_entries root_depth rest s''
                      | skip_dir ↦ walk_entries root_depth rest s''
                      | skip_all ↦ (skip_all, s'')
                      | failed words ↦ (failed words, s'')
                    ]
                | skip_dir ↦ walk_entries root_depth rest s'
                | skip_all ↦ (skip_all, s')
                | failed words ↦ (failed words, s')
              ]
          | skip_dir ↦ walk_entries root_depth rest (asked s)
          | skip_all ↦ (skip_all, asked s)
          | failed words ↦ (failed words, asked s)
        ]
      ]
  walk_entries root_depth (missing path words rest) s = elim (world.cancelled s.work.polls) [
    | true ↦ (failed context_error, asked s)
    | false ↦ walk_entries root_depth rest (note_unseen source path words (asked s))
  ]

  -- walk, with what Collect makes of its error
  unfoldable pub walk_root : String → FsState → FsState
  walk_root dir s =
      let (answer, s') = walk_entries (separators dir) (below dir) s in
      elim answer [
        | go_on ↦ s'
        | skip_dir ↦ s'
        | skip_all ↦ s'
        | failed words ↦ note_unseen source dir words s'
      ]

  unfoldable pub walk_roots : List String → FsState → FsState
  walk_roots [] s = s
  walk_roots (dir ∷ dirs) s = walk_roots dirs (walk_root dir s)

  -- the directories that a root names
  abbrev pub matches_of : String → OsError ⊎ List String → List String
  matches_of root (inr (m ∷ ms)) = m ∷ ms
  matches_of root other = if is_there (files.stat root) then root ∷ [] else []
