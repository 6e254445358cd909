-- ===== src/Collect/Walk/Keeping.antt =====
-- What the steps of the walk keep, the walk keeps: among it, that it acts on its result only as a
-- sweep may.
use dtp_discovery_agent.Common.{
  ℕ, String, ◌≡◌, refl, Bool, not, ◌||◌, Option, none, some, List, [], ◌∷◌, ◌⊎◌, inl, inr, ltb, leb,
  ◌==◌, contains, Bool-cases,
}
use dtp_discovery_agent.Collect.Result.{Result}
use dtp_discovery_agent.Collect.Run.{RunCap}
use dtp_discovery_agent.Collect.Run.Sweep.{say, give_up}
use dtp_discovery_agent.Collect.Config.Reader.{OsError, FileInfo}
use dtp_discovery_agent.Collect.ServerConfig.{Collecting}
use dtp_discovery_agent.Collect.ServerConfig.Sweeping.{Swept, clear_completed-Swept}
use dtp_discovery_agent.Collect.Walk.{
  Entries, no_entries, file, folder, missing, Answer, go_on, skip_dir, skip_all, failed, FsState,
  WalkHost, WalkBounds, note_unseen, give_up_all, report_read, resolved_path, examine, visit_info,
  visit_file, visit_dir, asked, visit_unread, walk_entries, walk_root, walk_roots,
}

pub Answer-cases :
    (a : Answer)
    → (a ≡ go_on) ⊎ (a ≡ skip_dir) ⊎ (a ≡ skip_all) ⊎ ((words : String) × (a ≡ failed words))
Answer-cases go_on = inl refl
Answer-cases skip_dir = inr (inl refl)
Answer-cases skip_all = inr (inr (inl refl))
Answer-cases (failed words) = inr (inr (inr (words, refl)))

-- What holds of the state and is kept by every step of the walk is kept by the walk.
module _ (w : WalkHost) (source : String) (b : WalkBounds) (candidate : String → Bool)
    (report : String → FileInfo → String → Collecting → Collecting) (P : FsState → Type 0)
    (asks : (s : FsState) → P s → P (asked w source b candidate report s))
    (notes : (path words : String) (s : FsState) → P s → P (note_unseen source path words s))
    (visits : (path : String) (symlink : Bool) (info : Option FileInfo) (s : FsState)
      → P s
      → P (visit_file w source b candidate report path symlink info s).1) where
  visit_unread_kept :
      (path : String) (unread : Option String) (s : FsState)
      → P s
      → P (visit_unread w source b candidate report path unread s).1
  visit_unread_kept path none s k = k
  visit_unread_kept path (some words) s k = elim (Bool-cases (w.world.cancelled s.work.polls)) [
    | inl e ↦ rw (visit_unread, e) (asks s k)
    | inr e ↦ rw (visit_unread, e) (notes path words _ (asks s k))
  ]

  walk_entries_kept :
      (root_depth : ℕ) (es : Entries) (s : FsState)
      → P s
      → P (walk_entries w source b candidate report root_depth es s).1
  unfolding walk_entries
  walk_entries_kept root_depth no_entries s k = k
  walk_entries_kept root_depth (file path symlink info rest) s k =
      let s1 =
        (visit_file w source b candidate report path symlink info
          (asked w source b candidate report s)).1 in
      let k1 = visits path symlink info (asked w source b candidate report s) (asks s k) in
      elim (Bool-cases (w.world.cancelled s.work.polls)) [
        | inl e ↦ rw (walk_entries, e) (asks s k)
        | inr e ↦
            elim (Answer-cases
              (visit_file w source b candidate report path symlink info
                (asked w source b candidate report s)).0) [
                  | inl q ↦ rw (walk_entries, e, q) (walk_entries_kept root_depth rest s1 k1)
                  | inr (inl q) ↦ rw (walk_entries, e, q) k1
                  | inr (inr (inl q)) ↦ rw (walk_entries, e, q) k1
                  | inr (inr (inr (words, q))) ↦ rw (walk_entries, e, q) k1
                ]
      ]
  walk_entries_kept root_depth (folder path unread children rest) s k =
      let s1 =
        (visit_unread w source b candidate report path unread
          (asked w source b candidate report s)).1 in
      let k1 = visit_unread_kept path unread (asked w source b candidate report s) (asks s k) in
      let s2 = (walk_entries w source b candidate report root_depth children s1).1 in
      let k2 = walk_entries_kept root_depth children s1 k1 in
      elim (Bool-cases (w.world.cancelled s.work.polls)) [
        | inl e ↦ rw (walk_entries, e) (asks s k)
        | inr e ↦ elim (Answer-cases (visit_dir w source b candidate report root_depth path)) [
          | inl d ↦
              elim (Answer-cases
                (visit_unread w source b candidate report path unread
                  (asked w source b candidate report s)).0) [
                    | inl q ↦
                        elim (Answer-cases
                          (walk_entries w source b candidate report root_depth children s1).0) [
                            | inl i ↦
                                rw (walk_entries, e, d, q, i)
                                  (walk_entries_kept root_depth rest s2 k2)
                            | inr (inl i) ↦
                                rw (walk_entries, e, d, q, i)
                                  (walk_entries_kept root_depth rest s2 k2)
                            | inr (inr (inl i)) ↦ rw (walk_entries, e, d, q, i) k2
                            | inr (inr (inr (words, i))) ↦ rw (walk_entries, e, d, q, i) k2
                          ]
                    | inr (inl q) ↦
                        rw (walk_entries, e, d, q) (walk_entries_kept root_depth rest s1 k1)
                    | inr (inr (inl q)) ↦ rw (walk_entries, e, d, q) k1
                    | inr (inr (inr (words, q))) ↦ rw (walk_entries, e, d, q) k1
                  ]
          | inr (inl d) ↦ rw (walk_entries, e, d) (walk_entries_kept root_depth rest _ (asks s k))
          | inr (inr (inl d)) ↦ rw (walk_entries, e, d) (asks s k)
          | inr (inr (inr (words, d))) ↦ rw (walk_entries, e, d) (asks s k)
        ]
      ]
  walk_entries_kept root_depth (missing path words rest) s k =
      elim (Bool-cases (w.world.cancelled s.work.polls)) [
        | inl e ↦ rw (walk_entries, e) (asks s k)
        | inr e ↦
            rw (walk_entries, e)
              (walk_entries_kept root_depth rest _ (notes path words _ (asks s k)))
      ]

  walk_root_kept :
      (dir : String) (s : FsState) → P s → P (walk_root w source b candidate report dir s)
  unfolding walk_root
  walk_root_kept dir s k =
      let k' = walk_entries_kept (w.separators dir) (w.below dir) s k in
      elim (Answer-cases
        (walk_entries w source b candidate report (w.separators dir) (w.below dir) s).0) [
          | inl q ↦ rw (walk_root, q) k'
          | inr (inl q) ↦ rw (walk_root, q) k'
          | inr (inr (inl q)) ↦ rw (walk_root, q) k'
          | inr (inr (inr (words, q))) ↦ rw (walk_root, q) (notes dir words _ k')
        ]

  pub walk_roots_kept :
      (dirs : List String) (s : FsState) → P s → P (walk_roots w source b candidate report dirs s)
  unfolding walk_roots
  walk_roots_kept [] s k = k
  walk_roots_kept (dir ∷ dirs) s k = walk_roots_kept dirs _ (walk_root_kept dir s k)

-- What every examined file keeps, the walk keeps.
module _ (r0 : Result) (l0 : RunCap) (w : WalkHost) (source : String) (b : WalkBounds)
    (candidate : String → Bool) (report : String → FileInfo → String → Collecting → Collecting)
    (reports : (path : String) (info : FileInfo) (contents : String) (s : Collecting)
      → Swept r0 l0 s
      → Swept r0 l0 (report path info contents s)) where
  abbrev pub Walked : FsState → Type 0
  Walked s = Swept r0 l0 s.work

  pub note_unseen-Walked :
      (path words : String) (s : FsState) → Walked s → Walked (note_unseen source path words s)
  unfolding note_unseen
  note_unseen-Walked path words s k = say (give_up k) _

  report_read-Walked :
      (path : String) (info : FileInfo) (x : OsError ⊎ String) (s : FsState)
      → Walked s
      → Walked (report_read w source b candidate report path info x s)
  report_read-Walked path info (inl e) s k = note_unseen-Walked path e.words s k
  report_read-Walked path info (inr contents) s k = reports path info contents s.work k

  examine-Walked :
      (path : String) (info : FileInfo) (s : FsState)
      → Walked s
      → Walked (examine w source b candidate report path info s)
  unfolding examine
  examine-Walked path info s k =
      elim (Bool-cases (contains s.examined (resolved_path w source b candidate report path))) [
        | inl e ↦ rw (examine, e) k
        | inr e ↦ rw (examine, e) (report_read-Walked path info (w.files.read_file path) _ k)
      ]

  visit_info-Walked :
      (path : String) (info : Option FileInfo) (s : FsState)
      → Walked s
      → Walked (visit_info w source b candidate report path info s).1
  unfolding visit_info
  visit_info-Walked path none s k = k
  visit_info-Walked path (some info) s k =
      elim (Bool-cases (ltb b.max_file_bytes info.file_size || info.file_size == 0)) [
        | inl e ↦ rw (visit_info, e) k
        | inr e ↦ rw (visit_info, e) (examine-Walked path info s k)
      ]

  visit_file-Walked :
      (path : String) (symlink : Bool) (info : Option FileInfo) (s : FsState)
      → Walked s
      → Walked (visit_file w source b candidate report path symlink info s).1
  unfolding visit_file give_up_all
  visit_file-Walked path symlink info s k = elim (Bool-cases (symlink || not (candidate path))) [
    | inl e ↦ rw (visit_file, e) k
    | inr e ↦ elim (Bool-cases (leb b.max_files s.seen)) [
      | inl q ↦ rw (visit_file, e, q) (clear_completed-Swept r0 l0 s.work k)
      | inr q ↦ rw (visit_file, e, q) (visit_info-Walked path info _ k)
    ]
  ]

  pub walk_roots-Walked :
      (dirs : List String) (s : FsState)
      → Walked s
      → Walked (walk_roots w source b candidate report dirs s)
  walk_roots-Walked =
      walk_roots_kept w source b candidate report Walked (λ s k. k) note_unseen-Walked
        visit_file-Walked
