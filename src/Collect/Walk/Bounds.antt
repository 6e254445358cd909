-- ===== src/Collect/Walk/Bounds.antt =====
-- What the walk opens: no file twice, and no more than the limit.
use dtp_discovery_agent.Common.{
  ℕ, suc, ◌≤◌, ◌<◌, String, ◌≡◌, ap, ◌∙◌, Bool, false, not, ◌||◌, Option, none, some, List, ◌∷◌,
  ◌⊎◌, inl, inr, arith, ltb, leb, ◌==◌, length, contains, Bool-cases,
}
use dtp_discovery_agent.Collect.Config.Reader.{OsError, FileInfo}
use dtp_discovery_agent.Collect.Config.Reader.Once.{Distinct}
use dtp_discovery_agent.Collect.ServerConfig.{Collecting}
use dtp_discovery_agent.Collect.Walk.{
  FsState, WalkHost, WalkBounds, note_unseen, give_up_all, report_read, resolved_path, examine,
  visit_info, visit_file, walk_roots,
}
use dtp_discovery_agent.Collect.Walk.Keeping.{walk_roots_kept}

-- No file was opened twice, by its absolute path, and no more of them than the limit. What was
-- opened is what is marked, and all of it was counted.
pub record IsBounded (max_files : ℕ) (s : FsState) : Type 0 where
  pub distinct : Distinct s.reads
  pub bounded : length s.reads ≤ max_files
  pub marked : s.reads ≡ s.examined
  pub counted : length s.reads ≤ s.seen
  pub within : s.seen ≤ max_files

note_unseen-IsBounded :
    (source : String) (n : ℕ) (path words : String) (s : FsState)
    → IsBounded n s
    → IsBounded n (note_unseen source path words s)
unfolding note_unseen
note_unseen-IsBounded source n path words s k = record {
  distinct = k.distinct;
  bounded = k.bounded;
  marked = k.marked;
  counted = k.counted;
  within = k.within;
}

module _ (w : WalkHost) (source : String) (b : WalkBounds) (candidate : String → Bool)
    (report : String → FileInfo → String → Collecting → Collecting) where
  report_read-IsBounded :
      (n : ℕ) (path : String) (info : FileInfo) (x : OsError ⊎ String) (s : FsState)
      → IsBounded n s
      → IsBounded n (report_read w source b candidate report path info x s)
  report_read-IsBounded n path info (inl e) s k = note_unseen-IsBounded source n path e.words s k
  report_read-IsBounded n path info (inr contents) s k = record {
    distinct = k.distinct;
    bounded = k.bounded;
    marked = k.marked;
    counted = k.counted;
    within = k.within;
  }

  examine-IsBounded :
      (n : ℕ) (path : String) (info : FileInfo) (s : FsState)
      → Distinct s.reads
      → s.reads ≡ s.examined
      → length s.reads < s.seen
      → s.seen ≤ n
      → IsBounded n (examine w source b candidate report path info s)
  unfolding examine
  examine-IsBounded n path info s d m c v =
      elim (Bool-cases (contains s.examined (resolved_path w source b candidate report path))) [
        | inl e ↦
            rw (examine, e)
              (record {
                distinct = d;
                bounded = omega arith;
                marked = m;
                counted = omega arith;
                within = v;
              })
        | inr e ↦
            let resolved = resolved_path w source b candidate report path in
            let unmarked : contains s.reads resolved ≡ false =
              ap (λ t. contains t resolved) m ∙ e in
            rw (examine, e)
              (report_read-IsBounded n path info (w.files.read_file path) _ (record {
                distinct = (unmarked, d);
                bounded = omega arith;
                marked = ap (λ t. resolved_path w source b candidate report path ∷ t) m;
                counted = omega arith;
                within = v;
              }))
      ]

  visit_info-IsBounded :
      (path : String) (info : Option FileInfo) (s : FsState)
      → Distinct s.reads
      → s.reads ≡ s.examined
      → length s.reads < s.seen
      → s.seen ≤ b.max_files
      → IsBounded b.max_files (visit_info w source b candidate report path info s).1
  unfolding visit_info
  visit_info-IsBounded path none s d m c v = record {
    distinct = d;
    bounded = omega arith;
    marked = m;
    counted = omega arith;
    within = v;
  }
  visit_info-IsBounded path (some info) s d m c v =
      elim (Bool-cases (ltb b.max_file_bytes info.file_size || info.file_size == 0)) [
        | inl e ↦
            rw (visit_info, e)
              (record {
                distinct = d;
                bounded = omega arith;
                marked = m;
                counted = omega arith;
                within = v;
              })
        | inr e ↦ rw (visit_info, e) (examine-IsBounded b.max_files path info s d m c v)
      ]

  visit_file-IsBounded :
      (path : String) (symlink : Bool) (info : Option FileInfo) (s : FsState)
      → IsBounded b.max_files s
      → IsBounded b.max_files (visit_file w source b candidate report path symlink info s).1
  unfolding visit_file give_up_all
  visit_file-IsBounded path symlink info s k = elim (Bool-cases (symlink || not (candidate path))) [
    | inl e ↦ rw (visit_file, e) k
    | inr e ↦ elim (Bool-cases (leb b.max_files s.seen)) [
      | inl q ↦
          rw (visit_file, e, q)
            (record {
              distinct = k.distinct;
              bounded = k.bounded;
              marked = k.marked;
              counted = k.counted;
              within = k.within;
            })
      | inr q ↦
          let c = k.counted in
          let room : suc s.seen ≤ b.max_files = ground arith in
          rw (visit_file, e, q)
            (visit_info-IsBounded path info (record s { seen = suc s.seen }) k.distinct k.marked
              (omega arith) room)
    ]
  ]

  pub walk_roots-IsBounded :
      (dirs : List String) (s : FsState)
      → IsBounded b.max_files s
      → IsBounded b.max_files (walk_roots w source b candidate report dirs s)
  walk_roots-IsBounded =
      walk_roots_kept w source b candidate report (IsBounded b.max_files)
        (λ s k. record {
          distinct = k.distinct;
          bounded = k.bounded;
          marked = k.marked;
          counted = k.counted;
          within = k.within;
        })
        (note_unseen-IsBounded source b.max_files) visit_file-IsBounded
