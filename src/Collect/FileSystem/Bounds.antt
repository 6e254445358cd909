-- ===== src/Collect/FileSystem/Bounds.antt =====
-- The collector of files opens no file twice and no more than its limit.
use dtp_discovery_agent.Common.{ℕ, String, List, [], ◌∷◌, arith, refl}
use dtp_discovery_agent.Collect.Run.{RunCap}
use dtp_discovery_agent.Collect.Walk.{FsState, WalkBounds}
use dtp_discovery_agent.Collect.Walk.Bounds.{IsBounded, walk_roots-IsBounded}
use dtp_discovery_agent.Collect.FileSystem.{
  FsBounds, with_defaults, source_file, FsHost, report_contents, is_candidate, sweep_roots, collect,
}

module _ (h : FsHost) where
  sweep_roots-IsBounded :
      (b : WalkBounds) (roots : List String) (s : FsState)
      → IsBounded b.max_files s
      → IsBounded b.max_files (sweep_roots h b roots s)
  unfolding sweep_roots
  sweep_roots-IsBounded b [] s k = k
  sweep_roots-IsBounded b (root ∷ roots) s k =
      sweep_roots-IsBounded b roots _
        (walk_roots-IsBounded h.walk source_file b (is_candidate h) (report_contents h) _ s k)

  -- However the roots overlap and whatever the file system holds, the collector of files opens no
  -- file twice, by its absolute path, and opens no more files than max_files; the files it opened
  -- are those it marked as examined.
  pub collect-IsBounded :
      (bounds : FsBounds) (polls : ℕ) (limit : RunCap)
      → IsBounded (with_defaults h.windows bounds).bounds.max_files (collect h bounds polls limit)
  unfolding collect
  collect-IsBounded bounds polls limit =
      let b = with_defaults h.windows bounds in
      sweep_roots-IsBounded b.bounds b.roots _ (record {
        distinct = tt;
        bounded = omega arith;
        marked = refl;
        counted = omega arith;
        within = omega arith;
      })
