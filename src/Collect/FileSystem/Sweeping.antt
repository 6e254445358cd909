-- ===== src/Collect/FileSystem/Sweeping.antt =====
-- The collector of files acts on its result and on the run's cap only as a sweep may.
use dtp_discovery_agent.Common.{ℕ, String, Option, none, some, List, [], ◌∷◌}
use dtp_discovery_agent.Parse.Pem.{PemResult}
use dtp_discovery_agent.Collect.Result.{Result, start}
use dtp_discovery_agent.Collect.Run.{RunCap}
use dtp_discovery_agent.Collect.Run.Sweep.{begin, IsSweeping}
use dtp_discovery_agent.Collect.Config.Reader.{FileInfo}
use dtp_discovery_agent.Collect.ServerConfig.{Collecting}
use dtp_discovery_agent.Collect.ServerConfig.Sweeping.{
  Swept, note_shortfall-Sweep, observe_all-Swept,
}
use dtp_discovery_agent.Collect.Walk.{FsState, WalkBounds}
use dtp_discovery_agent.Collect.Walk.Keeping.{walk_roots-Walked}
use dtp_discovery_agent.Collect.FileSystem.{
  FsBounds, with_defaults, source_file, FsHost, report_file, report_parsed, report_contents,
  parse_file, is_candidate, sweep_roots, collect, sweeper,
}

module _ (r0 : Result) (l0 : RunCap) (h : FsHost) where
  report_file-Swept :
      (path : String) (info : FileInfo) (key_path : String) (ps : List ℕ) (s : Collecting)
      → Swept r0 l0 s
      → Swept r0 l0 (report_file h path info key_path ps s)
  unfolding report_file
  report_file-Swept path info key_path [] s k = k
  report_file-Swept path info key_path (p ∷ ps) s k =
      observe_all-Swept r0 l0 _ _ (note_shortfall-Sweep r0 l0 source_file path _ s.result s.limit k)

  report_parsed-Swept :
      (path : String) (info : FileInfo) (parsed : Option PemResult) (s : Collecting)
      → Swept r0 l0 s
      → Swept r0 l0 (report_parsed h path info parsed s)
  report_parsed-Swept path info none s k = k
  report_parsed-Swept path info (some parsed) s k = report_file-Swept path info _ _ s k

  report_contents-Swept :
      (path : String) (info : FileInfo) (contents : String) (s : Collecting)
      → Swept r0 l0 s
      → Swept r0 l0 (report_contents h path info contents s)
  report_contents-Swept path info contents s k =
      report_parsed-Swept path info (parse_file h path contents) s k

  sweep_roots-Swept :
      (b : WalkBounds) (roots : List String) (s : FsState)
      → Swept r0 l0 s.work
      → Swept r0 l0 (sweep_roots h b roots s).work
  unfolding sweep_roots
  sweep_roots-Swept b [] s k = k
  sweep_roots-Swept b (root ∷ roots) s k = sweep_roots-Swept b roots _ (
      walk_roots-Walked r0 l0 h.walk source_file b (is_candidate h) (report_contents h)
        report_contents-Swept _ s k)

-- Whatever the file system holds, the collector of files acts on its result and the run's cap only by
-- recording through observe, reporting errors and giving up its claim to be complete.
pub walk-IsSweeping :
    (h : FsHost) (bounds : FsBounds) (polls : ℕ) → IsSweeping (sweeper h bounds polls)
unfolding collect
walk-IsSweeping h bounds polls = λ earlier limit.
    let b = with_defaults h.windows bounds in
    sweep_roots-Swept (start source_file) limit h b.bounds b.roots _ begin
