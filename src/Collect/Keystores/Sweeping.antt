-- ===== src/Collect/Keystores/Sweeping.antt =====
-- The collector of keystores acts on its result and on the run's cap only as a sweep may.
use dtp_discovery_agent.Common.{
  ℕ, suc, String, Option, none, some, List, [], ◌∷◌, map, inl, inr, Bool-cases,
}
use dtp_discovery_agent.Parse.Chain.{Shortfall, verify_budget, no_shortfall, new_store, leaves}
use dtp_discovery_agent.Parse.Keystore.{KeystoreError, KeystoreEntry}
use dtp_discovery_agent.Collect.Result.{Observation, Result, start}
use dtp_discovery_agent.Collect.Run.{RunCap}
use dtp_discovery_agent.Collect.Run.Sweep.{begin, say, give_up, IsSweeping}
use dtp_discovery_agent.Collect.Config.Reader.{FileInfo}
use dtp_discovery_agent.Collect.ServerConfig.{Collecting, observe_one}
use dtp_discovery_agent.Collect.ServerConfig.Sweeping.{
  Swept, note_shortfall-Sweep, clear_completed-Swept, observe_one-Swept,
}
use dtp_discovery_agent.Collect.Walk.{FsState, WalkBounds, give_up_all}
use dtp_discovery_agent.Collect.Walk.Keeping.{walk_roots-Walked}
use dtp_discovery_agent.Collect.Keystores.{
  KeystoreBounds, with_defaults, source_java_keystore, KeystoreHost, looks_like_keystore, Reading,
  foreign, reading, read_keystore, observe_while, finish, keystore_observation, entry_findings,
  report_entries, note_damage, report_reading, report_keystore, sweep_roots, collect, sweeper,
}

module _ (r0 : Result) (l0 : RunCap) where
  finish-Swept :
      (path : String) (short : Shortfall) (s : Collecting)
      → Swept r0 l0 s
      → Swept r0 l0 (finish path short s)
  unfolding finish
  finish-Swept path short s k =
      note_shortfall-Sweep r0 l0 source_java_keystore path short s.result s.limit k

  observe_while-Swept :
      (os : List Observation) (s : Collecting) → Swept r0 l0 s → Swept r0 l0 (observe_while os s).1
  unfolding observe_while
  observe_while-Swept [] s k = k
  observe_while-Swept (o ∷ os) s k =
      let k' = observe_one-Swept r0 l0 o s k in
      elim (Bool-cases (observe_one o s).0) [
        | inl e ↦ rw (observe_while, e) (observe_while-Swept os _ k')
        | inr e ↦ rw (observe_while, e) k'
      ]

  module _ (h : KeystoreHost) where
    report_entries-Swept :
        (path format : String) (info : FileInfo) (entries : List (KeystoreEntry ℕ)) (left : ℕ)
        (short : Shortfall) (s : Collecting)
        → Swept r0 l0 s
        → Swept r0 l0 (report_entries h path format info left short entries s)
    unfolding report_entries
    report_entries-Swept path format info [] left short s k = finish-Swept path short s k
    report_entries-Swept path format info (entry ∷ entries) left short s k =
        let store =
          new_store h.walk.world (h.now s.polls) left (suc s.polls)
            (map (λ p. some p) entry.certificates) [] in
        let (found, work, sum) = entry_findings h entry store (leaves h.walk.world store) short in
        let os =
          map (λ f. keystore_observation h path format entry info (h.now work.polls) f) found in
        let looked : Collecting = record s { polls = work.polls } in
        let k' = observe_while-Swept os looked k in
        elim (Bool-cases (h.walk.world.cancelled s.polls)) [
          | inl e ↦
              rw (report_entries, e)
                (finish-Swept path short _
                  (clear_completed-Swept r0 l0 (record s { polls = suc s.polls }) k))
          | inr e ↦ elim (Bool-cases (observe_while os looked).0) [
            | inl q ↦
                rw (report_entries, e, q)
                  (report_entries-Swept path format info entries work.left sum
                    (observe_while os looked).1 k')
            | inr q ↦
                rw (report_entries, e, q) (finish-Swept path sum (observe_while os looked).1 k')
          ]
        ]

    note_damage-Swept :
        (path : String) (err : Option KeystoreError) (s : Collecting)
        → Swept r0 l0 s
        → Swept r0 l0 (note_damage h path err s)
    note_damage-Swept path none s k = k
    note_damage-Swept path (some e) s k = say (give_up k) _

    report_reading-Swept :
        (path : String) (info : FileInfo) (x : Reading) (s : Collecting)
        → Swept r0 l0 s
        → Swept r0 l0 (report_reading h path info x s)
    report_reading-Swept path info foreign s k = k
    report_reading-Swept path info (reading entries format err) s k =
        report_entries-Swept path format info entries verify_budget no_shortfall _
          (note_damage-Swept path err s k)

    report_keystore-Swept :
        (path : String) (info : FileInfo) (contents : String) (s : Collecting)
        → Swept r0 l0 s
        → Swept r0 l0 (report_keystore h path info contents s)
    report_keystore-Swept path info contents s k =
        report_reading-Swept path info (read_keystore h contents) s k

    sweep_roots-Swept :
        (b : WalkBounds) (roots : List String) (s : FsState)
        → Swept r0 l0 s.work
        → Swept r0 l0 (sweep_roots h b roots s).work
    unfolding sweep_roots give_up_all
    sweep_roots-Swept b [] s k = k
    sweep_roots-Swept b (root ∷ roots) s k =
        let asked : FsState = record s { work = record s.work { polls = suc s.work.polls } } in
        elim (Bool-cases (h.walk.world.cancelled s.work.polls)) [
          | inl e ↦ rw (sweep_roots, e) (clear_completed-Swept r0 l0 asked.work k)
          | inr e ↦
              rw (sweep_roots, e)
                (sweep_roots-Swept b roots _ (
                  walk_roots-Walked r0 l0 h.walk source_java_keystore b (looks_like_keystore h)
                    (report_keystore h) report_keystore-Swept _ asked k))
        ]

-- Whatever the keystores of a host hold, their collector acts on its result and the run's cap only by
-- recording through observe, reporting errors and giving up its claim to be complete.
pub keystores-IsSweeping :
    (h : KeystoreHost) (bounds : KeystoreBounds) (polls : ℕ) → IsSweeping (sweeper h bounds polls)
unfolding collect
keystores-IsSweeping h bounds polls = λ earlier limit.
    let b = with_defaults h.platform bounds in
    sweep_roots-Swept (start source_java_keystore) limit h b.bounds _ _ begin
