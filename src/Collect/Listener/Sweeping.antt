-- ===== src/Collect/Listener/Sweeping.antt =====
-- The probe of the listeners acts on its result and on the run's cap only as a sweep may.
use dtp_discovery_agent.Common.{
  ℕ, Bool, true, false, Option, none, some, List, [], ◌∷◌, inl, inr, ltb, length, take,
  if◌then◌else◌, Bool-cases,
}
use dtp_discovery_agent.Collect.Result.{Result, start}
use dtp_discovery_agent.Collect.Run.{RunCap}
use dtp_discovery_agent.Collect.Run.Sweep.{begin, say, give_up, IsSweeping}
use dtp_discovery_agent.Collect.Sockets.{Socket, SocketError, listening_sockets}
use dtp_discovery_agent.Collect.ServerConfig.{Collecting, clear_completed}
use dtp_discovery_agent.Collect.ServerConfig.Sweeping.{
  Swept, clear_completed-Swept, observe_all-Swept, add_problems-Swept,
}
use dtp_discovery_agent.Collect.Listener.{
  ListenerBounds, SettledBounds, with_defaults, ListenerHost, ProbeOutcome, inform, source_listener,
  started, take_outcomes, probe_all, enumerated, targets, probe_first, collect_targets, collect,
  sweeper,
}

module _ (r0 : Result) (l0 : RunCap) (h : ListenerHost) where
  pub cleared_if-Swept :
      (c : Bool) (s : Collecting) → Swept r0 l0 s → Swept r0 l0 (if c then clear_completed s else s)
  cleared_if-Swept true s k = clear_completed-Swept r0 l0 s k
  cleared_if-Swept false s k = k

  pub take_outcomes-Swept :
      (outs : List ProbeOutcome) (s : Collecting)
      → Swept r0 l0 s
      → Swept r0 l0 (take_outcomes h outs s)
  unfolding take_outcomes
  take_outcomes-Swept [] s k = k
  take_outcomes-Swept (out ∷ outs) s k = take_outcomes-Swept outs _ (
      cleared_if-Swept out.incomplete _
        (add_problems-Swept r0 l0 out.errs _ (observe_all-Swept r0 l0 out.observations s k)))

  pub probe_all-Swept :
      (b : SettledBounds) (polls : ℕ) (ts : List Socket) (s : Collecting)
      → Swept r0 l0 s
      → Swept r0 l0 (probe_all h b polls ts s)
  unfolding probe_all
  probe_all-Swept b polls ts s k =
      take_outcomes-Swept _ _ (cleared_if-Swept (started h polls ts).1 s k)

  pub probe_first-Swept :
      (b : SettledBounds) (polls : ℕ) (ts : List Socket) (s : Collecting)
      → Swept r0 l0 s
      → Swept r0 l0 (probe_first h b polls ts s)
  unfolding probe_first
  probe_first-Swept b polls ts s k = elim (Bool-cases (ltb b.max_probes (length ts))) [
    | inl e ↦
        rw (probe_first, e) (probe_all-Swept b polls (take b.max_probes ts) _ (say (give_up k) _))
    | inr e ↦ rw (probe_first, e) (probe_all-Swept b polls ts s k)
  ]

  collect_targets-Swept :
      (b : SettledBounds) (polls : ℕ) (x : List Socket × Bool × Collecting)
      → Swept r0 l0 x.2
      → Swept r0 l0 (collect_targets h b polls x)
  unfolding collect_targets
  collect_targets-Swept b polls (ts, true, s) k = probe_first-Swept b polls ts s k
  collect_targets-Swept b polls (ts, false, s) k =
      probe_first-Swept b polls ts _ (clear_completed-Swept r0 l0 s k)

  enumerated-Swept :
      (x : List Socket × Option SocketError) (s : Collecting)
      → Swept r0 l0 s
      → Swept r0 l0 (enumerated h x s).2
  enumerated-Swept (sockets, none) s k = k
  enumerated-Swept (sockets, some e) s k = say k _

  targets-Swept :
      (ports : List ℕ) (s : Collecting) → Swept r0 l0 s → Swept r0 l0 (targets h ports s).2
  unfolding targets
  targets-Swept [] s k = enumerated-Swept (listening_sockets h.net h.system) s k
  targets-Swept (p ∷ ports) s k = k

-- Whatever the network answers, the probe of the listeners, informed of the names that earlier
-- collectors found, acts on its result and the run's cap only by recording through observe, reporting
-- errors and giving up its claim to be complete.
pub inform-IsSweeping :
    (h : ListenerHost) (bounds : ListenerBounds) (polls : ℕ) → IsSweeping (sweeper h bounds polls)
unfolding collect
inform-IsSweeping h bounds polls = λ earlier limit.
    let b = with_defaults (inform earlier bounds) in
    collect_targets-Swept (start source_listener) limit h b polls _
      (targets-Swept (start source_listener) limit h b.ports _ begin)
