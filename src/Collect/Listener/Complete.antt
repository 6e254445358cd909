-- ===== src/Collect/Listener/Complete.antt =====
-- What a complete result of the probe of the listeners vouches for.
use dtp_discovery_agent.Common.{
  ℕ, suc, ◌≡◌, refl, ap, inl, inr, Bool, true, false, Option, none, some, List, [], ◌∷◌, map, ltb,
  length, take, if◌then◌else◌, Bool-cases, All,
}
use dtp_discovery_agent.Collect.Result.{start}
use dtp_discovery_agent.Collect.Run.{RunCap}
use dtp_discovery_agent.Collect.Run.Sweep.{begin}
use dtp_discovery_agent.Collect.Sockets.{Socket, SocketError, listening_sockets, dedupe}
use dtp_discovery_agent.Collect.ServerConfig.{
  Collecting, clear_completed, observe_all, add_problems,
}
use dtp_discovery_agent.Collect.ServerConfig.Sees.{IsComplete, Sweep-IsComplete}
use dtp_discovery_agent.Collect.Listener.{
  ListenerBounds, SettledBounds, with_defaults, ListenerHost, probe_target, source_listener,
  started, take_outcomes, probe_all, enumerated, targets, probe_first, collect_targets, collect,
  too_many,
}
use dtp_discovery_agent.Collect.Listener.Probes.{IsProbed, probe_target-IsProbed}
use dtp_discovery_agent.Collect.Listener.Heard.{IsHeard, All-IsHeard}
use dtp_discovery_agent.Collect.Listener.Sweeping.{
  take_outcomes-Swept, probe_all-Swept, probe_first-Swept,
}

not_cleared :
    (c : Bool) (s : Collecting) → IsComplete (if c then clear_completed s else s).result → c ≡ false
unfolding clear_completed
not_cleared true s k = absurd cc
not_cleared false s k = refl

module _ (h : ListenerHost) where
  take_outcomes-IsProbed :
      (b : SettledBounds) (ts : List Socket) (s : Collecting)
      → IsComplete (take_outcomes h (map (λ t. probe_target h b t) ts) s).result
      → All (IsProbed h b) ts
  unfolding take_outcomes
  take_outcomes-IsProbed b [] s c = tt
  take_outcomes-IsProbed b (t ∷ ts) s c =
      let out = probe_target h b t in
      let s' = add_problems out.errs (observe_all out.observations s) in
      let next = if out.incomplete then clear_completed s' else s' in
      let swept =
        take_outcomes-Swept next.result next.limit h (map (λ u. probe_target h b u) ts) next
          begin in
      (
        probe_target-IsProbed h b t (not_cleared out.incomplete s' (Sweep-IsComplete swept c)),
        take_outcomes-IsProbed b ts next c,
      )

  started_all :
      (polls : ℕ) (ts : List Socket) → (started h polls ts).1 ≡ false → (started h polls ts).0 ≡ ts
  unfolding started
  started_all polls [] e = refl
  started_all polls (t ∷ ts) e = elim (Bool-cases (h.world.cancelled polls)) [
    | inl q ↦ absurd (let f : true ≡ false = rw (started, q) at e in cc)
    | inr q ↦ rw (started, q) (ap (λ r. t ∷ r) (started_all (suc polls) ts (rw (started, q) at e)))
  ]

  probe_all-IsProbed :
      (b : SettledBounds) (polls : ℕ) (ts : List Socket) (s : Collecting)
      → IsComplete (probe_all h b polls ts s).result
      → All (IsProbed h b) ts
  unfolding probe_all
  probe_all-IsProbed b polls ts s c =
      let (some_targets, ended) = started h polls ts in
      let next = if ended then clear_completed s else s in
      let outs = map (λ t. probe_target h b t) some_targets in
      let begun =
        Sweep-IsComplete (take_outcomes-Swept next.result next.limit h outs next begin) c in
      let all = started_all polls ts (not_cleared ended s begun) in
      rw all at (take_outcomes-IsProbed b some_targets next c)

  probe_first-IsProbed :
      (b : SettledBounds) (polls : ℕ) (ts : List Socket) (s : Collecting)
      → IsComplete (probe_first h b polls ts s).result
      → All (IsProbed h b) ts
  unfolding probe_first
  probe_first-IsProbed b polls ts s c = elim (Bool-cases (ltb b.max_probes (length ts))) [
    | inl e ↦
        let cut : Collecting = record s { result = too_many h b s.result } in
        let d : IsComplete (probe_all h b polls (take b.max_probes ts) cut).result =
          rw (probe_first, e) at c in
        let f : false ≡ true =
          Sweep-IsComplete
            (probe_all-Swept cut.result cut.limit h b polls (take b.max_probes ts) cut begin) d in
        absurd cc
    | inr e ↦ probe_all-IsProbed b polls ts s (rw (probe_first, e) at c)
  ]

  collect_targets-IsProbed :
      (b : SettledBounds) (polls : ℕ) (x : List Socket × Bool × Collecting)
      → IsComplete (collect_targets h b polls x).result
      → (x.1 ≡ true) × All (IsProbed h b) x.0
  unfolding collect_targets clear_completed
  collect_targets-IsProbed b polls (ts, true, s) c = (refl, probe_first-IsProbed b polls ts s c)
  collect_targets-IsProbed b polls (ts, false, s) c =
      let cleared = clear_completed s in
      let f : false ≡ true =
        Sweep-IsComplete (probe_first-Swept cleared.result cleared.limit h b polls ts cleared begin)
          c in
      absurd cc

  -- the sockets of the host, read without an error
  abbrev pub IsWhole : List ℕ → (SettledBounds → Socket → Type 0) → SettledBounds → Type 0
  IsWhole ports P b =
      (ports ≡ [])
      × ((listening_sockets h.net h.system).1 ≡ none)
      × All (P b) (dedupe h.net (listening_sockets h.net h.system).0)

  enumerated-IsWhole :
      (x : List Socket × Option SocketError) (s : Collecting) (P : Socket → Type 0)
      → (enumerated h x s).1 ≡ true
      → All P (enumerated h x s).0
      → (x.1 ≡ none) × All P (dedupe h.net x.0)
  enumerated-IsWhole (sockets, none) s P e a = (refl, a)
  enumerated-IsWhole (sockets, some x) s P e a = absurd cc

  targets-IsWhole :
      (b : SettledBounds) (ports : List ℕ) (s : Collecting)
      → (targets h ports s).1 ≡ true
      → All (IsProbed h b) (targets h ports s).0
      → IsWhole ports (IsProbed h) b
  unfolding targets
  targets-IsWhole b [] s e a =
      let (whole, probed) =
        enumerated-IsWhole (listening_sockets h.net h.system) s (IsProbed h b) e a in
      (refl, whole, probed)
  targets-IsWhole b (p ∷ ports) s e a = absurd cc

  -- A result that the probe of the listeners calls complete vouches for all of them: no list of
  -- ports was given, the host's own socket table was read without an error, and of each socket that
  -- dedupe leaves of it either there was no TLS to be had without a name, or without one and with
  -- each of the names there was none to be had or a certificate was shown whose fingerprint is among
  -- those of the socket's observations. No TLS to be had means that the connection failed with
  -- anything but a timeout; or that it was made, no certificate was shown, and the handshake ended
  -- well, or not a byte came back, or it failed within its time on a first record that is no TLS.
  pub collect-IsWhole :
      (bounds : ListenerBounds) (polls : ℕ) (limit : RunCap)
      → (collect h bounds polls limit).result.completed ≡ true
      → IsWhole bounds.ports (IsHeard h) (with_defaults bounds)
  unfolding collect with_defaults
  collect-IsWhole bounds polls limit c =
      let b = with_defaults bounds in
      let s : Collecting = record {
        result = start source_listener;
        limit = limit;
        polls = polls;
      } in
      let (e, a) = collect_targets-IsProbed b polls (targets h b.ports s) c in
      let (own, read, probed) = targets-IsWhole b b.ports s e a in
      (own, read, All-IsHeard h b _ probed)
