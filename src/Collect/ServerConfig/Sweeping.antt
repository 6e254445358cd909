-- ===== src/Collect/ServerConfig/Sweeping.antt =====
-- The collector acts on its result and on the run's cap only as a sweep may.
use dtp_discovery_agent.Common.{
  ℕ, String, Bool, true, false, ◌||◌, List, [], ◌∷◌, ◌⊎◌, inl, inr, if◌then◌else◌, Bool-cases,
  Sum-cases,
}
use dtp_discovery_agent.Parse.Chain.{Shortfall}
use dtp_discovery_agent.Collect.Result.{
  Observation, Error, Message, Result, start, incomplete, note_shortfall, note_truncated,
  note_shortened,
}
use dtp_discovery_agent.Collect.Run.{RunCap}
use dtp_discovery_agent.Collect.Run.Sweep.{Sweep, begin, see, say, give_up, IsSweeping}
use dtp_discovery_agent.Collect.Config.References.{CertificateRef, Vhost}
use dtp_discovery_agent.Collect.Config.Reader.{OsError, ConfigReader, source_server_config}
use dtp_discovery_agent.Collect.Apache.{parse_apache}
use dtp_discovery_agent.Collect.ServerConfig.{
  ServerConfigBounds, Settled, Collecting, ServerHost, add_problem, clear_completed, observe_one,
  record_served, record_parsed, note_unread, record_ref, record_refs, record_hosts, take_problems,
  Parser, take_sites, read_config, read_configs, observe_all, add_problems, collect_iis,
  collect_apache, collect, sweeper,
}

module _ (r0 : Result) (l0 : RunCap) where
  -- What is collected came about by a sweep.
  abbrev pub Swept : Collecting → Type 0
  Swept s = Sweep r0 l0 s.result s.limit

  pub note_shortfall-Sweep :
      (source place : String) (short : Shortfall) (r : Result) (l : RunCap)
      → Sweep r0 l0 r l
      → Sweep r0 l0 (note_shortfall source place short r) l
  unfolding note_shortfall note_truncated note_shortened
  note_shortfall-Sweep source place short r l h =
      let stopped : Sweep r0 l0 (if short.interrupted then incomplete r else r) l =
        elim (Bool-cases short.interrupted) [ inl e ↦ rw e (give_up h) | inr e ↦ rw e h ] in
      let cut : Sweep r0 l0
          (note_truncated source place short (if short.interrupted then incomplete r else r)) l =
        elim (Bool-cases short.truncated) [
          | inl e ↦ rw (note_truncated, e) (say (give_up stopped) _)
          | inr e ↦ rw (note_truncated, e) stopped
        ] in
      elim (Bool-cases (short.out_of_budget || short.too_deep)) [
        | inl e ↦ rw (note_shortened, e) (say cut _)
        | inr e ↦ rw (note_shortened, e) cut
      ]

  add_problem-Swept :
      (place : String) (e : Message) (s : Collecting) → Swept s → Swept (add_problem place e s)
  unfolding add_problem
  add_problem-Swept place e s h = say h _

  pub clear_completed-Swept : (s : Collecting) → Swept s → Swept (clear_completed s)
  unfolding clear_completed
  clear_completed-Swept s h = give_up h

  pub observe_one-Swept : (o : Observation) (s : Collecting) → Swept s → Swept (observe_one o s).1
  unfolding observe_one
  observe_one-Swept o s h = see h o

  pub observe_all-Swept :
      (os : List Observation) (s : Collecting) → Swept s → Swept (observe_all os s)
  unfolding observe_all
  observe_all-Swept [] s h = h
  observe_all-Swept (o ∷ os) s h =
      let k = observe_one-Swept o s h in
      elim (Bool-cases (observe_one o s).0) [
        | inl e ↦ rw (observe_all, e) (observe_all-Swept os _ k)
        | inr e ↦ rw (observe_all, e) k
      ]

  pub add_problems-Swept : (es : List Error) (s : Collecting) → Swept s → Swept (add_problems es s)
  unfolding add_problems
  add_problems-Swept [] s h = h
  add_problems-Swept (e ∷ es) s h = add_problems-Swept es _ (say h e)

  pub take_problems-Swept :
      (es : List Error) (s : Collecting) → Swept s → Swept (take_problems es s)
  unfolding take_problems
  take_problems-Swept [] s h = h
  take_problems-Swept (e ∷ es) s h = take_problems-Swept es _ (say (give_up h) e)

  pub collect_iis-Swept :
      (x : List Observation × List Error × Bool) (s : Collecting)
      → Swept s
      → Swept (collect_iis x s)
  unfolding collect_iis
  collect_iis-Swept (os, problems, complete) s h =
      let k = add_problems-Swept problems _ (observe_all-Swept os s h) in
      elim (Bool-cases complete) [
        | inl e ↦ rw (collect_iis, e) k
        | inr e ↦ rw (collect_iis, e) (clear_completed-Swept _ k)
      ]

  module _ (w : ServerHost) where
    record_parsed-Swept :
        (host : Vhost) (ref : CertificateRef) (ps : List ℕ) (had_key : Bool) (s : Collecting)
        → Swept s
        → Swept (record_parsed w host ref ps had_key s).1
    unfolding record_parsed record_served
    record_parsed-Swept host ref [] had_key s h = add_problem-Swept _ _ s h
    record_parsed-Swept host ref (p ∷ ps) had_key s h =
        observe_one-Swept _ _
          (note_shortfall-Sweep source_server_config ref.certificate _ s.result s.limit h)

    note_unread-Swept :
        (host : Vhost) (ref : CertificateRef) (e : OsError) (s : Collecting)
        → Swept s
        → Swept (note_unread host ref e s)
    unfolding note_unread
    note_unread-Swept host ref e s h = add_problem-Swept _ _ _ (elim (Bool-cases e.is_not_exist) [
      | inl q ↦ rw q h
      | inr q ↦ rw q (clear_completed-Swept s h)
    ])

    pub record_ref-Swept :
        (host : Vhost) (ref : CertificateRef) (s : Collecting)
        → Swept s
        → Swept (record_ref w host ref s).1
    unfolding record_ref
    record_ref-Swept host ref s h = elim (Sum-cases (w.files.read_file ref.certificate)) [
      | inl (e, q) ↦ rw (record_ref, q) (note_unread-Swept host ref e s h)
      | inr (contents, q) ↦ rw (record_ref, q) (record_parsed-Swept host ref _ _ s h)
    ]

    pub record_refs-Swept :
        (host : Vhost) (refs : List CertificateRef) (s : Collecting)
        → Swept s
        → Swept (record_refs w host refs s)
    unfolding record_refs
    record_refs-Swept host [] s h = h
    record_refs-Swept host (ref ∷ refs) s h =
        let k = record_ref-Swept host ref s h in
        elim (Bool-cases (record_ref w host ref s).0) [
          | inl e ↦ rw (record_refs, e) (record_refs-Swept host refs _ k)
          | inr e ↦ rw (record_refs, e) k
        ]

    pub record_hosts-Swept :
        (hosts : List Vhost) (s : Collecting) → Swept s → Swept (record_hosts w hosts s)
    unfolding record_hosts
    record_hosts-Swept [] s h = h
    record_hosts-Swept (host ∷ hosts) s h =
        record_hosts-Swept hosts _ (record_refs-Swept host host.certs s h)

    pub take_sites-Swept :
        (path : String) (x : (Message ⊎ List Vhost) × ConfigReader) (s : Collecting)
        → Swept s
        → Swept (take_sites w path x s)
    unfolding take_sites
    take_sites-Swept path (inl e, r) s h = add_problem-Swept path e _ (clear_completed-Swept s h)
    take_sites-Swept path (inr hosts, r) s h =
        record_hosts-Swept hosts _ (take_problems-Swept r.problems s h)

    pub read_config-Swept :
        (parse : Parser) (path : String) (s : Collecting)
        → Swept s
        → Swept (read_config w parse path s)
    unfolding read_config
    read_config-Swept parse path s h = elim (Sum-cases (w.files.stat path)) [
      | inl (e, q) ↦ rw (read_config, q) h
      | inr (info, q) ↦ rw (read_config, q) (take_sites-Swept path _ s h)
    ]

    pub read_configs-Swept :
        (parse : Parser) (paths : List String) (s : Collecting)
        → Swept s
        → Swept (read_configs w parse paths s).1
    unfolding read_configs
    read_configs-Swept parse [] s h = h
    read_configs-Swept parse (path ∷ paths) s h = elim (Bool-cases (w.world.cancelled s.polls)) [
      | inl e ↦ rw (read_configs, e) (clear_completed-Swept _ h)
      | inr e ↦
          rw (read_configs, e) (read_configs-Swept parse paths _ (read_config-Swept parse path _ h))
    ]

    pub collect_apache-Swept :
        (b : Settled) (x : Bool × Collecting) → Swept x.1 → Swept (collect_apache w b x)
    unfolding collect_apache
    collect_apache-Swept b (false, s) h = h
    collect_apache-Swept b (true, s) h =
        let parse = parse_apache w.path_unescape w.files b.bounds in
        let k = read_configs-Swept parse b.apache_configs s h in
        elim (Bool-cases (read_configs w parse b.apache_configs s).0) [
          | inl e ↦ rw (collect_apache, e) (collect_iis-Swept w.iis_observations _ k)
          | inr e ↦ rw (collect_apache, e) k
        ]

-- On every host and whatever its configurations hold, the collector of server configurations acts on
-- its result and the run's cap only by recording through observe, reporting errors and giving up its
-- claim to be complete, so that what is proved of runs over such collectors holds with it.
pub sweeper-IsSweeping :
    (w : ServerHost) (bounds : ServerConfigBounds) (polls : ℕ) → IsSweeping (sweeper w bounds polls)
unfolding collect
sweeper-IsSweeping w bounds polls = λ earlier limit.
    collect_apache-Swept (start source_server_config) limit w _ _
      (read_configs-Swept (start source_server_config) limit w _ _ _ begin)
