-- ===== src/Collect/ServerConfig/Sees.antt =====
-- What a complete result of the collector of server configurations vouches for.
use dtp_discovery_agent.Common.{
  ℕ, suc, String, ◌≡◌, refl, Bool, true, false, ◌&&◌, List, [], ◌∷◌, ◌⊎◌, inl, inr, arith,
  Bool-cases, Sum-cases, All,
}
use dtp_discovery_agent.Parse.Pem.{certificates}
use dtp_discovery_agent.Collect.Result.{
  Observation, Error, Message, Result, start, incomplete, add_error,
}
use dtp_discovery_agent.Collect.Run.{RunCap, observe_within}
use dtp_discovery_agent.Collect.Run.Sweep.{Sweep, begin, see, say, give_up}
use dtp_discovery_agent.Collect.Config.References.{CertificateRef, Vhost}
use dtp_discovery_agent.Collect.Config.Reader.{
  OsError, ConfigReader, source_server_config, new_config_reader,
}
use dtp_discovery_agent.Collect.Nginx.{parse_nginx}
use dtp_discovery_agent.Collect.Apache.{parse_apache}
use dtp_discovery_agent.Collect.ServerConfig.{
  ServerConfigBounds, Settled, with_defaults, Collecting, ServerHost, add_problem, clear_completed,
  observe_one, record_served, record_parsed, note_unread, record_ref, record_refs, record_hosts,
  take_problems, Parser, take_sites, read_config, read_configs, collect_iis, collect_apache,
  collect,
}
use dtp_discovery_agent.Collect.ServerConfig.Sweeping.{
  note_shortfall-Sweep, take_problems-Swept, record_ref-Swept, record_refs-Swept,
  record_hosts-Swept, read_config-Swept, read_configs-Swept, collect_iis-Swept,
  collect_apache-Swept,
}

-- A result that a limit cut is not complete.
abbrev IsHonest : Result → Type 0
IsHonest r = (r.capped && r.completed) ≡ false

abbrev pub IsComplete : Result → Type 0
IsComplete r = r.completed ≡ true

observe_within-IsHonest :
    (o : Observation) (r : Result) (l : RunCap) → IsHonest r → IsHonest (observe_within o r l).1
unfolding observe_within
observe_within-IsHonest o r l h = ground arith

observe_within_refused :
    (o : Observation) (r : Result) (l : RunCap)
    → IsHonest r
    → (observe_within o r l).0 ≡ false
    → (observe_within o r l).1.completed ≡ false
unfolding observe_within
observe_within_refused o r l h e = ground arith

observe_within-IsComplete :
    (o : Observation) (r : Result) (l : RunCap) → IsComplete (observe_within o r l).1 → IsComplete r
unfolding observe_within
observe_within-IsComplete o r l h = ground arith

-- A sweep keeps a result honest, and never makes it complete again.
Sweep-IsHonest :
    {r : Result} {l : RunCap} {r' : Result} {l' : RunCap}
    → Sweep r l r' l'
    → IsHonest r
    → IsHonest r'
Sweep-IsHonest begin h = h
Sweep-IsHonest (see s o) h = observe_within-IsHonest o _ _ (Sweep-IsHonest s h)
Sweep-IsHonest (say s e) h = Sweep-IsHonest s h
Sweep-IsHonest (give_up s) h = ground arith

pub Sweep-IsComplete :
    {r : Result} {l : RunCap} {r' : Result} {l' : RunCap}
    → Sweep r l r' l'
    → IsComplete r'
    → IsComplete r
Sweep-IsComplete begin h = h
Sweep-IsComplete (see s o) h = Sweep-IsComplete s (observe_within-IsComplete o _ _ h)
Sweep-IsComplete (say s e) h = Sweep-IsComplete s h
Sweep-IsComplete (give_up s) h = absurd cc

-- The only certificate files that could not be read are those that are not there.
abbrev pub IsSeen : ServerHost → CertificateRef → Type 0
IsSeen w ref = (e : OsError) → w.files.read_file ref.certificate ≡ inl e → e.is_not_exist ≡ true

abbrev pub HasSeen : ServerHost → Vhost → Type 0
HasSeen w host = All (IsSeen w) host.certs

-- A main configuration on which os.Stat gave an error, whichever it was, or which was read with no
-- problem to sites whose certificates were seen.
abbrev pub IsRead : ServerHost → Parser → String → Type 0
IsRead w parse path =
    ((e : OsError) × (w.files.stat path ≡ inl e))
    ⊎ ((hosts : List Vhost) × (r : ConfigReader) × (parse path new_config_reader ≡ (inr hosts, r))
        × (r.problems ≡ [])
        × All (HasSeen w) hosts)

module _ (w : ServerHost) where
  record_parsed_refused :
      (host : Vhost) (ref : CertificateRef) (ps : List ℕ) (had_key : Bool) (s : Collecting)
      → IsHonest s.result
      → (record_parsed w host ref ps had_key s).0 ≡ false
      → (record_parsed w host ref ps had_key s).1.result.completed ≡ false
  unfolding record_parsed record_served observe_one
  record_parsed_refused host ref [] had_key s h e = absurd cc
  record_parsed_refused host ref (p ∷ ps) had_key s h e =
      observe_within_refused _ _ s.limit
        (Sweep-IsHonest
          (note_shortfall-Sweep s.result s.limit source_server_config ref.certificate _ s.result
            s.limit begin)
          h)
        e

  record_ref_refused :
      (host : Vhost) (ref : CertificateRef) (s : Collecting)
      → IsHonest s.result
      → (record_ref w host ref s).0 ≡ false
      → (record_ref w host ref s).1.result.completed ≡ false
  unfolding record_ref
  record_ref_refused host ref s h e = elim (Sum-cases (w.files.read_file ref.certificate)) [
    | inl (x, q) ↦ absurd (let f : true ≡ false = rw (record_ref, q) at e in cc)
    | inr (contents, q) ↦
        let f : (record_parsed w host ref (certificates w.codecs contents).certificates
              (certificates w.codecs contents).had_private_key s).0
            ≡ false =
          rw (record_ref, q) at e in
        rw (record_ref, q) (record_parsed_refused host ref _ _ s h f)
  ]

  note_unread-IsComplete :
      (host : Vhost) (ref : CertificateRef) (e : OsError) (s : Collecting)
      → IsComplete (note_unread host ref e s).result
      → e.is_not_exist ≡ true
  unfolding note_unread add_problem clear_completed
  note_unread-IsComplete host ref e s c = elim (Bool-cases e.is_not_exist) [
    | inl q ↦ q
    | inr q ↦ absurd (let f : false ≡ true = rw (note_unread, q) at c in cc)
  ]

  record_ref-IsSeen :
      (host : Vhost) (ref : CertificateRef) (s : Collecting)
      → IsComplete (record_ref w host ref s).1.result
      → IsSeen w ref
  unfolding record_ref
  record_ref-IsSeen host ref s c =
      λ e q. note_unread-IsComplete host ref e s (rw (record_ref, q) at c)

  record_refs-IsSeen :
      (host : Vhost) (refs : List CertificateRef) (s : Collecting)
      → IsHonest s.result
      → IsComplete (record_refs w host refs s).result
      → All (IsSeen w) refs
  unfolding record_refs
  record_refs-IsSeen host [] s h c = tt
  record_refs-IsSeen host (ref ∷ refs) s h c =
      let s' = (record_ref w host ref s).1 in
      let k = record_ref-Swept s.result s.limit w host ref s begin in
      elim (Bool-cases (record_ref w host ref s).0) [
        | inl e ↦
            let d : IsComplete (record_refs w host refs s').result = rw (record_refs, e) at c in
            (
              record_ref-IsSeen host ref s
                  (Sweep-IsComplete (record_refs-Swept s'.result s'.limit w host refs s' begin) d),
              record_refs-IsSeen host refs s' (Sweep-IsHonest k h) d,
            )
        | inr e ↦
            let d : IsComplete s'.result = rw (record_refs, e) at c in
            let f = record_ref_refused host ref s h e in absurd cc
      ]

  record_hosts-HasSeen :
      (hosts : List Vhost) (s : Collecting)
      → IsHonest s.result
      → IsComplete (record_hosts w hosts s).result
      → All (HasSeen w) hosts
  unfolding record_hosts
  record_hosts-HasSeen [] s h c = tt
  record_hosts-HasSeen (host ∷ hosts) s h c =
      let s' = record_refs w host host.certs s in
      let k = record_refs-Swept s.result s.limit w host host.certs s begin in
      (
        record_refs-IsSeen host host.certs s h
            (Sweep-IsComplete (record_hosts-Swept s'.result s'.limit w hosts s' begin) c),
        record_hosts-HasSeen hosts s' (Sweep-IsHonest k h) c,
      )

  take_problems-IsComplete :
      (es : List Error) (s : Collecting) → IsComplete (take_problems es s).result → es ≡ []
  unfolding take_problems
  take_problems-IsComplete [] s c = refl
  take_problems-IsComplete (e ∷ es) s c =
      let r = add_error e (incomplete s.result) in
      let f : false ≡ true =
        Sweep-IsComplete (take_problems-Swept r s.limit es (record s { result = r }) begin) c in
      absurd cc

  take_sites-IsRead :
      (path : String) (x : (Message ⊎ List Vhost) × ConfigReader) (s : Collecting)
      → IsHonest s.result
      → IsComplete (take_sites w path x s).result
      → (hosts : List Vhost) × (r : ConfigReader) × (x ≡ (inr hosts, r))
        × (r.problems ≡ [])
        × All (HasSeen w) hosts
  unfolding take_sites add_problem clear_completed
  take_sites-IsRead path (inl e, r) s h c = absurd cc
  take_sites-IsRead path (inr hosts, r) s h c =
      let s' = take_problems r.problems s in
      let k = take_problems-Swept s.result s.limit r.problems s begin in
      (
        hosts,
        r,
        refl,
        take_problems-IsComplete r.problems s
            (Sweep-IsComplete (record_hosts-Swept s'.result s'.limit w hosts s' begin) c),
        record_hosts-HasSeen hosts s' (Sweep-IsHonest k h) c,
      )

  read_config-IsRead :
      (parse : Parser) (path : String) (s : Collecting)
      → IsHonest s.result
      → IsComplete (read_config w parse path s).result
      → IsRead w parse path
  unfolding read_config
  read_config-IsRead parse path s h c = elim (Sum-cases (w.files.stat path)) [
    | inl (e, q) ↦ inl (e, q)
    | inr (info, q) ↦
        let d : IsComplete (take_sites w path (parse path new_config_reader) s).result =
          rw (read_config, q) at c in
        inr (take_sites-IsRead path (parse path new_config_reader) s h d)
  ]

  read_configs-IsRead :
      (parse : Parser) (paths : List String) (s : Collecting)
      → IsHonest s.result
      → IsComplete (read_configs w parse paths s).1.result
      → All (IsRead w parse) paths × ((read_configs w parse paths s).0 ≡ true)
  unfolding read_configs clear_completed
  read_configs-IsRead parse [] s h c = (tt, refl)
  read_configs-IsRead parse (path ∷ paths) s h c =
      let asked : Collecting = record s { polls = suc s.polls } in
      let s' = read_config w parse path asked in
      let k = read_config-Swept s.result s.limit w parse path asked begin in
      elim (Bool-cases (w.world.cancelled s.polls)) [
        | inl e ↦ absurd (let f : false ≡ true = rw (read_configs, e) at c in cc)
        | inr e ↦
            let d : IsComplete (read_configs w parse paths s').1.result =
              rw (read_configs, e) at c in
            let (rest, ended) = read_configs-IsRead parse paths s' (Sweep-IsHonest k h) d in
            let this =
              read_config-IsRead parse path asked h (
                Sweep-IsComplete (read_configs-Swept s'.result s'.limit w parse paths s' begin)
                  d) in
            rw (read_configs, e) ((this, rest), ended)
      ]

  collect_iis-IsComplete :
      (x : List Observation × List Error × Bool) (s : Collecting)
      → IsComplete (collect_iis x s).result
      → x.2 ≡ true
  unfolding collect_iis clear_completed
  collect_iis-IsComplete (os, problems, complete) s c = elim (Bool-cases complete) [
    | inl e ↦ e
    | inr e ↦ absurd (let f : false ≡ true = rw (collect_iis, e) at c in cc)
  ]

  collect_iis_before :
      (x : List Observation × List Error × Bool) (s : Collecting)
      → IsComplete (collect_iis x s).result
      → IsComplete s.result
  collect_iis_before x s c = Sweep-IsComplete (collect_iis-Swept s.result s.limit x s begin) c

  collect_apache-IsRead :
      (b : Settled) (x : Bool × Collecting)
      → IsHonest x.1.result
      → x.0 ≡ true
      → IsComplete (collect_apache w b x).result
      → All (IsRead w (parse_apache w.path_unescape w.files b.bounds)) b.apache_configs
        × (w.iis_observations.2 ≡ true)
  unfolding collect_apache
  collect_apache-IsRead b (false, s) h t c = absurd cc
  collect_apache-IsRead b (true, s) h t c =
      let parse = parse_apache w.path_unescape w.files b.bounds in
      let s' = (read_configs w parse b.apache_configs s).1 in
      elim (Bool-cases (read_configs w parse b.apache_configs s).0) [
        | inl e ↦
            let d : IsComplete (collect_iis w.iis_observations s').result =
              rw (collect_apache, e) at c in
            (
              (read_configs-IsRead parse b.apache_configs s h
                  (collect_iis_before w.iis_observations s' d)).0,
              collect_iis-IsComplete w.iis_observations s' d,
            )
        | inr e ↦
            let d : IsComplete s'.result = rw (collect_apache, e) at c in
            let own = (read_configs-IsRead parse b.apache_configs s h d).1 in absurd cc
      ]

  collect_apache_before :
      (b : Settled) (x : Bool × Collecting)
      → IsComplete (collect_apache w b x).result
      → IsComplete x.1.result
  collect_apache_before b x c =
      Sweep-IsComplete (collect_apache-Swept x.1.result x.1.limit w b x begin) c

  -- A result that the collector of server configurations calls complete vouches for all the
  -- configurations that os.Stat finds: for each of the main files, of nginx and of Apache, os.Stat
  -- gave an error, be it that the file is not there or that it may not be looked at, or the file was
  -- parsed without a problem, and every certificate file that its sites name either was read or is
  -- gone; and IIS told all it knows.
  pub collect-IsRead :
      (bounds : ServerConfigBounds) (polls : ℕ) (limit : RunCap)
      → (collect w bounds polls limit).result.completed ≡ true
      → All
          (IsRead w (parse_nginx w.path_unescape w.files (with_defaults w.windows bounds).bounds))
          (with_defaults w.windows bounds).nginx_configs
        × All
            (IsRead w
              (parse_apache w.path_unescape w.files (with_defaults w.windows bounds).bounds))
            (with_defaults w.windows bounds).apache_configs
        × (w.iis_observations.2 ≡ true)
  unfolding collect
  collect-IsRead bounds polls limit c =
      let b = with_defaults w.windows bounds in
      let begun : Collecting = record {
        result = start source_server_config;
        limit = limit;
        polls = polls;
      } in
      let parse = parse_nginx w.path_unescape w.files b.bounds in
      let x = read_configs w parse b.nginx_configs begun in
      let (nginx, ended) =
        read_configs-IsRead parse b.nginx_configs begun refl (collect_apache_before b x c) in
      let k = read_configs-Swept begun.result limit w parse b.nginx_configs begun begin in
      let (apache, told) = collect_apache-IsRead b x (Sweep-IsHonest k refl) ended c in
      (nginx, apache, told)
