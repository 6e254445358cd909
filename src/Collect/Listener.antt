-- ===== src/Collect/Listener.antt =====
-- The probe of the host's listeners (internal/collect/listener.go). What a connection and its
-- handshake came to is a value, Contact. The goroutines share nothing but the slice of outcomes, one
-- place each, so that their order has no part in the result; the limit on how many run at once and
-- the timeout stand in what Contact says.
use dtp_discovery_agent.Common.{
  ℕ, suc, ◌*◌, ◌^◌, ℤ, String, Bool, true, false, Option, none, some, List, [], ◌∷◌, ◌++◌, map, ltb,
  leb, ◌==◌, str_eq, contains, if◌then◌else◌, length, take,
}
use dtp_discovery_agent.Common.Text.{join}
use dtp_discovery_agent.Parse.Certificate.{World}
use dtp_discovery_agent.Parse.Chain.{verify_budget, new_store, chain_for}
use dtp_discovery_agent.Parse.Pem.{Codecs, encode_pem}
use dtp_discovery_agent.Collect.Result.{
  Observation, Error, Message, text, too_many_ports, socket_table, start, add_error, incomplete,
  Result,
}
use dtp_discovery_agent.Collect.Run.{RunCap, Sweeper}
use dtp_discovery_agent.Collect.ServerConfig.{
  Collecting, clear_completed, observe_all, add_problems, positive_or, server_names_from,
}
use dtp_discovery_agent.Collect.Sockets.{
  Socket, Net, System, SocketError, no_socket_table, partial_table, loopback, dial_address,
  bound_address, listening_sockets, dedupe,
}
pub mod Sweeping
mod Probes
mod Heard
mod Complete
mod Findings
pub mod Examples

pub record ListenerBounds : Type 0 where
  pub ports : List ℕ
  pub server_names : List String
  pub max_probes : ℤ
  pub timeout : ℤ
  pub concurrency : ℤ

-- The bounds with all defaults in place; the timeout is in nanoseconds.
pub record SettledBounds : Type 0 where
  pub ports : List ℕ
  pub server_names : List String
  pub max_probes : ℕ
  pub timeout : ℕ
  pub concurrency : ℕ

unfoldable pub with_defaults : ListenerBounds → SettledBounds
with_defaults b = record {
  ports = b.ports;
  server_names = b.server_names;
  max_probes = positive_or b.max_probes 256;
  timeout = positive_or b.timeout (5 * 10 ^ 9);
  concurrency = positive_or b.concurrency 8;
}

abbrev pub well_known_tls_ports : List ℕ
well_known_tls_ports = 443 ∷ 465 ∷ 636 ∷ 853 ∷ 989 ∷ 990 ∷ 993 ∷ 995 ∷ 5986 ∷ 8443 ∷ 9443 ∷ []

abbrev pub source_listener : String
source_listener = "listener"

pub data Verdict : Type 0 where
  probe_found : Verdict
  probe_none : Verdict
  probe_unknown : Verdict

-- tls.ConnectionState, as far as it is read
pub record TlsState : Type 0 where
  pub version : ℕ
  pub negotiated_protocol : String

-- An error of the dialer or the handshake: its text, whether it is a timeout or an exceeded
-- deadline, and whether it says that the first bytes were no TLS record
pub record NetError : Type 0 where
  pub words : String
  pub is_timeout : Bool
  pub is_deadline : Bool
  pub is_record_header : Bool

-- What connecting to a socket and shaking hands came to.
pub record Contact : Type 0 where
  pub dial_error : Option NetError
  pub captured : List ℕ
  pub handshake_error : Option NetError
  pub bytes_read : ℕ
  pub state : TlsState

pub record ListenerHost : Type 0 where
  pub net : Net
  pub system : System
  pub codecs : Codecs
  pub world : World
  pub contact : String → String → ℕ → Contact
  pub polls_at : Socket → String → ℕ  -- where the context's life stands at a probe
  pub now : ℕ → ℕ
  pub fingerprint : String → String
  pub hex_version : ℕ → String  -- fmt.Sprintf("0x%04x", version)

-- What one probe learned: an observation, that there is none, or an error.
pub data Probe : Type 0 where
  found : Observation → Probe
  nothing : Probe
  unknown : String → Probe

pub record ProbeOutcome : Type 0 where
  pub observations : List Observation
  pub errs : List Error
  pub incomplete : Bool

abbrev pub no_outcome : ProbeOutcome
no_outcome = record { observations = []; errs = []; incomplete = false }

abbrev pub max_unanswered_names : ℕ
max_unanswered_names = 3

-- the verdict on a failed connection
unfoldable pub dial_verdict : NetError → Verdict
dial_verdict e = if e.is_timeout then probe_unknown else probe_none

-- the verdict on a handshake that showed no certificate
unfoldable pub handshake_verdict : Option NetError → ℕ → Verdict
handshake_verdict none heard = probe_none
handshake_verdict (some e) heard =
    if heard == 0
    then probe_none
    else if e.is_timeout
    then probe_unknown
    else if e.is_deadline
    then probe_unknown
    else if e.is_record_header
    then probe_none
    else probe_unknown

abbrev pub error_words : Option NetError → String
error_words none = ""
error_words (some e) = e.words

abbrev pub probe_of : Verdict → String → Probe
probe_of probe_found words = nothing
probe_of probe_none words = nothing
probe_of probe_unknown words = unknown words

abbrev pub alpn_binding : String → List (String × String)
alpn_binding protocol = if str_eq protocol "" then [] else ("alpn", protocol) ∷ []

abbrev pub name_binding : String → List (String × String)
name_binding name = if str_eq name "" then [] else ("server_name", name) ∷ []

-- an answer with a certificate, unless the socket gave the same before
unfoldable pub with_found : Bool → Observation → ProbeOutcome → ProbeOutcome
with_found seen o out = if seen then out else record out { observations = o ∷ out.observations }

-- an answer that could not be had
unfoldable pub with_unknown : Error → ProbeOutcome → ProbeOutcome
with_unknown e out = record out { errs = e ∷ out.errs; incomplete = true }

-- Inform
unfoldable pub inform_names : List String → List String → List String
inform_names names [] = names
inform_names names (n ∷ ns) = inform_names (if contains names n then names else names ++ n ∷ []) ns

unfoldable pub inform : List Result → ListenerBounds → ListenerBounds
inform earlier b = record b {
  server_names = inform_names b.server_names (server_names_from earlier);
}

module _ (h : ListenerHost) where
  open h use {net, system, codecs, world, contact, polls_at, now, fingerprint, hex_version}

  unfoldable pub tls_version_name : ℕ → String
  tls_version_name version =
      if version == 769
      then "TLS 1.0"
      else if version == 770
      then "TLS 1.1"
      else if version == 771
      then "TLS 1.2"
      else if version == 772
      then "TLS 1.3"
      else hex_version version

  unfoldable pub probe_location : Socket → String → String
  probe_location target name =
      if str_eq name ""
      then dial_address net target
      else join "" (dial_address net target ∷ " (" ∷ name ∷ ")" ∷ [])

  unfoldable pub found_at : Socket → String → TlsState → ℕ → List ℕ → Probe
  found_at target name state leaf others =
      let polls = polls_at target name in
      let store = new_store world (now polls) verify_budget polls (map (λ p. some p) others) [] in
      let (chain, work) = chain_for world store.index leaf store.work in
      found (record {
        certificate_pem = encode_pem codecs world (leaf ∷ []);
        chain_pem = encode_pem codecs world chain;
        source = source_listener;
        location = dial_address net target;
        binding =
            ("address", bound_address net target)
            ∷ (name_binding name
                ++ ("tls_version", tls_version_name state.version)
                  ∷ alpn_binding state.negotiated_protocol);
        private_key_present = false;
        private_key_location = "";
        file_mode = "";
        file_owner = "";
        observed_at = now work.polls;
      })

  -- probeOne with handshake
  abbrev pub shaken : Socket → String → Contact → List ℕ → Probe
  shaken target name c [] =
      probe_of (handshake_verdict c.handshake_error c.bytes_read) (error_words c.handshake_error)
  shaken target name c (leaf ∷ others) = found_at target name c.state leaf others

  abbrev pub dialled : Socket → String → Contact → Option NetError → Probe
  dialled target name c (some e) = probe_of (dial_verdict e) e.words
  dialled target name c none = shaken target name c c.captured

  unfoldable pub probe_one : ℕ → Socket → String → Probe
  probe_one timeout target name =
      let c = contact (dial_address net target) name timeout in dialled target name c c.dial_error

  abbrev pub probe_error : Socket → String → String → Error
  probe_error target name words = record {
    collector = source_listener;
    message = text words;
    location = probe_location target name;
  }

  -- The loop of probeTarget: whether it is at the first name, how many probes in a row had no
  -- answer, and the fingerprints of what is recorded.
  unfoldable pub probe_names : ℕ → Socket → Bool → ℕ → List String → List String → ProbeOutcome
  probe_names timeout target first unanswered recorded [] = no_outcome
  probe_names timeout target first unanswered recorded (name ∷ names) =
      elim (probe_one timeout target name) [
        | found o ↦
            with_found (contains recorded (fingerprint o.certificate_pem)) o
              (probe_names timeout target false 0 (fingerprint o.certificate_pem ∷ recorded) names)
        | nothing ↦ elim first [
          | true ↦ no_outcome
          | false ↦ probe_names timeout target false unanswered recorded names
        ]
        | unknown words ↦
            with_unknown (probe_error target name words)
              (elim (leb max_unanswered_names (suc unanswered)) [
                | true ↦ no_outcome
                | false ↦ probe_names timeout target false (suc unanswered) recorded names
              ])
      ]

  unfoldable pub probe_target : SettledBounds → Socket → ProbeOutcome
  probe_target b target = probe_names b.timeout target true 0 [] ("" ∷ b.server_names)

  -- the loop that starts the probes: the targets it comes to, and whether the context ended it
  unfoldable pub started : ℕ → List Socket → List Socket × Bool
  started polls [] = ([], false)
  started polls (t ∷ ts) = elim (world.cancelled polls) [
    | true ↦ ([], true)
    | false ↦ let (more, ended) = started (suc polls) ts in (t ∷ more, ended)
  ]

  -- the loop over the outcomes
  unfoldable pub take_outcomes : List ProbeOutcome → Collecting → Collecting
  take_outcomes [] s = s
  take_outcomes (out ∷ outs) s =
      let s' = add_problems out.errs (observe_all out.observations s) in
      take_outcomes outs (if out.incomplete then clear_completed s' else s')

  unfoldable pub probe_all : SettledBounds → ℕ → List Socket → Collecting → Collecting
  probe_all b polls targets s =
      let (some_targets, ended) = started polls targets in
      take_outcomes (map (λ t. probe_target b t) some_targets)
        (if ended then clear_completed s else s)

  abbrev pub at_loopback : List ℕ → List Socket
  at_loopback ports = map (λ p. record { ip = loopback net; port = p }) ports

  abbrev pub listener_error : Message → Error
  listener_error message = record { collector = source_listener; message = message; location = "" }

  abbrev pub words_of : SocketError → Message
  words_of (no_socket_table goos) = socket_table (goos ∷ [])
  words_of (partial_table errs) = socket_table errs

  abbrev pub enumerated :
      List Socket × Option SocketError → Collecting → List Socket × Bool × Collecting
  enumerated (sockets, none) s = (dedupe net sockets, true, s)
  enumerated (sockets, some e) s = (
    dedupe net (sockets ++ at_loopback well_known_tls_ports),
    false,
    record s { result = add_error (listener_error (words_of e)) s.result },
  )

  -- Listener.targets: what to probe, and whether that is the host's own listening set
  unfoldable pub targets : List ℕ → Collecting → List Socket × Bool × Collecting
  targets [] s = enumerated (listening_sockets net system) s
  targets (p ∷ ports) s = (dedupe net (at_loopback (p ∷ ports)), false, s)

  abbrev pub too_many : SettledBounds → Result → Result
  too_many b r = add_error (listener_error (too_many_ports b.max_probes)) (incomplete r)

  -- the ceiling on how many are probed
  unfoldable pub probe_first : SettledBounds → ℕ → List Socket → Collecting → Collecting
  probe_first b polls sockets s =
      if ltb b.max_probes (length sockets)
      then probe_all b polls (take b.max_probes sockets) (record s { result = too_many b s.result })
      else probe_all b polls sockets s

  unfoldable pub collect_targets : SettledBounds → ℕ → List Socket × Bool × Collecting → Collecting
  collect_targets b polls (sockets, true, s) = probe_first b polls sockets s
  collect_targets b polls (sockets, false, s) = probe_first b polls sockets (clear_completed s)

  -- Listener.Collect
  unfoldable pub collect : ListenerBounds → ℕ → RunCap → Collecting
  collect bounds polls limit =
      let b = with_defaults bounds in
      collect_targets b polls
        (targets b.ports (record { result = start source_listener; limit = limit; polls = polls }))

  -- Inform, then Collect
  abbrev pub sweeper : ListenerBounds → ℕ → Sweeper
  sweeper bounds polls = record {
    source = source_listener;
    collect = λ earlier limit. (
      (collect (inform earlier bounds) polls limit).result,
      (collect (inform earlier bounds) polls limit).limit,
    );
  }
