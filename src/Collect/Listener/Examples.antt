-- ===== src/Collect/Listener/Examples.antt =====
-- A host with one listener that speaks no TLS.
use dtp_discovery_agent.Common.{pos, ◌≡◌, refl, true, false, none, some, [], ◌∷◌, inr}
use dtp_discovery_agent.Common.Text.{join}
use dtp_discovery_agent.Common.Sorting.{sort_by, insert_by}
use dtp_discovery_agent.Parse.Certificate.{Certificate, ed25519}
use dtp_discovery_agent.Collect.Run.{fresh_cap}
use dtp_discovery_agent.Collect.Run.Sweep.{IsSweeping}
use dtp_discovery_agent.Collect.ServerConfig.{observe_all, add_problems}
use dtp_discovery_agent.Collect.Sockets.{
  Socket, Net, System, swap_words, parse_hex_address, local_socket, line_socket, sockets_of,
  parse_proc_net, table_sockets, read_tables, listening_sockets, first_of_each, key_of, dedupe,
  bound_address,
}
use dtp_discovery_agent.Collect.Listener.{
  ListenerBounds, with_defaults, NetError, ListenerHost, dial_verdict, handshake_verdict, probe_one,
  probe_names, probe_target, started, take_outcomes, probe_all, targets, probe_first,
  collect_targets, collect, sweeper,
}
use dtp_discovery_agent.Collect.Listener.Complete.{IsWhole, collect-IsWhole}
use dtp_discovery_agent.Collect.Listener.Findings.{AllNew, probe_target-AllNew}
use dtp_discovery_agent.Collect.Listener.Heard.{IsHeard}
use dtp_discovery_agent.Collect.Listener.Probes.{prints}
use dtp_discovery_agent.Collect.Listener.Sweeping.{inform-IsSweeping}

abbrev own_net : Net
own_net = record {
  ip_string = λ ip. "127.0.0.1";
  is_unspecified = λ ip. false;
  is_ipv4 = λ ip. true;
  ipv4 = λ a b c d. a ∷ b ∷ c ∷ d ∷ [];
  ipv6_loopback = 1 ∷ [];
  join_host_port = λ host port. join ":" (host ∷ port ∷ []);
  itoa = λ p. "443";
  decode_hex = λ s. some (127 ∷ 0 ∷ 0 ∷ 1 ∷ []);
  parse_uint = λ s. some 443;
}

abbrev own_system : System
own_system = record {
  goos = "linux";
  open_table = λ path. inr ("sl local" ∷ " 0: 0100007F:01BB 0:0 0A 0" ∷ [], none);
}

abbrev some_certificate : Certificate
some_certificate = record {
  raw = "";
  raw_subject = "";
  raw_issuer = "";
  is_ca = false;
  basic_constraints_valid = true;
  not_before = 0;
  not_after = 9;
  public_key = ed25519;
}

abbrev hung_up : NetError
hung_up = record {
  words = "EOF";
  is_timeout = false;
  is_deadline = false;
  is_record_header = false;
}

-- every socket accepts the connection and hangs up
abbrev quiet_host : ListenerHost
quiet_host = record {
  net = own_net;
  system = own_system;
  codecs = record {
    decode = λ input. none;
    parse_certificate = λ content. none;
    parse_certificates = λ input. none;
    decode_chain = λ input password. none;
    encode = λ b. b.kind;
  };
  world = record {
    certificate = λ p. some_certificate;
    cancelled = λ n. false;
    check_signature = λ issuer child. false;
  };
  contact = λ address name timeout. record {
    dial_error = none;
    captured = [];
    handshake_error = some hung_up;
    bytes_read = 0;
    state = record { version = 772; negotiated_protocol = "" };
  };
  polls_at = λ target name. 0;
  now = λ n. n;
  fingerprint = λ s. s;
  hex_version = λ v. "0x";
}

-- the same host, where every name is answered with the certificate 1
abbrev pub talking_host : ListenerHost
talking_host = record quiet_host {
  contact = λ address name timeout. record {
    dial_error = none;
    captured = 1 ∷ [];
    handshake_error = none;
    bytes_read = 9;
    state = record { version = 772; negotiated_protocol = "" };
  };
}

abbrev pub two_named : ListenerBounds
two_named = record {
  ports = [];
  server_names = "a.org" ∷ "b.org" ∷ [];
  max_probes = pos 0;
  timeout = pos 0;
  concurrency = pos 0;
}

quiet_is_complete : (collect quiet_host two_named 0 fresh_cap).result.completed ≡ true
unfolding collect collect_targets probe_first probe_all take_outcomes started targets probe_target
    probe_names probe_one handshake_verdict with_defaults listening_sockets read_tables
    table_sockets parse_proc_net sockets_of line_socket local_socket parse_hex_address swap_words
    dedupe first_of_each key_of bound_address sort_by insert_by observe_all add_problems
quiet_is_complete = refl

collect-IsWhole_example : IsWhole quiet_host [] (IsHeard quiet_host) (with_defaults two_named)
collect-IsWhole_example = collect-IsWhole quiet_host two_named 0 fresh_cap quiet_is_complete

-- every dial ends with the context, which is cancelled after the probe has begun
abbrev cancelled_host : ListenerHost
cancelled_host = record quiet_host {
  contact = λ address name timeout. record {
    dial_error = some (record {
      words = "operation was canceled";
      is_timeout = false;
      is_deadline = false;
      is_record_header = false;
    });
    captured = [];
    handshake_error = none;
    bytes_read = 0;
    state = record { version = 0; negotiated_protocol = "" };
  };
}

cancelled_dial_is_complete : (collect cancelled_host two_named 0 fresh_cap).result.completed ≡ true
unfolding collect collect_targets probe_first probe_all take_outcomes started targets probe_target
    probe_names probe_one dial_verdict with_defaults listening_sockets read_tables table_sockets
    parse_proc_net sockets_of line_socket local_socket parse_hex_address swap_words dedupe
    first_of_each key_of bound_address sort_by insert_by observe_all add_problems
cancelled_dial_is_complete = refl

inform-IsSweeping_example : IsSweeping (sweeper talking_host two_named 0)
inform-IsSweeping_example = inform-IsSweeping talking_host two_named 0

abbrev own_socket : Socket
own_socket = record { ip = 127 ∷ []; port = 443 }

probe_target-AllNew_example : AllNew [] (
    prints talking_host
      (probe_target talking_host (with_defaults two_named) own_socket).observations)
probe_target-AllNew_example = probe_target-AllNew talking_host (with_defaults two_named) own_socket
