-- ===== src/Collect/ServerConfig/Examples.antt =====
-- A host whose one nginx site names a certificate that is gone.
use dtp_discovery_agent.Common.{
  pos, ◌≡◌, refl, true, false, ◌&&◌, none, some, List, [], ◌∷◌, inl, inr, str_eq, if◌then◌else◌,
  contains, All,
}
use dtp_discovery_agent.Parse.Certificate.{Certificate, ed25519}
use dtp_discovery_agent.Parse.Pem.{Codecs}
use dtp_discovery_agent.Collect.Result.{Result, start}
use dtp_discovery_agent.Collect.Run.{fresh_cap}
use dtp_discovery_agent.Collect.Run.Sweep.{IsSweeping}
use dtp_discovery_agent.Collect.Config.Directives.{append}
use dtp_discovery_agent.Collect.Config.References.{is_readable_path, pair_certificates, pair_from}
use dtp_discovery_agent.Collect.Config.Reader.{
  Files, new_config_reader, read, read_new, read_file_at, read_contents, source_server_config,
}
use dtp_discovery_agent.Collect.Nginx.{
  tokenize, tokenize_from, step, step_plain, parse_block, simple_directive, parse_source,
  parse_file, args_of, nginx_certificates, server_names, listens, nginx_server, walk_level,
  walk_nginx, parse_nginx,
}
use dtp_discovery_agent.Collect.Apache.{parse_apache}
use dtp_discovery_agent.Collect.ServerConfig.{
  ServerConfigBounds, ServerHost, with_defaults, add_problem, clear_completed, note_unread,
  record_ref, record_refs, record_hosts, take_problems, take_sites, read_config, read_configs,
  collect_iis, collect_apache, collect, sweeper, server_names_from, observe_all, add_problems,
}
use dtp_discovery_agent.Collect.ServerConfig.Names.{is_sni, mentioned, contains-server_names_from}
use dtp_discovery_agent.Collect.ServerConfig.Sees.{IsRead, collect-IsRead}
use dtp_discovery_agent.Collect.ServerConfig.Sweeping.{sweeper-IsSweeping}

abbrev one_config : Files
one_config = record {
  abs = λ p. some p;
  stat = λ p.
      if str_eq p "n.conf"
      then inr (record { is_dir = false; file_size = 9; mode = "0644"; owner = "root" })
      else inl (record { words = "no such file"; is_not_exist = true });
  read_file = λ p.
      if str_eq p "n.conf"
      then inr "server { ssl_certificate a.pem; server_name www; }"
      else inl (record { words = "no such file"; is_not_exist = true });
  glob = λ p. inr [];
  is_abs = λ p. true;
  join_paths = λ d p. p;
  dir = λ p. "/";
}

abbrev no_codecs : Codecs
no_codecs = record {
  decode = λ input. none;
  parse_certificate = λ content. none;
  parse_certificates = λ input. none;
  decode_chain = λ input password. none;
  encode = λ b. b.kind;
}

abbrev any_certificate : Certificate
any_certificate = record {
  raw = "";
  raw_subject = "";
  raw_issuer = "";
  is_ca = false;
  basic_constraints_valid = true;
  not_before = 0;
  not_after = 9;
  public_key = ed25519;
}

abbrev pub one_host : ServerHost
one_host = record {
  windows = false;
  files = one_config;
  codecs = no_codecs;
  world = record {
    certificate = λ p. any_certificate;
    cancelled = λ n. false;
    check_signature = λ issuer child. false;
  };
  path_unescape = λ s. some s;
  now = λ n. n;
  iis_observations = ([], [], true);
}

abbrev pub one_bounds : ServerConfigBounds
one_bounds = record {
  nginx_configs = some ("n.conf" ∷ []);
  apache_configs = none;
  max_files = pos 0;
  max_file_bytes = pos 100;
  max_depth = pos 2;
}

gone_is_complete : (collect one_host one_bounds 0 fresh_cap).result.completed ≡ true
unfolding collect collect_apache read_configs read_config take_sites take_problems record_hosts
    record_refs record_ref note_unread add_problem clear_completed collect_iis observe_all
    add_problems with_defaults parse_nginx parse_file read read_new read_file_at read_contents
    parse_source tokenize tokenize_from step step_plain parse_block simple_directive append
    walk_nginx walk_level nginx_server nginx_certificates args_of pair_certificates pair_from
    is_readable_path server_names listens new_config_reader
gone_is_complete = refl

collect-IsRead_example :
    All
      (IsRead one_host
        (parse_nginx one_host.path_unescape one_config (with_defaults false one_bounds).bounds))
      (with_defaults false one_bounds).nginx_configs
    × All
        (IsRead one_host
          (parse_apache one_host.path_unescape one_config (with_defaults false one_bounds).bounds))
        (with_defaults false one_bounds).apache_configs
    × (one_host.iis_observations.2 ≡ true)
collect-IsRead_example = collect-IsRead one_host one_bounds 0 fresh_cap gone_is_complete

-- the same host, where the main configuration may not be looked at
abbrev denied_host : ServerHost
denied_host = record one_host {
  files = record one_config {
    stat = λ p. inl (record { words = "permission denied"; is_not_exist = false });
  };
}

denied_is_complete : (collect denied_host one_bounds 0 fresh_cap).result.completed ≡ true
unfolding collect collect_apache read_configs read_config collect_iis observe_all add_problems
    with_defaults
denied_is_complete = refl

sweeper-IsSweeping_example : IsSweeping (sweeper one_host one_bounds 0)
sweeper-IsSweeping_example = sweeper-IsSweeping one_host one_bounds 0

abbrev two_names : List Result
two_names =
    record (start source_server_config) {
      observations =
          record {
            certificate_pem = "";
            chain_pem = "";
            source = source_server_config;
            location = "";
            binding = ("server_name", "a.org") ∷ ("server_names", "a.org *.b.org") ∷ [];
            private_key_present = false;
            private_key_location = "";
            file_mode = "";
            file_owner = "";
            observed_at = 0;
          }
          ∷ [];
    }
    ∷ []

contains-server_names_from_example :
    contains (server_names_from two_names) "*.b.org"
    ≡ is_sni "*.b.org" && mentioned "*.b.org" two_names
contains-server_names_from_example = contains-server_names_from two_names "*.b.org"
