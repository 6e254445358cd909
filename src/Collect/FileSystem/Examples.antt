-- ===== src/Collect/FileSystem/Examples.antt =====
-- Two roots, one inside the other, with a certificate file that cannot be read.
use dtp_discovery_agent.Common.{
  pos, ◌≡◌, refl, true, false, none, some, [], ◌∷◌, inl, inr, if◌then◌else◌, str_eq, length,
}
use dtp_discovery_agent.Parse.Certificate.{Certificate, ed25519}
use dtp_discovery_agent.Collect.Run.{fresh_cap}
use dtp_discovery_agent.Collect.Run.Sweep.{IsSweeping}
use dtp_discovery_agent.Collect.FileSystem.{
  FsBounds, FsHost, with_defaults, sweep_roots, collect, sweeper,
}
use dtp_discovery_agent.Collect.FileSystem.Bounds.{collect-IsBounded}
use dtp_discovery_agent.Collect.Walk.Bounds.{IsBounded}
use dtp_discovery_agent.Collect.Walk.{
  Entries, no_entries, file, folder, note_unseen, examine, visit_info, visit_file, walk_entries,
  walk_root, walk_roots,
}
use dtp_discovery_agent.Collect.FileSystem.Sweeping.{walk-IsSweeping}

abbrev any_certificate : Certificate
any_certificate = record {
  raw = "";
  raw_subject = "";
  raw_issuer = "";
  is_ca = false;
  basic_constraints_valid = true;
  not_before = 0;
  not_after = 9;
  public_key = ed25519;
}

abbrev one_file : Entries
one_file =
    file "/a/b/c.pem" false
      (some (record { is_dir = false; file_size = 7; mode = "0644"; owner = "root" })) no_entries

abbrev pub nested_host : FsHost
nested_host = record {
  windows = false;
  walk = record {
    files = record {
      abs = λ p. some p;
      stat = λ p. inl (record { words = "no such file"; is_not_exist = true });
      read_file = λ p. inl (record { words = "permission denied"; is_not_exist = false });
      glob = λ p. inr (p ∷ []);
      is_abs = λ p. true;
      join_paths = λ d p. p;
      dir = λ p. "/";
    };
    world = record {
      certificate = λ p. any_certificate;
      cancelled = λ n. false;
      check_signature = λ issuer child. false;
    };
    separators = λ path. if str_eq path "/a/b" then 2 else 1;
    below = λ root.
        if str_eq root "/a/b"
        then folder "/a/b" none one_file no_entries
        else folder "/a" none (folder "/a/b" none one_file no_entries) no_entries;
    context_error = "context canceled";
  };
  codecs = record {
    decode = λ input. none;
    parse_certificate = λ content. none;
    parse_certificates = λ input. none;
    decode_chain = λ input password. none;
    encode = λ b. b.kind;
  };
  now = λ n. n;
  lower_ext = λ path. ".pem";
  without_ext = λ path. path;
  base = λ path. path;
}

abbrev pub two_roots : FsBounds
two_roots = record {
  roots = "/a" ∷ "/a/b" ∷ [];
  max_file_bytes = pos 0;
  max_depth = pos 0;
  max_files = pos 0;
}

read_once : length (collect nested_host two_roots 0 fresh_cap).reads ≡ 1
unfolding collect with_defaults sweep_roots walk_roots walk_root walk_entries visit_file visit_info
    examine note_unseen
read_once = refl

unread_is_incomplete : (collect nested_host two_roots 0 fresh_cap).work.result.completed ≡ false
unfolding collect with_defaults sweep_roots walk_roots walk_root walk_entries visit_file visit_info
    examine note_unseen
unread_is_incomplete = refl

walk-IsSweeping_example : IsSweeping (sweeper nested_host two_roots 0)
walk-IsSweeping_example = walk-IsSweeping nested_host two_roots 0

collect-IsBounded_example :
    IsBounded
      (with_defaults false two_roots).bounds.max_files
      (collect nested_host two_roots 0 fresh_cap)
collect-IsBounded_example = collect-IsBounded nested_host two_roots 0 fresh_cap
