-- ===== src/Collect/Apache/Examples.antt =====
-- A directive line, a configuration that includes itself and one with a site inside a condition.
use dtp_discovery_agent.Common.{
  String, ◌≡◌, refl, inr, true, false, Option, some, List, [], ◌∷◌, map,
}
use dtp_discovery_agent.Common.Text.{of_runes}
use dtp_discovery_agent.Collect.Config.Reader.{Files, ConfigBounds}
use dtp_discovery_agent.Collect.Apache.{
  logical_lines, logical_from, apache_fields, apache_server_name,
}
use dtp_discovery_agent.Collect.Apache.Fields.{
  Written, bare, quoted, value, put_all, apache_fields-put_all,
}

abbrev no_percent : String → Option String
no_percent s = some s

-- a file system with one file, which includes itself
abbrev one_file : Files
one_file = record {
  abs = λ p. some p;
  stat = λ p. inr (record { is_dir = false; file_size = 20; mode = "0644"; owner = "root" });
  read_file = λ p. inr "Include httpd.conf";
  glob = λ p. inr (p ∷ []);
  is_abs = λ p. true;
  join_paths = λ d p. p;
  dir = λ p. "/";
}

abbrev small_bounds : ConfigBounds
small_bounds = record { max_files = 5; max_file_bytes = 100; max_depth = 3 }

continued_line : logical_lines "a \\\nb\r\nc" ≡ "a b" ∷ "c" ∷ []
unfolding logical_lines logical_from
continued_line = refl

port_dropped : apache_server_name "https://www.example.com:443" ≡ "www.example.com"
unfolding apache_server_name
port_dropped = refl

abbrev three_arguments : List Written
three_arguments = bare "a" ("b" ∷ []) ∷ quoted "\"" ("c" ∷ " " ∷ "'" ∷ []) ∷ quoted "'" [] ∷ []

apache_fields-put_all_example :
    apache_fields (of_runes (put_all " " three_arguments)) ≡ map value three_arguments
apache_fields-put_all_example =
    apache_fields-put_all " " three_arguments refl refl
      (((refl, refl), ((refl, refl), tt)), ((refl, (refl, (refl, (refl, tt)))), ((refl, tt), tt)))
