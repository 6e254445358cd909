-- ===== src/Collect/Nginx/Examples.antt =====
-- A small nginx configuration, and one that includes itself.
use dtp_discovery_agent.Common.{String, ◌≡◌, refl, inr, true, false, Option, some, List, [], ◌∷◌}
use dtp_discovery_agent.Common.Text.{of_runes}
use dtp_discovery_agent.Collect.Config.Directives.{Directives, no_directives, directive}
use dtp_discovery_agent.Collect.Config.Reader.{Files, ConfigBounds, new_config_reader}
use dtp_discovery_agent.Collect.Nginx.{
  Token, word, semicolon, open_brace, close_brace, tokenize, tokenize_from, step, step_plain,
  step_quoted, needs_escaping, parse_source, Include,
}
use dtp_discovery_agent.Collect.Nginx.Lexing.{print, tokenize-print}
use dtp_discovery_agent.Collect.Nginx.Sites.{written, parse_source-written}

abbrev no_percent : String → Option String
no_percent s = some s

-- a file system with one file, which includes itself
abbrev one_file : Files
one_file = record {
  abs = λ p. some p;
  stat = λ p. inr (record { is_dir = false; file_size = 20; mode = "0644"; owner = "root" });
  read_file = λ p. inr "include nginx.conf;";
  glob = λ p. inr (p ∷ []);
  is_abs = λ p. true;
  join_paths = λ d p. p;
  dir = λ p. "/";
}

abbrev small_bounds : ConfigBounds
small_bounds = record { max_files = 5; max_file_bytes = 100; max_depth = 3 }

quoted_semicolon : tokenize "ssl \"a;b\" # end" ≡ word "ssl" ∷ word "a;b" ∷ []
unfolding tokenize tokenize_from step step_plain step_quoted needs_escaping
quoted_semicolon = refl

abbrev five_tokens : List Token
five_tokens = word "a b" ∷ word "say \"x\"" ∷ open_brace ∷ close_brace ∷ semicolon ∷ []

tokenize-print_example : tokenize (of_runes (print five_tokens)) ≡ five_tokens
tokenize-print_example = tokenize-print five_tokens ((λ e. cc), ((λ e. cc), (tt, (tt, (tt, tt)))))

abbrev one_site : Directives
one_site =
    directive "server" []
      (directive "ssl_certificate" ("a b.pem" ∷ []) no_directives "x" no_directives) "x"
      no_directives

abbrev nowhere : Include
nowhere path r = (inr no_directives, r)

parse_source-written_example :
    parse_source one_file small_bounds nowhere "x" (some (written one_site), new_config_reader)
    ≡ (inr one_site, new_config_reader)
parse_source-written_example =
    parse_source-written one_file small_bounds nowhere "x" new_config_reader one_site
      (refl, (refl, ((refl, (refl, (tt, tt))), tt)))
      (((λ e. cc), tt), ((((λ e. cc), ((λ e. cc), tt)), (tt, tt)), tt))
