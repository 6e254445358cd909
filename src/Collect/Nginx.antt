-- ===== src/Collect/Nginx.antt =====
-- The reading of an nginx configuration (internal/collect/nginx.go): tokens, blocks and sites.
-- A block's reader returns the tokens behind the block where the source returns their number. Its
-- fuel is more than the number of the tokens, and `room` is how deep includes may still nest.
use dtp_discovery_agent.Common.{
  ℕ, zero, suc, String, ◌⊎◌, inl, inr, Bool, false, ◌&&◌, ◌||◌, Option, none, some, List, [], ◌∷◌,
  ◌++◌, str_eq, ◌==◌, if◌then◌else◌, length,
}
use Prim.Native.Char.{Char, code}
use dtp_discovery_agent.Common.Text.{runes, of_runes, join}
use dtp_discovery_agent.Collect.Result.{Message, in_file, nested_includes, bare_block, out_of_fuel}
use dtp_discovery_agent.Collect.Config.Directives.{
  Directives, no_directives, directive, append, one,
}
use dtp_discovery_agent.Collect.Config.References.{CertificateRef, Vhost, pair_certificates}
use dtp_discovery_agent.Collect.Config.Reader.{
  Files, ConfigBounds, ConfigReader, note, read, expand,
}
mod Lexing
mod Blocks
mod Sites
mod Inheritance
mod Examples

-- nginxToken: a text, or one of the three marks
pub data Token : Type 0 where
  word : String → Token
  semicolon : Token
  open_brace : Token
  close_brace : Token

-- Where nginxTokenize is: outside quotes, inside a quote, at a character that a backslash escapes
-- there, or in a comment.
pub data Mode : Type 0 where
  plain : Mode
  quoted : ℕ → Mode
  escaped : ℕ → Mode
  comment : Mode

pub record Lexer : Type 0 where
  pub mode : Mode
  pub current : List Char

unfoldable pub needs_escaping : ℕ → Bool
needs_escaping n = n == b'"' || (n == b'\'' || (n == b'\\' || n == b'$'))

-- `flush`: the token of what was read, if anything was
abbrev pub flushed : List Char → List Token
flushed [] = []
flushed (c ∷ cs) = word (of_runes (c ∷ cs)) ∷ []

abbrev pub next_needs_escaping : List Char → Bool
next_needs_escaping [] = false
next_needs_escaping (c ∷ cs) = needs_escaping (code c)

abbrev pub is_blank : ℕ → Bool
is_blank n = n == b' ' || (n == b'\t' || (n == b'\n' || n == b'\r'))

abbrev pub plainly : List Char → Lexer
plainly current = record { mode = plain; current = current }

-- One character outside quotes
unfoldable pub step_plain : List Char → Char → Lexer × List Token
step_plain current c =
    if code c == b'"' || code c == b'\''
    then (record { mode = quoted (code c); current = current }, [])
    else if code c == b'#'
    then (record { mode = comment; current = [] }, flushed current)
    else if code c == b'{'
    then (plainly [], flushed current ++ open_brace ∷ [])
    else if code c == b'}'
    then (plainly [], flushed current ++ close_brace ∷ [])
    else if code c == b';'
    then (plainly [], flushed current ++ semicolon ∷ [])
    else if is_blank (code c)
    then (plainly [], flushed current)
    else (plainly (current ++ c ∷ []), [])

-- One character, with those behind it, inside a quote
unfoldable pub step_quoted : ℕ → List Char → List Char → Char → Lexer
step_quoted quote next current c =
    if code c == b'\\' && next_needs_escaping next
    then record { mode = escaped quote; current = current }
    else if code c == quote
    then plainly current
    else record { mode = quoted quote; current = current ++ c ∷ [] }

-- One round of the loop of nginxTokenize
unfoldable pub step : Mode → List Char → List Char → Char → Lexer × List Token
step plain next current c = step_plain current c
step (quoted quote) next current c = (step_quoted quote next current c, [])
step (escaped quote) next current c =
    (record { mode = quoted quote; current = current ++ c ∷ [] }, [])
step comment next current c =
    (if code c == b'\n' then plainly current else record { mode = comment; current = current }, [])

unfoldable pub tokenize_from : Lexer → List Char → List Token
tokenize_from l [] = flushed l.current
tokenize_from l (c ∷ cs) =
    (step l.mode cs l.current c).1 ++ tokenize_from (step l.mode cs l.current c).0 cs

unfoldable pub tokenize : String → List Token
tokenize src = tokenize_from (plainly []) (runes src)

-- What nginxParseBlock returns
pub data Block : Type 0 where
  block : Directives → List Token → Block
  failed : Message → Block

-- directives in front of those that a block goes on with
abbrev pub before : Directives → Block → Block
before ds (block more rest) = block (append ds more) rest
before ds (failed e) = failed e

-- The files of an include directive, spliced in; those with an error are noted.
abbrev pub Include : Type 0
Include = String → ConfigReader → (Message ⊎ Directives) × ConfigReader

unfoldable pub include_file :
    String → (Message ⊎ Directives) × ConfigReader → Directives × ConfigReader
include_file path (inl e, r) = (no_directives, note path e r)
include_file path (inr ds, r) = (ds, r)

unfoldable pub include_files : Include → List String → ConfigReader → Directives × ConfigReader
include_files parse [] r = (no_directives, r)
include_files parse (path ∷ paths) r =
    let (ds, r') = include_file path (parse path r) in
    let (more, r'') = include_files parse paths r' in (append ds more, r'')

-- `directive name args;`
unfoldable pub simple_directive :
    (String → ConfigReader → Directives × ConfigReader)
    → String
    → List String
    → ConfigReader
    → Directives × ConfigReader
simple_directive include file [] r = (no_directives, r)
simple_directive include file (name ∷ []) r = (one name [] no_directives file, r)
simple_directive include file (name ∷ arg ∷ args) r =
    if str_eq name "include" then include arg r else (one name (arg ∷ args) no_directives file, r)

unfoldable pub parse_block :
    (String → ConfigReader → Directives × ConfigReader)
    → String
    → ℕ
    → List Token
    → List String
    → ConfigReader
    → Block × ConfigReader
parse_block include file zero ts words r = (failed out_of_fuel, r)
parse_block include file (suc fuel) [] words r = (block no_directives [], r)
parse_block include file (suc fuel) (word w ∷ ts) words r =
    parse_block include file fuel ts (words ++ w ∷ []) r
parse_block include file (suc fuel) (semicolon ∷ ts) words r =
    let (ds, r') = simple_directive include file words r in
    let (more, r'') = parse_block include file fuel ts [] r' in (before ds more, r'')
parse_block include file (suc fuel) (open_brace ∷ ts) [] r = (failed bare_block, r)
parse_block include file (suc fuel) (open_brace ∷ ts) (name ∷ args) r =
    let (inner, r') = parse_block include file fuel ts [] r in
    elim inner [
      | failed e ↦ (failed e, r')
      | block children rest ↦
          let (more, r'') = parse_block include file fuel rest [] r' in
          (before (one name args children file) more, r'')
    ]
parse_block include file (suc fuel) (close_brace ∷ ts) words r = (block no_directives ts, r)

abbrev pub in_path : String → Block × ConfigReader → (Message ⊎ Directives) × ConfigReader
in_path path (block ds rest, r) = (inr ds, r)
in_path path (failed e, r) = (inl (in_file path e), r)

module _ (files : Files) (b : ConfigBounds) where
  -- the files that a pattern names
  abbrev pub include_pattern : Include → String → String → ConfigReader → Directives × ConfigReader
  include_pattern parse file pattern r =
      let (paths, r') = expand files b pattern (files.dir file) r in include_files parse paths r'

  unfoldable pub parse_source :
      Include → String → Option String × ConfigReader → (Message ⊎ Directives) × ConfigReader
  parse_source parse path (none, r) = (inr no_directives, r)
  parse_source parse path (some src, r) =
      let tokens = tokenize src in
      in_path path (parse_block (include_pattern parse path) path (suc (length tokens)) tokens [] r)

  -- nginxParseFile at depth max_depth + 1 - room
  unfoldable pub parse_file : ℕ → Include
  parse_file zero path r = (inl (nested_includes b.max_depth), r)
  parse_file (suc room) path r = parse_source (parse_file room) path (read files b path r)

module _ (path_unescape : String → Option String) where
  abbrev pub first_arg : List String → List String
  first_arg [] = []
  first_arg (a ∷ args) = a ∷ []

  -- the first arguments of the directives of a name
  unfoldable pub args_of : String → Directives → List String
  args_of name no_directives = []
  args_of name (directive n args children file rest) =
      (if str_eq n name then first_arg args else []) ++ args_of name rest

  unfoldable pub nginx_certificates : Directives → List CertificateRef
  nginx_certificates nodes =
      pair_certificates path_unescape (args_of "ssl_certificate" nodes)
        (args_of "ssl_certificate_key" nodes) []

  unfoldable pub server_names : Directives → List String
  server_names no_directives = []
  server_names (directive n args children file rest) =
      (if str_eq n "server_name" then args else []) ++ server_names rest

  unfoldable pub listens : Directives → List String
  listens no_directives = []
  listens (directive n args children file rest) =
      (if str_eq n "listen" then join " " args ∷ [] else []) ++ listens rest

  abbrev pub or_inherited : List CertificateRef → List CertificateRef → List CertificateRef
  or_inherited [] inherited = inherited
  or_inherited (c ∷ cs) inherited = c ∷ cs

  unfoldable pub nginx_server : Directives → String → List CertificateRef → Vhost
  nginx_server children file inherited = record {
    server = "nginx";
    file = file;
    names = server_names children;
    listen = listens children;
    certs = or_inherited (nginx_certificates children) inherited;
  }

  -- the loop of walkNginx over the directives of a level, `level` what they inherit
  unfoldable pub walk_level : List CertificateRef → Directives → List Vhost
  walk_level level no_directives = []
  walk_level level (directive name args children file rest) =
      let inner = walk_level (level ++ nginx_certificates children) children in
      let more = walk_level level rest in
      (if str_eq name "server" then nginx_server children file level ∷ [] else inner) ++ more

  unfoldable pub walk_nginx : Directives → List CertificateRef → List Vhost
  walk_nginx nodes inherited = walk_level (inherited ++ nginx_certificates nodes) nodes

  -- parseNginx
  unfoldable pub parse_nginx :
      Files → ConfigBounds → String → ConfigReader → (Message ⊎ List Vhost) × ConfigReader
  parse_nginx files b path r =
      let (tree, r') = parse_file files b (suc b.max_depth) path r in
      elim tree [ inl e ↦ (inl e, r') | inr nodes ↦ (inr (walk_nginx nodes []), r') ]
