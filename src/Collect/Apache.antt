-- ===== src/Collect/Apache.antt =====
-- The reading of an Apache configuration (internal/collect/apache.go): logical lines, fields,
-- sections and sites. A section's reader returns the lines behind the section where the source
-- returns a position. Its fuel is more than the number of lines, and `room` is how deep includes may
-- still nest. The state is the reader with the ServerRoot.
use dtp_discovery_agent.Common.{
  ℕ, zero, suc, ◌+◌, String, ◌⊎◌, inl, inr, Bool, true, false, ◌||◌, Option, none, some, List, [],
  ◌∷◌, ◌++◌, map, str_eq, ◌==◌, if◌then◌else◌, length, drop,
}
use mathlib.Core.List.{reverse}
use Prim.Native.Char.{Char, code}
use dtp_discovery_agent.Common.Text.{
  runes, of_runes, codes, codes_eq, lower, equal_fold, trim_space, has_prefix, trim_prefix,
  trim_suffix, ends_in, without_last, split_runes, index_of,
}
use dtp_discovery_agent.Collect.Result.{Message, in_file, nested_includes, out_of_fuel}
use dtp_discovery_agent.Collect.Config.Directives.{
  Directives, no_directives, directive, append, one,
}
use dtp_discovery_agent.Collect.Config.References.{CertificateRef, Vhost, pair_certificates}
use dtp_discovery_agent.Collect.Config.Reader.{
  Files, ConfigBounds, ConfigReader, note, read, expand,
}
mod Fields
mod Inheritance
mod Sections
mod Examples

-- The loop of apacheFields: the quote it is in, whether a field was started, and its characters.
pub record Fielder : Type 0 where
  pub quote : Option ℕ
  pub started : Bool
  pub current : List Char

abbrev pub flushed : Bool → List Char → List String
flushed false current = []
flushed true current = of_runes current ∷ []

unfoldable pub field_step : Option ℕ → Bool → List Char → Char → Fielder × List String
field_step (some q) started current c =
    if code c == q
    then (record { quote = none; started = started; current = current }, [])
    else (record { quote = some q; started = started; current = current ++ c ∷ [] }, [])
field_step none started current c =
    if code c == b'"' || code c == b'\''
    then (record { quote = some (code c); started = true; current = current }, [])
    else if code c == b' ' || code c == b'\t'
    then (
      record { quote = none; started = false; current = if started then [] else current },
      flushed started current,
    )
    else (record { quote = none; started = true; current = current ++ c ∷ [] }, [])

unfoldable pub fields_from : Fielder → List Char → List String
fields_from f [] = flushed f.started f.current
fields_from f (c ∷ cs) =
    (field_step f.quote f.started f.current c).1
    ++ fields_from (field_step f.quote f.started f.current c).0 cs

unfoldable pub apache_fields : String → List String
apache_fields line =
    fields_from (record { quote = none; started = false; current = [] }) (runes line)

-- TrimRight(raw, "\r"): all of them
abbrev pub drop_returns : List Char → List Char
drop_returns [] = []
drop_returns (c ∷ cs) = let rest = drop_returns cs in if code c == b'\r' then rest else c ∷ cs

abbrev pub trim_returns : List Char → List Char
trim_returns cs = reverse (drop_returns (reverse cs))

-- the loop of apacheLogicalLines, with what is pending
unfoldable pub logical_from : List Char → List (List Char) → List (List Char)
logical_from [] [] = []
logical_from (c ∷ cs) [] = (c ∷ cs) ∷ []
logical_from pending (raw ∷ raws) =
    let line = trim_returns raw in
    let longer = logical_from (pending ++ without_last line) raws in
    let rest = logical_from [] raws in
    if ends_in b'\\' line then longer else (pending ++ line) ∷ rest

unfoldable pub logical_lines : String → List String
logical_lines src = map of_runes (logical_from [] (split_runes b'\n' (runes src)))

-- The parser's state.
pub record ApacheState : Type 0 where
  pub reader : ConfigReader
  pub server_root : String

abbrev pub Include : Type 0
Include = String → ApacheState → (Message ⊎ Directives) × ApacheState

unfoldable pub note_in : String → Message → ApacheState → ApacheState
note_in path e s = record s { reader = note path e s.reader }

unfoldable pub include_file :
    String → (Message ⊎ Directives) × ApacheState → Directives × ApacheState
include_file path (inl e, s) = (no_directives, note_in path e s)
include_file path (inr ds, s) = (ds, s)

unfoldable pub include_files : Include → List String → ApacheState → Directives × ApacheState
include_files parse [] s = (no_directives, s)
include_files parse (path ∷ paths) s =
    let (ds, s') = include_file path (parse path s) in
    let (more, s'') = include_files parse paths s' in (append ds more, s'')

-- What a line is to the section's reader, once it is trimmed.
pub data Line : Type 0 where
  blank : Line
  closing : Line
  opening : String → List String → Line
  setting : String → List String → Line

abbrev pub opened : List String → Line
opened [] = blank
opened (name ∷ args) = opening name args

abbrev pub set : List String → Line
set [] = blank
set (name ∷ args) = setting name args

unfoldable pub classify : String → Line
classify raw =
    let line = trim_space raw in
    if str_eq line "" || has_prefix line "#"
    then blank
    else if has_prefix line "</"
    then closing
    else if has_prefix line "<"
    then opened (apache_fields (of_runes (trim_suffix b'>' (runes (trim_prefix line "<")))))
    else set (apache_fields line)

abbrev pub named : String → String → Bool
named name low = codes_eq (lower name) (codes low)

-- One directive outside sections: ServerRoot, an include, or a node
unfoldable pub apply_setting :
    (String → ApacheState → Directives × ApacheState)
    → String
    → String
    → List String
    → ApacheState
    → Directives × ApacheState
apply_setting include file name [] s =
    if named name "serverroot" || (named name "include" || named name "includeoptional")
    then (no_directives, s)
    else (one name [] no_directives file, s)
apply_setting include file name (arg ∷ args) s =
    if named name "serverroot"
    then (no_directives, record s { server_root = arg })
    else if named name "include" || named name "includeoptional"
    then include arg s
    else (one name (arg ∷ args) no_directives file, s)

-- What the section's reader returns: the directives, and the lines behind the section.
pub data Section : Type 0 where
  section : Directives → List String → Section
  stuck : Section

abbrev pub before : Directives → Section → Section
before ds (section more rest) = section (append ds more) rest
before ds stuck = stuck

unfoldable pub parse_section :
    (String → ApacheState → Directives × ApacheState)
    → String
    → ℕ
    → List String
    → ApacheState
    → Section × ApacheState
parse_section include file zero lines s = (stuck, s)
parse_section include file (suc fuel) [] s = (section no_directives [], s)
parse_section include file (suc fuel) (line ∷ lines) s = elim (classify line) [
  | blank ↦ parse_section include file fuel lines s
  | closing ↦ (section no_directives lines, s)
  | opening name args ↦
      let (inner, s') = parse_section include file fuel lines s in
      elim inner [
        | stuck ↦ (stuck, s')
        | section children rest ↦
            let (more, s'') = parse_section include file fuel rest s' in
            (before (one name args children file) more, s'')
      ]
  | setting name args ↦
      let (ds, s') = apply_setting include file name args s in
      let (more, s'') = parse_section include file fuel lines s' in (before ds more, s'')
]

abbrev pub in_path : String → Section × ApacheState → (Message ⊎ Directives) × ApacheState
in_path path (section ds rest, s) = (inr ds, s)
in_path path (stuck, s) = (inl (in_file path out_of_fuel), s)

module _ (files : Files) (b : ConfigBounds) where
  -- the files that a pattern names, below ServerRoot
  abbrev pub include_pattern : Include → String → ApacheState → Directives × ApacheState
  include_pattern parse pattern s =
      let (paths, r) = expand files b pattern s.server_root s.reader in
      include_files parse paths (record s { reader = r })

  unfoldable pub parse_source :
      Include → String → Option String → ApacheState → (Message ⊎ Directives) × ApacheState
  parse_source parse path none s = (inr no_directives, s)
  parse_source parse path (some src) s =
      let lines = logical_lines src in
      in_path path (parse_section (include_pattern parse) path (suc (length lines)) lines s)

  -- apacheParser.file at depth max_depth + 1 - room
  unfoldable pub parse_file : ℕ → Include
  parse_file zero path s = (inl (nested_includes b.max_depth), s)
  parse_file (suc room) path s =
      let (src, r) = read files b path s.reader in
      parse_source (parse_file room) path src (record s { reader = r })

-- LastIndex of a colon, and what stands before it and from it on
abbrev pub before_colon : List Char → Option (List Char × List Char)
before_colon [] = none
before_colon (c ∷ cs) = elim (before_colon cs) [
  | some (head, tail) ↦ some (c ∷ head, tail)
  | none ↦ if code c == b':' then some ([], c ∷ cs) else none
]

abbrev pub has_code : ℕ → List Char → Bool
has_code n [] = false
has_code n (c ∷ cs) = code c == n || has_code n cs

abbrev pub without_port : Option (List Char × List Char) → List Char → List Char
without_port none name = name
without_port (some ([], tail)) name = name
without_port (some (c ∷ head, tail)) name = if has_code b']' tail then name else c ∷ head

unfoldable pub apache_server_name : String → String
apache_server_name raw =
    let name : List Char = elim (index_of (codes "://") (codes raw)) [
      | none ↦ runes raw
      | some i ↦ drop (i + 3) (runes raw)
    ] in
    of_runes (without_port (before_colon name) name)

module _ (path_unescape : String → Option String) where
  abbrev pub first_arg : List String → List String
  first_arg [] = []
  first_arg (a ∷ args) = a ∷ []

  unfoldable pub args_of : String → Directives → List String
  args_of low no_directives = []
  args_of low (directive n args children file rest) =
      (if named n low then first_arg args else []) ++ args_of low rest

  unfoldable pub apache_certificates : Directives → List CertificateRef
  apache_certificates nodes =
      pair_certificates path_unescape (args_of "sslcertificatefile" nodes)
        (args_of "sslcertificatekeyfile" nodes) (args_of "sslcertificatechainfile" nodes)

  -- the inner `walk` of apacheVirtualHost
  unfoldable pub site_names : Directives → List String
  site_names no_directives = []
  site_names (directive name args children file rest) =
      let nested = site_names children in
      let more = site_names rest in
      (if equal_fold name "servername"
        then map apache_server_name (first_arg args)
        else if equal_fold name "serveralias"
        then map apache_server_name args
        else nested)
      ++ more

  abbrev pub or_inherited : List CertificateRef → List CertificateRef → List CertificateRef
  or_inherited [] inherited = inherited
  or_inherited (c ∷ cs) inherited = c ∷ cs

  unfoldable pub apache_virtual_host :
      List String → Directives → String → List CertificateRef → Vhost
  apache_virtual_host args children file inherited = record {
    server = "apache";
    file = file;
    names = site_names children;
    listen = args;
    certs = or_inherited (apache_certificates children) inherited;
  }

  -- the loop of walkApache over the directives of a level, `level` what they inherit
  unfoldable pub walk_level : List CertificateRef → Directives → List Vhost
  walk_level level no_directives = []
  walk_level level (directive name args children file rest) =
      let inner = walk_level (level ++ apache_certificates children) children in
      let more = walk_level level rest in
      (if equal_fold name "virtualhost"
        then apache_virtual_host args children file level ∷ []
        else inner)
      ++ more

  unfoldable pub walk_apache : Directives → List CertificateRef → List Vhost
  walk_apache nodes inherited = walk_level (inherited ++ apache_certificates nodes) nodes

  -- parseApache
  unfoldable pub parse_apache :
      Files → ConfigBounds → String → ConfigReader → (Message ⊎ List Vhost) × ConfigReader
  parse_apache files b path r =
      let (tree, s) =
        parse_file files b (suc b.max_depth) path
          (record { reader = r; server_root = files.dir path }) in
      elim tree [ inl e ↦ (inl e, s.reader) | inr nodes ↦ (inr (walk_apache nodes []), s.reader) ]
