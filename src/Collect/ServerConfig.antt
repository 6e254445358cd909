-- ===== src/Collect/ServerConfig.antt =====
-- The collector of server configurations (internal/collect/serverconfig.go), and the names that it
-- hands to the listeners. Its bounds may be unset (nil, or not positive). `polls` counts how often
-- the context was asked, and `now` is the clock at such a point. What IIS reports is a parameter.
use dtp_discovery_agent.Common.{
  ℕ, zero, suc, ◌*◌, ◌^◌, ℤ, pos, negsuc, String, Bool, true, false, not, ◌&&◌, ◌||◌, Option, none,
  some, List, [], ◌∷◌, ◌++◌, map, ◌⊎◌, inl, inr, str_eq, contains, if◌then◌else◌,
}
use dtp_discovery_agent.Common.Text.{runes, codes, has_prefix, contains_any, join, fields}
use dtp_discovery_agent.Common.Sorting.{sort_strings}
use dtp_discovery_agent.Parse.Certificate.{World}
use dtp_discovery_agent.Parse.Chain.{Shortfall, verify_budget, new_store, chain_for}
use dtp_discovery_agent.Parse.Pem.{Codecs, certificates, encode_pem}
use dtp_discovery_agent.Collect.Result.{
  Observation, Error, Message, Result, unreadable, no_certificate, text, start, add_error,
  incomplete, note_shortfall,
}
use dtp_discovery_agent.Collect.Run.{RunCap, Sweeper, observe_within}
use dtp_discovery_agent.Collect.Config.References.{CertificateRef, Vhost}
use dtp_discovery_agent.Collect.Config.Reader.{
  OsError, Files, ConfigBounds, ConfigReader, source_server_config, new_config_reader,
}
use dtp_discovery_agent.Collect.Nginx.{parse_nginx}
use dtp_discovery_agent.Collect.Apache.{parse_apache}
pub mod Sweeping
pub mod Sees
mod Names
pub mod Examples

pub record ServerConfigBounds : Type 0 where
  pub nginx_configs : Option (List String)
  pub apache_configs : Option (List String)
  pub max_files : ℤ
  pub max_file_bytes : ℤ
  pub max_depth : ℤ

-- the bounds with all defaults in place
pub record Settled : Type 0 where
  pub nginx_configs : List String
  pub apache_configs : List String
  pub bounds : ConfigBounds

-- DefaultServerConfigBounds, on Windows or not
abbrev pub default_server_config_bounds : Bool → Settled
default_server_config_bounds windows = record {
  nginx_configs =
      if windows
      then "C:\\nginx\\conf\\nginx.conf" ∷ []
      else "/etc/nginx/nginx.conf" ∷ "/usr/local/nginx/conf/nginx.conf"
        ∷ "/usr/local/etc/nginx/nginx.conf" ∷ "/opt/homebrew/etc/nginx/nginx.conf" ∷ [];
  apache_configs =
      if windows
      then "C:\\Apache24\\conf\\httpd.conf" ∷ []
      else "/etc/apache2/apache2.conf" ∷ "/etc/apache2/httpd.conf" ∷ "/etc/httpd/conf/httpd.conf"
        ∷ "/usr/local/etc/httpd/httpd.conf" ∷ "/opt/homebrew/etc/httpd/httpd.conf" ∷ [];
  bounds = record { max_files = 500; max_file_bytes = 4 * 2 ^ 20; max_depth = 16 };
}

abbrev pub positive_or : ℤ → ℕ → ℕ
positive_or (pos zero) d = d
positive_or (pos (suc n)) d = suc n
positive_or (negsuc n) d = d

abbrev pub given_or : Option (List String) → List String → List String
given_or none d = d
given_or (some configs) d = configs

-- withDefaults
unfoldable pub with_defaults : Bool → ServerConfigBounds → Settled
with_defaults windows b =
    let d = default_server_config_bounds windows in
    record {
      nginx_configs = given_or b.nginx_configs d.nginx_configs;
      apache_configs = given_or b.apache_configs d.apache_configs;
      bounds = record {
        max_files = positive_or b.max_files d.bounds.max_files;
        max_file_bytes = positive_or b.max_file_bytes d.bounds.max_file_bytes;
        max_depth = positive_or b.max_depth d.bounds.max_depth;
      };
    }

-- a name that is no wildcard or catch-all
abbrev pub is_real_name : String → Bool
is_real_name n = not (str_eq n "") && (not (str_eq n "_") && not (has_prefix n "*"))

abbrev pub first_real : List String → Option String
first_real [] = none
first_real (n ∷ ns) = if is_real_name n then some n else first_real ns

abbrev pub first_or : List String → String → String
first_or [] d = d
first_or (x ∷ xs) d = x

unfoldable pub primary_name : Vhost → String
primary_name v = elim (first_real v.names) [
  | some n ↦ n
  | none ↦ first_or v.names (first_or v.listen "default")
]

unfoldable pub location : Vhost → String
location v = join "" (v.file ∷ ":" ∷ primary_name v ∷ [])

abbrev pub names_binding : List String → List (String × String)
names_binding [] = []
names_binding (n ∷ []) = ("server_name", n) ∷ []
names_binding (n ∷ m ∷ ns) = ("server_name", n) ∷ ("server_names", join " " (n ∷ m ∷ ns)) ∷ []

abbrev pub listen_binding : List String → List (String × String)
listen_binding [] = []
listen_binding (l ∷ ls) = ("listen", join " " (l ∷ ls)) ∷ []

unfoldable pub binding_of : Vhost → CertificateRef → List (String × String)
binding_of host ref =
    ("server", host.server)
    ∷ ("config_file", host.file)
    ∷ ("certificate_file", ref.certificate)
    ∷ (names_binding host.names ++ listen_binding host.listen)

-- a truncated store of chain candidates is only a shorter chain
abbrev pub softened : Shortfall → Shortfall
softened short =
    if short.truncated then record short { truncated = false; out_of_budget = true } else short

-- What the collector works on.
pub record Collecting : Type 0 where
  pub result : Result
  pub limit : RunCap
  pub polls : ℕ

pub record ServerHost : Type 0 where
  pub windows : Bool
  pub files : Files
  pub codecs : Codecs
  pub world : World
  pub path_unescape : String → Option String
  pub now : ℕ → ℕ
  pub iis_observations : List Observation × List Error × Bool

unfoldable pub add_problem : String → Message → Collecting → Collecting
add_problem place message s = record s {
  result =
      add_error (record { collector = source_server_config; message = message; location = place })
        s.result;
}

unfoldable pub clear_completed : Collecting → Collecting
clear_completed s = record s { result = incomplete s.result }

-- res.observe
unfoldable pub observe_one : Observation → Collecting → Bool × Collecting
observe_one o s =
    let (taken, r, l) = observe_within o s.result s.limit in
    (taken, record s { result = r; limit = l })

-- a file that is gone was seen clearly; one that cannot be read was not
unfoldable pub note_unread : Vhost → CertificateRef → OsError → Collecting → Collecting
note_unread host ref e s =
    add_problem (location host) (unreadable host.server ref.certificate (text e.words))
      (if e.is_not_exist then s else clear_completed s)

-- the problems of the reader, each of which leaves the result incomplete
unfoldable pub take_problems : List Error → Collecting → Collecting
take_problems [] s = s
take_problems (e ∷ es) s =
    take_problems es (record s { result = add_error e (incomplete s.result) })

abbrev pub Parser : Type 0
Parser = String → ConfigReader → (Message ⊎ List Vhost) × ConfigReader

unfoldable pub observe_all : List Observation → Collecting → Collecting
observe_all [] s = s
observe_all (o ∷ os) s =
    let (taken, s') = observe_one o s in elim taken [ true ↦ observe_all os s' | false ↦ s' ]

unfoldable pub add_problems : List Error → Collecting → Collecting
add_problems [] s = s
add_problems (e ∷ es) s = add_problems es (record s { result = add_error e s.result })

unfoldable pub collect_iis : List Observation × List Error × Bool → Collecting → Collecting
collect_iis (os, problems, complete) s =
    let s' = add_problems problems (observe_all os s) in if complete then s' else clear_completed s'

module _ (h : ServerHost) where
  open h use {windows, files, codecs, world, path_unescape, now, iis_observations}

  -- fileModeOf and fileOwnerOf
  abbrev pub file_mode_of : String → String
  file_mode_of path = elim (files.stat path) [ inl e ↦ "" | inr info ↦ info.mode ]

  abbrev pub file_owner_of : String → String
  file_owner_of path = elim (files.stat path) [ inl e ↦ "" | inr info ↦ info.owner ]

  -- the candidate issuers of the chain file, if one is named and can be read
  unfoldable pub chain_file : CertificateRef → List ℕ
  chain_file ref = if str_eq ref.chain "" then [] else elim (files.read_file ref.chain) [
    | inl e ↦ []
    | inr extra ↦ (certificates codecs extra).certificates
  ]

  unfoldable pub observation_of : Vhost → CertificateRef → ℕ → List ℕ → Bool → ℕ → Observation
  observation_of host ref served chain had_key at = record {
    certificate_pem = encode_pem codecs world (served ∷ []);
    chain_pem = encode_pem codecs world chain;
    source = source_server_config;
    location = location host;
    binding = binding_of host ref;
    private_key_present = not (str_eq ref.key "") || had_key;
    private_key_location = ref.key;
    file_mode = file_mode_of ref.certificate;
    file_owner = file_owner_of ref.certificate;
    observed_at = at;
  }

  -- the served certificate with its chain
  unfoldable pub record_served :
      Vhost → CertificateRef → ℕ → List ℕ → Bool → Collecting → Bool × Collecting
  record_served host ref served others had_key s =
      let store =
        new_store world (now s.polls) verify_budget s.polls (map (λ p. some p) others)
          (map (λ p. some p) (chain_file ref)) in
      let (chain, work) = chain_for world store.index served store.work in
      observe_one (observation_of host ref served chain had_key (now work.polls)) (record s {
        result = note_shortfall source_server_config ref.certificate (softened work.short) s.result;
        polls = work.polls;
      })

  unfoldable pub record_parsed :
      Vhost → CertificateRef → List ℕ → Bool → Collecting → Bool × Collecting
  record_parsed host ref [] had_key s =
      (true, add_problem (location host) (no_certificate host.server ref.certificate) s)
  record_parsed host ref (served ∷ others) had_key s =
      record_served host ref served others had_key s

  -- one round of record
  unfoldable pub record_ref : Vhost → CertificateRef → Collecting → Bool × Collecting
  record_ref host ref s = elim (files.read_file ref.certificate) [
    | inl e ↦ (true, note_unread host ref e s)
    | inr contents ↦
        let parsed = certificates codecs contents in
        record_parsed host ref parsed.certificates parsed.had_private_key s
  ]

  unfoldable pub record_refs : Vhost → List CertificateRef → Collecting → Collecting
  record_refs host [] s = s
  record_refs host (ref ∷ refs) s =
      let (recorded, s') = record_ref host ref s in
      elim recorded [ true ↦ record_refs host refs s' | false ↦ s' ]

  unfoldable pub record_hosts : List Vhost → Collecting → Collecting
  record_hosts [] s = s
  record_hosts (host ∷ hosts) s = record_hosts hosts (record_refs host host.certs s)

  unfoldable pub take_sites :
      String → (Message ⊎ List Vhost) × ConfigReader → Collecting → Collecting
  take_sites path (inl e, r) s = add_problem path e (clear_completed s)
  take_sites path (inr hosts, r) s = record_hosts hosts (take_problems r.problems s)

  -- one main configuration file, if it is there
  unfoldable pub read_config : Parser → String → Collecting → Collecting
  read_config parse path s = elim (files.stat path) [
    | inl e ↦ s
    | inr info ↦ take_sites path (parse path new_config_reader) s
  ]

  -- the loop over the files of a server: whether it came to its end
  unfoldable pub read_configs : Parser → List String → Collecting → Bool × Collecting
  read_configs parse [] s = (true, s)
  read_configs parse (path ∷ paths) s =
      let asked = record s { polls = suc s.polls } in
      elim (world.cancelled s.polls) [
        | true ↦ (false, clear_completed asked)
        | false ↦ read_configs parse paths (read_config parse path asked)
      ]

  unfoldable pub collect_apache : Settled → Bool × Collecting → Collecting
  collect_apache b (false, s) = s
  collect_apache b (true, s) =
      let (ended, s') =
        read_configs (parse_apache path_unescape files b.bounds) b.apache_configs s in
      elim ended [ true ↦ collect_iis iis_observations s' | false ↦ s' ]

  -- ServerConfig.Collect, from a moment of the context's life on
  unfoldable pub collect : ServerConfigBounds → ℕ → RunCap → Collecting
  collect bounds polls limit =
      let b = with_defaults windows bounds in
      collect_apache b (
        read_configs (parse_nginx path_unescape files b.bounds) b.nginx_configs
          (record { result = start source_server_config; limit = limit; polls = polls }))

  abbrev pub sweeper : ServerConfigBounds → ℕ → Sweeper
  sweeper bounds polls = record {
    source = source_server_config;
    collect =
        λ earlier limit. ((collect bounds polls limit).result, (collect bounds polls limit).limit);
  }

-- a key of a binding; one that is missing reads as the empty text
abbrev pub at_key : List (String × String) → String → String
at_key [] key = ""
at_key ((k, v) ∷ rest) key = if str_eq k key then v else at_key rest key

-- addServerName; the names taken so far stand for `seen`
unfoldable pub add_server_name : List String → String → List String
add_server_name names name =
    if str_eq name ""
      || (str_eq name "_" || (contains names name || contains_any (runes name) (codes "*~^$ ")))
    then names
    else names ++ name ∷ []

unfoldable pub add_server_names : List String → List String → List String
add_server_names names [] = names
add_server_names names (n ∷ ns) = add_server_names (add_server_name names n) ns

unfoldable pub names_of : List Observation → List String → List String
names_of [] names = names
names_of (o ∷ os) names = names_of os (
    add_server_name (add_server_names names (fields (at_key o.binding "server_names")))
      (at_key o.binding "server_name"))

unfoldable pub names_from : List Result → List String → List String
names_from [] names = names
names_from (r ∷ rs) names =
    names_from rs
      (if str_eq r.source source_server_config then names_of r.observations names else names)

-- ServerNamesFrom
unfoldable pub server_names_from : List Result → List String
server_names_from results = sort_strings (names_from results [])
