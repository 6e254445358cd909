-- ===== src/Collect/FileSystem.antt =====
-- The collector of certificate files (internal/collect/fs.go).
use dtp_discovery_agent.Common.{
  ℕ, ◌^◌, ℤ, String, Bool, true, false, not, ◌&&◌, ◌||◌, Option, none, some, List, [], ◌∷◌, map,
  ◌⊎◌, inl, inr, str_eq, contains, if◌then◌else◌,
}
use dtp_discovery_agent.Common.Text.{join}
use dtp_discovery_agent.Parse.Chain.{
  LeafWithChain, Store, Work, verify_budget, new_store, leaves, chain_for,
}
use dtp_discovery_agent.Parse.Pem.{Codecs, PemResult, certificates, pkcs12, encode_pem}
use dtp_discovery_agent.Collect.Result.{Observation, start, note_shortfall}
use dtp_discovery_agent.Collect.Run.{RunCap, Sweeper}
use dtp_discovery_agent.Collect.Config.Reader.{OsError, FileInfo}
use dtp_discovery_agent.Collect.ServerConfig.{Collecting, observe_all, positive_or}
use dtp_discovery_agent.Collect.Walk.{
  FsState, WalkHost, WalkBounds, is_there, matches_of, walk_roots,
}
pub mod Sweeping
mod Bounds
pub mod Examples

pub record FsBounds : Type 0 where
  pub roots : List String
  pub max_file_bytes : ℤ
  pub max_depth : ℤ
  pub max_files : ℤ

pub record SettledFs : Type 0 where
  pub roots : List String
  pub bounds : WalkBounds

-- DefaultBounds, on Windows or not
abbrev pub default_bounds : Bool → SettledFs
default_bounds windows = record {
  roots =
      if windows
      then "C:\\ProgramData\\ssl" ∷ "C:\\inetpub" ∷ []
      else "/etc/ssl" ∷ "/etc/pki" ∷ "/etc/tls" ∷ "/etc/nginx" ∷ "/etc/apache2" ∷ "/etc/httpd"
        ∷ "/etc/haproxy" ∷ "/etc/letsencrypt" ∷ "/etc/ipsec.d" ∷ "/opt/*/ssl" ∷ "/usr/local/etc/ssl"
        ∷ "/var/lib/acme" ∷ [];
  bounds = record { max_file_bytes = 2 ^ 20; max_depth = 8; max_files = 50000 };
}

abbrev pub roots_or : List String → List String → List String
roots_or [] d = d
roots_or (r ∷ rs) d = r ∷ rs

unfoldable pub with_defaults : Bool → FsBounds → SettledFs
with_defaults windows b =
    let d = default_bounds windows in
    record {
      roots = roots_or b.roots d.roots;
      bounds = record {
        max_file_bytes = positive_or b.max_file_bytes d.bounds.max_file_bytes;
        max_depth = positive_or b.max_depth d.bounds.max_depth;
        max_files = positive_or b.max_files d.bounds.max_files;
      };
    }

abbrev pub cert_extensions : List String
cert_extensions =
    ".pem" ∷ ".crt" ∷ ".cer" ∷ ".cert" ∷ ".der" ∷ ".p12" ∷ ".pfx" ∷ ".chain" ∷ ".bundle" ∷ []

abbrev pub is_pkcs12 : String → Bool
is_pkcs12 ext = str_eq ext ".p12" || str_eq ext ".pfx"

abbrev pub source_file : String
source_file = "file"

-- package filepath, as far as fs.go uses it beyond Files, and what the walk finds
pub record FsHost : Type 0 where
  pub windows : Bool
  pub walk : WalkHost
  pub codecs : Codecs
  pub now : ℕ → ℕ
  pub lower_ext : String → String  -- strings.ToLower(filepath.Ext(path))
  pub without_ext : String → String  -- strings.TrimSuffix(path, filepath.Ext(path))
  pub base : String → String

module _ (h : FsHost) where
  open h use {windows, walk, codecs, now, lower_ext, without_ext, base}
  open walk use {files, world}

  abbrev pub is_plain : OsError ⊎ FileInfo → Bool
  is_plain (inl e) = false
  is_plain (inr info) = not info.is_dir

  -- the loop of siblingKey
  abbrev pub first_plain : List String → Option String
  first_plain [] = none
  first_plain (p ∷ ps) = if is_plain (files.stat p) then some p else first_plain ps

  -- siblingKey; the empty text is that there is none
  unfoldable pub sibling_key : String → String
  sibling_key path =
      let stem = without_ext path in
      let privkey = files.join_paths (files.dir path) "privkey.pem" in
      elim (first_plain (
        join "" (stem ∷ ".key" ∷ [])
        ∷ join "" (stem ∷ "-key.pem" ∷ [])
        ∷ join "" (stem ∷ ".key.pem" ∷ [])
        ∷ join "" (stem ∷ "-privkey.pem" ∷ [])
        ∷ [])) [
          | some p ↦ p
          | none ↦
              if str_eq (base path) "fullchain.pem" && is_there (files.stat privkey)
              then privkey
              else ""
        ]

  -- the certificates of a file, with no result for an error
  unfoldable pub parse_file : String → String → Option PemResult
  parse_file path contents =
      if is_pkcs12 (lower_ext path)
      then pkcs12 codecs contents ""
      else some (certificates codecs contents)

  abbrev pub key_path_of : String → PemResult → String
  key_path_of path parsed = if parsed.had_private_key then path else sibling_key path

  abbrev pub is_none : List LeafWithChain → Bool
  is_none [] = true
  is_none (l ∷ ls) = false

  -- the leaves of the store, or the first certificate, where there is a key
  unfoldable pub findings :
      Store → ℕ → String → List LeafWithChain × Work → List LeafWithChain × Work
  findings store first key_path (found, work) =
      if is_none found && (not (str_eq key_path "") && not work.short.interrupted)
      then (let (chain, work') = chain_for world store.index first work in
          (record { leaf = first; chain = chain } ∷ [], work'))
      else (found, work)

  unfoldable pub observation_of : String → String → FileInfo → ℕ → LeafWithChain → Observation
  observation_of path key_path info at f = record {
    certificate_pem = encode_pem codecs world (f.leaf ∷ []);
    chain_pem = encode_pem codecs world f.chain;
    source = source_file;
    location = path;
    binding = [];
    private_key_present = not (str_eq key_path "");
    private_key_location = key_path;
    file_mode = info.mode;
    file_owner = info.owner;
    observed_at = at;
  }

  -- examine, once the certificates are parsed
  unfoldable pub report_file : String → FileInfo → String → List ℕ → Collecting → Collecting
  report_file path info key_path [] s = s
  report_file path info key_path (first ∷ others) s =
      let store =
        new_store world (now s.polls) verify_budget s.polls (map (λ p. some p) (first ∷ others))
          [] in
      let (found, work) = findings store first key_path (leaves world store) in
      observe_all (map (λ f. observation_of path key_path info (now work.polls) f) found)
        (record s {
          result = note_shortfall source_file path work.short s.result;
          polls = work.polls;
        })

  abbrev pub report_parsed : String → FileInfo → Option PemResult → Collecting → Collecting
  report_parsed path info none s = s
  report_parsed path info (some parsed) s =
      report_file path info (key_path_of path parsed) parsed.certificates s

  abbrev pub report_contents : String → FileInfo → String → Collecting → Collecting
  report_contents path info contents s = report_parsed path info (parse_file path contents) s

  abbrev pub is_candidate : String → Bool
  is_candidate path = contains cert_extensions (lower_ext path)

  unfoldable pub sweep_roots : WalkBounds → List String → FsState → FsState
  sweep_roots b [] s = s
  sweep_roots b (root ∷ roots) s = sweep_roots b roots (
      walk_roots walk source_file b is_candidate report_contents
        (matches_of walk source_file b is_candidate report_contents root (files.glob root)) s)

  -- FS.Collect
  unfoldable pub collect : FsBounds → ℕ → RunCap → FsState
  collect bounds polls limit =
      let b = with_defaults windows bounds in
      sweep_roots b.bounds b.roots (record {
        work = record { result = start source_file; limit = limit; polls = polls };
        seen = 0;
        examined = [];
        reads = [];
      })

  abbrev pub sweeper : FsBounds → ℕ → Sweeper
  sweeper bounds polls = record {
    source = source_file;
    collect = λ earlier limit.
        ((collect bounds polls limit).work.result, (collect bounds polls limit).work.limit);
  }
