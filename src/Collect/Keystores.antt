-- ===== src/Collect/Keystores.antt =====
-- The collector of Java keystores (internal/collect/keystore.go), over the walk that it shares with
-- the collector of files. A file's bytes and the text of a reader's error are parameters.
use dtp_discovery_agent.Common.{
  ℕ, suc, ◌*◌, ◌^◌, ℤ, String, Bool, true, false, not, ◌&&◌, ◌||◌, Option, none, some, List, [],
  ◌∷◌, ◌++◌, map, ◌==◌, str_eq, contains, if◌then◌else◌,
}
use dtp_discovery_agent.Common.Text.{equal_fold, join}
use dtp_discovery_agent.Parse.Chain.{
  LeafWithChain, Shortfall, Store, Work, no_shortfall, add, verify_budget, new_store, leaves,
  chain_for,
}
use dtp_discovery_agent.Parse.Keystore.{
  KeystoreError, not_a_keystore, bad_version, too_many_entries, KeystoreEntry, java_keystore,
}
use dtp_discovery_agent.Parse.Pem.{Codecs, PemResult, pkcs12, encode_pem}
use dtp_discovery_agent.Collect.Result.{Observation, start, add_error, incomplete, note_shortfall}
use dtp_discovery_agent.Collect.Run.{RunCap, Sweeper}
use dtp_discovery_agent.Collect.Config.Reader.{FileInfo}
use dtp_discovery_agent.Collect.ServerConfig.{Collecting, clear_completed, observe_one, positive_or}
use dtp_discovery_agent.Collect.Walk.{
  FsState, WalkHost, WalkBounds, file_error, give_up_all, matches_of, walk_roots,
}
use dtp_discovery_agent.Collect.FileSystem.{roots_or}
mod Sweeping

pub record KeystoreBounds : Type 0 where
  pub roots : List String
  pub max_file_bytes : ℤ
  pub max_depth : ℤ
  pub max_files : ℤ

pub record SettledKeystores : Type 0 where
  pub roots : List String
  pub bounds : WalkBounds

-- the platforms that DefaultKeystoreBounds tells apart
pub data Platform : Type 0 where
  windows : Platform
  darwin : Platform
  elsewhere : Platform

abbrev pub unix_roots : List String
unix_roots =
    "/etc/ssl/certs/java" ∷ "/etc/pki/java" ∷ "/etc/pki/ca-trust/extracted/java" ∷ "/usr/lib/jvm"
    ∷ "/usr/java" ∷ "/opt/java" ∷ "/opt/jdk" ∷ "/etc/tomcat*" ∷ "/var/lib/tomcat*/conf"
    ∷ "/usr/share/tomcat*/conf" ∷ "/opt/tomcat*/conf" ∷ "/etc/elasticsearch"
    ∷ "/usr/share/elasticsearch/config" ∷ "/etc/opensearch" ∷ "/etc/kafka" ∷ "/opt/kafka/config"
    ∷ "/etc/solr" ∷ "/opt/*/conf" ∷ "/opt/*/config" ∷ []

abbrev pub default_roots : Platform → List String
default_roots windows =
    "C:\\Program Files\\Java" ∷ "C:\\Program Files\\Apache Software Foundation"
    ∷ "C:\\ProgramData\\*\\conf" ∷ []
default_roots darwin =
    unix_roots
    ++ "/Library/Java/JavaVirtualMachines" ∷ "/opt/homebrew/opt/openjdk" ∷ "/usr/local/opt/openjdk"
      ∷ []
default_roots elsewhere = unix_roots

unfoldable pub with_defaults : Platform → KeystoreBounds → SettledKeystores
with_defaults platform b = record {
  roots = roots_or b.roots (default_roots platform);
  bounds = record {
    max_file_bytes = positive_or b.max_file_bytes (8 * 2 ^ 20);
    max_depth = positive_or b.max_depth 6;
    max_files = positive_or b.max_files 5000;
  };
}

abbrev pub keystore_extensions : List String
keystore_extensions = ".jks" ∷ ".jceks" ∷ ".keystore" ∷ ".truststore" ∷ ".ks" ∷ ".p12" ∷ ".pfx" ∷ []

abbrev pub source_java_keystore : String
source_java_keystore = "java_keystore"

pub record KeystoreHost : Type 0 where
  pub platform : Platform
  pub java_home : String
  pub walk : WalkHost
  pub codecs : Codecs
  pub now : ℕ → ℕ
  pub file_name : String → String
  pub lower_ext : String → String
  pub bytes : String → List ℕ
  pub parse_certificate : List ℕ → Option ℕ
  pub encode_rune : ℕ → List ℕ
  pub utf16_text : List ℕ → String
  pub error_words : KeystoreError → String

-- whether the bytes are no Java keystore at all
abbrev pub is_foreign : KeystoreError → Bool
is_foreign not_a_keystore = true
is_foreign (bad_version n) = true
is_foreign (too_many_entries count bytes) = true
is_foreign other = false

-- What readKeystore returns: that the file is not one, or entries, their format and an error
pub data Reading : Type 0 where
  foreign : Reading
  reading : List (KeystoreEntry ℕ) → String → Option KeystoreError → Reading

abbrev pub keystore_format : List ℕ → String
keystore_format (a ∷ b ∷ c ∷ d ∷ rest) =
    if a == 206 && (b == 206 && (c == 206 && d == 206)) then "jceks" else "jks"
keystore_format other = "jks"

abbrev pub of_bundle : Option PemResult → Reading
of_bundle none = foreign
of_bundle (some r) =
    reading
      (record { alias = ""; certificates = r.certificates; has_private_key = r.had_private_key }
        ∷ [])
      "pkcs12" none

-- the loop over an entry's findings: whether all were recorded
unfoldable pub observe_while : List Observation → Collecting → Bool × Collecting
observe_while [] s = (true, s)
observe_while (o ∷ os) s =
    let (taken, s') = observe_one o s in
    elim taken [ true ↦ observe_while os s' | false ↦ (false, s') ]

abbrev pub key_location : String → Bool → String
key_location path has_key = if has_key then path else ""

abbrev pub finds_none : List LeafWithChain → Bool
finds_none [] = true
finds_none (l ∷ ls) = false

-- the deferred noteShortfall
unfoldable pub finish : String → Shortfall → Collecting → Collecting
finish path short s = record s { result = note_shortfall source_java_keystore path short s.result }

module _ (h : KeystoreHost) where
  open h use {
    platform, java_home, walk, codecs, now, file_name, lower_ext, bytes, parse_certificate,
    encode_rune, utf16_text, error_words,
  }
  open walk use {files, world}

  abbrev pub looks_like_keystore : String → Bool
  looks_like_keystore path =
      equal_fold (file_name path) "cacerts" || contains keystore_extensions (lower_ext path)

  abbrev pub java_reading : String → List (KeystoreEntry ℕ) × Option KeystoreError → Reading
  java_reading contents (entries, none) = reading entries (keystore_format (bytes contents)) none
  java_reading contents (entries, some e) =
      if is_foreign e
      then of_bundle (pkcs12 codecs contents "")
      else reading entries (keystore_format (bytes contents)) (some e)

  unfoldable pub read_keystore : String → Reading
  read_keystore contents =
      java_reading contents
        (java_keystore parse_certificate encode_rune utf16_text (bytes contents))

  unfoldable pub keystore_observation :
      String → String → KeystoreEntry ℕ → FileInfo → ℕ → LeafWithChain → Observation
  keystore_observation path format entry info at f = record {
    certificate_pem = encode_pem codecs world (f.leaf ∷ []);
    chain_pem = encode_pem codecs world f.chain;
    source = source_java_keystore;
    location = join "" (path ∷ ":" ∷ entry.alias ∷ []);
    binding = ("keystore", path) ∷ ("alias", entry.alias) ∷ ("format", format) ∷ [];
    private_key_present = entry.has_private_key;
    private_key_location = key_location path entry.has_private_key;
    file_mode = info.mode;
    file_owner = info.owner;
    observed_at = at;
  }

  -- the first certificate of an entry that has a key, with its chain
  abbrev pub first_of : Store → List ℕ → Work → Shortfall → List LeafWithChain × Work × Shortfall
  first_of store [] work short = ([], work, short)
  first_of store (first ∷ others) work short =
      let (chain, work') = chain_for world store.index first work in
      (record { leaf = first; chain = chain } ∷ [], work', add short work'.short)

  -- what is found in an entry, and the shortfall of it and those before
  unfoldable pub entry_findings :
      KeystoreEntry ℕ
      → Store
      → List LeafWithChain × Work
      → Shortfall
      → List LeafWithChain × Work × Shortfall
  entry_findings entry store (found, work) short =
      let sum = add short work.short in
      if finds_none found && (not work.short.interrupted && entry.has_private_key)
      then first_of store entry.certificates work sum
      else (found, work, sum)

  -- the loop over the entries, with what the budget has left
  unfoldable pub report_entries :
      String → String → FileInfo → ℕ → Shortfall → List (KeystoreEntry ℕ) → Collecting → Collecting
  report_entries path format info left short [] s = finish path short s
  report_entries path format info left short (entry ∷ entries) s = elim (world.cancelled s.polls) [
    | true ↦ finish path short (clear_completed (record s { polls = suc s.polls }))
    | false ↦
        let store =
          new_store world (now s.polls) left (suc s.polls) (map (λ p. some p) entry.certificates)
            [] in
        let (found, work, sum) = entry_findings entry store (leaves world store) short in
        let (all, s') =
          observe_while
            (map (λ f. keystore_observation path format entry info (now work.polls) f) found)
            (record s { polls = work.polls }) in
        elim all [
          | true ↦ report_entries path format info work.left sum entries s'
          | false ↦ finish path sum s'
        ]
  ]

  abbrev pub note_damage : String → Option KeystoreError → Collecting → Collecting
  note_damage path none s = s
  note_damage path (some e) s = record s {
    result = add_error (file_error source_java_keystore path (error_words e)) (incomplete s.result);
  }

  abbrev pub report_reading : String → FileInfo → Reading → Collecting → Collecting
  report_reading path info foreign s = s
  report_reading path info (reading entries format err) s =
      report_entries path format info verify_budget no_shortfall entries (note_damage path err s)

  -- examine, behind the reading of the file
  abbrev pub report_keystore : String → FileInfo → String → Collecting → Collecting
  report_keystore path info contents s = report_reading path info (read_keystore contents) s

  unfoldable pub sweep_roots : WalkBounds → List String → FsState → FsState
  sweep_roots b [] s = s
  sweep_roots b (root ∷ roots) s =
      let asked = record s { work = record s.work { polls = suc s.work.polls } } in
      elim (world.cancelled s.work.polls) [
        | true ↦ give_up_all asked
        | false ↦ sweep_roots b roots (
            walk_roots walk source_java_keystore b looks_like_keystore report_keystore
              (matches_of walk source_java_keystore b looks_like_keystore report_keystore root
                (files.glob root))
              asked)
      ]

  -- the roots below JAVA_HOME
  abbrev pub java_roots : List String
  java_roots =
      if str_eq java_home ""
      then []
      else files.join_paths (files.join_paths java_home "lib") "security"
        ∷ files.join_paths (files.join_paths (files.join_paths java_home "jre") "lib") "security"
        ∷ []

  -- Keystores.Collect
  unfoldable pub collect : KeystoreBounds → ℕ → RunCap → FsState
  collect bounds polls limit =
      let b = with_defaults platform bounds in
      sweep_roots b.bounds (b.roots ++ java_roots) (record {
        work = record { result = start source_java_keystore; limit = limit; polls = polls };
        seen = 0;
        examined = [];
        reads = [];
      })

  abbrev pub sweeper : KeystoreBounds → ℕ → Sweeper
  sweeper bounds polls = record {
    source = source_java_keystore;
    collect = λ earlier limit.
        ((collect bounds polls limit).work.result, (collect bounds polls limit).work.limit);
  }
