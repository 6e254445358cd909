-- ===== src/Collect/Result.antt =====
-- internal/collect/collect.go: observations, errors and one collector's outcome. Error texts are
-- values of `Message`, which keeps the format and its arguments.
use Prim.Native.String.{len}
use dtp_discovery_agent.Common.{
  ℕ, ◌+◌, String, Bool, true, false, ◌||◌, List, [], ◌∷◌, ◌++◌, if◌then◌else◌,
}
use dtp_discovery_agent.Parse.Chain.{Shortfall}

pub record Observation : Type 0 where
  pub certificate_pem : String
  pub chain_pem : String
  pub source : String
  pub location : String
  pub binding : List (String × String)
  pub private_key_present : Bool
  pub private_key_location : String
  pub file_mode : String
  pub file_owner : String
  pub observed_at : ℕ

-- len(o.CertificatePEM) + len(o.ChainPEM), in bytes
unfoldable pub size : Observation → ℕ
size o = len o.certificate_pem + len o.chain_pem

pub data Message : Type 0 where
  run_limit : ℕ → ℕ → String → Message  -- maxCount, maxBytes>>20 and what was not done
  store_truncated : Message  -- "holds more than %d certificates ..."
  store_shortened : Message  -- "holds more possible issuers than ..."
  too_many_files : ℕ → Message  -- "stopped after %d configuration files"
  file_too_large : ℕ → ℕ → Message  -- size and limit of a configuration file
  nested_includes : ℕ → Message  -- "includes nested more than %d deep"
  bare_block : Message  -- "a block opened with no directive"
  out_of_fuel : Message  -- of the model alone
  in_file : String → Message → Message  -- "%s: %w"
  unreadable : String → String → Message → Message  -- server, certificate and the error
  no_certificate : String → String → Message  -- server and certificate
  too_many_ports : ℕ → Message  -- "this host listens on more than %d ports ..."
  socket_table : List String → Message  -- "reading the socket table: %s", or the platform that has none
  text : String → Message  -- the text of another error

pub record Error : Type 0 where
  pub collector : String
  pub message : Message
  pub location : String

pub record Result : Type 0 where
  pub source : String
  pub observations : List Observation
  pub errors : List Error
  pub completed : Bool
  pub capped : Bool

-- Result{Source: source, Completed: true}, with which each collector starts
abbrev pub start : String → Result
start source = record {
  source = source;
  observations = [];
  errors = [];
  completed = true;
  capped = false;
}

abbrev pub add_error : Error → Result → Result
add_error e r = record r { errors = r.errors ++ e ∷ [] }

abbrev pub incomplete : Result → Result
incomplete r = record r { completed = false }

unfoldable pub note_truncated : String → String → Shortfall → Result → Result
note_truncated source location short r =
    let e : Error = record { collector = source; message = store_truncated; location = location } in
    if short.truncated then add_error e (incomplete r) else r

unfoldable pub note_shortened : String → String → Shortfall → Result → Result
note_shortened source location short r =
    let e : Error = record { collector = source; message = store_shortened; location = location } in
    if short.out_of_budget || short.too_deep then add_error e r else r

unfoldable pub note_shortfall : String → String → Shortfall → Result → Result
unfolding note_truncated note_shortened
note_shortfall source location short r =
    note_shortened source location short
      (note_truncated source location short (if short.interrupted then incomplete r else r))
