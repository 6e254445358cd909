-- ===== src/Parse/Pem.antt =====
-- internal/parse/parse.go: the certificates of PEM, DER and PKCS#12 files, and whether a file holds a
-- private key. pem.Decode, x509's parsers, pem.Encode and go-pkcs12 are the parameter Codecs. The
-- loops over blocks have as fuel more than the length of the data.
use dtp_discovery_agent.Common.{
  ℕ, zero, suc, String, Bool, true, false, ◌||◌, Option, none, some, List, [], ◌∷◌, ◌++◌, map,
  str_eq, if◌then◌else◌, length,
}
use dtp_discovery_agent.Common.Text.{runes, codes, upper, ends_with, has_text, join}
use dtp_discovery_agent.Parse.Certificate.{World}
mod Blocks
mod Examples

-- pem.Block
pub record PemBlock : Type 0 where
  pub kind : String
  pub content : String

-- A certificate is an address, as in chain.go.
pub record Codecs : Type 0 where
  pub decode : String → Option (PemBlock × String)
  pub parse_certificate : String → Option ℕ
  pub parse_certificates : String → Option (List ℕ)
  pub decode_chain : String → String → Option (Option ℕ × List ℕ)
  pub encode : PemBlock → String

abbrev pub private_key_suffix : String
private_key_suffix = "PRIVATE KEY"

-- Result
pub record PemResult : Type 0 where
  pub certificates : List ℕ
  pub had_private_key : Bool

abbrev pub is_key : PemBlock → Bool
is_key b = ends_with (codes private_key_suffix) (upper b.kind)

abbrev pub is_certificate : PemBlock → Bool
is_certificate b = str_eq b.kind "CERTIFICATE"

module _ (c : Codecs) where
  open c use {decode, parse_certificate, parse_certificates, decode_chain, encode}

  -- the loop of ContainsPrivateKey
  unfoldable pub key_from : ℕ → String → Bool
  key_from zero input = false
  key_from (suc fuel) input = elim (decode input) [
    | none ↦ false
    | some (b, rest) ↦ is_key b || key_from fuel rest
  ]

  unfoldable pub contains_private_key : String → Bool
  contains_private_key input =
      key_from (suc (length (runes input))) input
      || has_text (codes private_key_suffix) (upper input)

  abbrev pub parsed : Option ℕ → List ℕ
  parsed none = []
  parsed (some p) = p ∷ []

  -- what a block adds
  unfoldable pub certificates_in : PemBlock → List ℕ
  certificates_in b = if is_certificate b then parsed (parse_certificate b.content) else []

  -- the loop of Certificates
  unfoldable pub certificates_from : ℕ → String → List ℕ
  certificates_from zero input = []
  certificates_from (suc fuel) input = elim (decode input) [
    | none ↦ []
    | some (b, rest) ↦ certificates_in b ++ certificates_from fuel rest
  ]

  -- what is found, or else the data read as DER
  abbrev pub or_der : List ℕ → Option (List ℕ) → List ℕ
  or_der [] none = []
  or_der [] (some ps) = ps
  or_der (p ∷ ps) der = p ∷ ps

  -- Certificates; its error is that there are none.
  unfoldable pub certificates : String → PemResult
  certificates input = record {
    certificates =
        or_der (certificates_from (suc (length (runes input))) input) (parse_certificates input);
    had_private_key = contains_private_key input;
  }

  abbrev pub bundle : Option (Option ℕ × List ℕ) → Option PemResult
  bundle none = none
  bundle (some (none, [])) = none
  bundle (some (none, p ∷ ps)) = some (record { certificates = p ∷ ps; had_private_key = true })
  bundle (some (some leaf, cas)) =
      some (record { certificates = leaf ∷ cas; had_private_key = true })

  -- PKCS12, with no result for its errors
  unfoldable pub pkcs12 : String → String → Option PemResult
  pkcs12 input password = bundle (decode_chain input password)

  -- EncodePEM
  unfoldable pub encode_pem : World → List ℕ → String
  encode_pem w certs =
      join ""
        (map (λ p. encode (record { kind = "CERTIFICATE"; content = (w.certificate p).raw })) certs)
