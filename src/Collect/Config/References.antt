-- ===== src/Collect/Config/References.antt =====
-- Certificates as a configuration refers to them, and what may be said of their keys
-- (pairCertificates to isReadablePath in internal/collect/apache.go; certificateRef in
-- serverconfig.go). `path_unescape` is url.PathUnescape. Values are taken to hold no character
-- whose lower case has another number of bytes, so that a position in ToLower's result is one in
-- the value.
use dtp_discovery_agent.Common.{
  ℕ, zero, suc, String, Bool, false, not, ◌&&◌, ◌||◌, Option, none, some, List, [], ◌∷◌, ◌++◌, map,
  str_eq, if◌then◌else◌, length, take, drop, get_elem?,
}
use dtp_discovery_agent.Common.Text.{
  runes, of_runes, codes, begins, codes_eq, lower, lower_code, index_of, has_text, split_runes,
  cut_runes, trim_space, contains_any,
}
use Prim.Native.Char.{Char, code}
pub mod Secrets
mod Pairs
mod Examples

pub record CertificateRef : Type 0 where
  pub certificate : String
  pub key : String
  pub chain : String

-- vhost, of serverconfig.go
pub record Vhost : Type 0 where
  pub server : String
  pub file : String
  pub names : List String
  pub listen : List String
  pub certs : List CertificateRef

-- the prefixes of values that are no files
abbrev pub special_prefixes : List String
special_prefixes = "engine:" ∷ "data:" ∷ "pkcs11:" ∷ []

abbrev pub has_any_prefix : List String → List ℕ → Bool
has_any_prefix [] value = false
has_any_prefix (p ∷ ps) value = begins (codes p) value || has_any_prefix ps value

unfoldable pub is_readable_path : String → Bool
is_readable_path value =
    not (str_eq value "" || contains_any (runes value) (codes "$"))
    && not (has_any_prefix special_prefixes (lower value))

-- strings.Join on runes
unfoldable pub join_runes : Char → List (List Char) → List Char
join_runes sep [] = []
join_runes sep (p ∷ []) = p
join_runes sep (p ∷ q ∷ ps) = p ++ sep ∷ join_runes sep (q ∷ ps)

module _ (path_unescape : String → Option String) where
  abbrev pub is_pin : List ℕ → Bool
  is_pin name = codes_eq name (codes "pin-value") || codes_eq name (codes "pin-source")

  -- whether withoutPins keeps an attribute that is not empty
  unfoldable pub is_public : List Char → Bool
  is_public attr =
      let name = of_runes (cut_runes b'=' attr).0 in
      elim (path_unescape name) [
        | none ↦
            let read = lower (trim_space name) in not (has_text (codes "pin") read || is_pin read)
        | some decoded ↦ not (is_pin (lower (trim_space decoded)))
      ]

  abbrev pub is_kept : List Char → Bool
  is_kept [] = false
  is_kept (c ∷ cs) = is_public (c ∷ cs)

  unfoldable pub kept : List (List Char) → List (List Char)
  kept [] = []
  kept (p ∷ ps) = let rest = kept ps in if is_kept p then p ∷ rest else rest

  unfoldable pub without_pins : Char → List Char → List Char
  without_pins sep part = join_runes sep (kept (split_runes (code sep) part))

  abbrev pub scheme : List ℕ
  scheme = codes "pkcs11:"

  -- the loop over the schemes that stand before the URI
  unfoldable pub past_schemes : ℕ → List Char → List Char → List Char × List Char
  past_schemes zero head rest = (head, rest)
  past_schemes (suc fuel) head rest =
      let more = past_schemes fuel (head ++ take 7 rest) (drop 7 rest) in
      if begins scheme (map lower_code (map code rest)) then more else (head, rest)

  abbrev pub with_query : Char → List Char → List Char
  with_query mark [] = []
  with_query mark (c ∷ cs) = mark ∷ c ∷ cs

  abbrev pub redacted_query : Char → Char → Option (List Char) → List Char
  redacted_query amp mark none = []
  redacted_query amp mark (some query) = with_query mark (without_pins amp query)

  -- the part of a value from its scheme on, behind `head`
  unfoldable pub redacted : List Char → List Char → List Char
  redacted head rest =
      let (before, uri) = past_schemes (length rest) head rest in
      let (path, query) = cut_runes b'?' uri in
      before ++ without_pins ";" path ++ redacted_query "&" "?" query

  unfoldable pub key_reference : String → String
  key_reference value =
      if begins (codes "data:") (lower value)
      then "data: (inline in the configuration)"
      else elim (index_of scheme (lower value)) [
        | none ↦ value
        | some at ↦ of_runes (redacted (take at (runes value)) (drop at (runes value)))
      ]

  abbrev pub key_at : List String → ℕ → String
  key_at keys i = elim (get_elem? keys i) [ none ↦ "" | some k ↦ key_reference k ]

  abbrev pub chain_at : List String → ℕ → String
  chain_at chains i = elim (get_elem? chains i) [ none ↦ "" | some c ↦ c ]

  -- the loop of pairCertificates, from position `i` on
  unfoldable pub pair_from : ℕ → List String → List String → List String → List CertificateRef
  pair_from i [] keys chains = []
  pair_from i (cert ∷ certs) keys chains =
      let rest = pair_from (suc i) certs keys chains in
      if not (is_readable_path cert)
      then rest
      else record { certificate = cert; key = key_at keys i; chain = chain_at chains i } ∷ rest

  unfoldable pub pair_certificates : List String → List String → List String → List CertificateRef
  pair_certificates = pair_from 0
