-- ===== src/Collect/Iis.antt =====
-- The sites and bindings of IIS (internal/collect/iis.go). What xml.Unmarshal reads of
-- applicationHost.config is a parameter.
use dtp_discovery_agent.Common.{
  String, ◌||◌, Option, none, some, List, [], ◌∷◌, ◌⊎◌, inl, inr, str_eq, if◌then◌else◌,
}
use dtp_discovery_agent.Common.Text.{runes, of_runes, cut_runes, equal_fold, join}
use Prim.Native.Char.{Char}
mod Examples

pub record IisBinding : Type 0 where
  pub information : String
  pub protocol : String

pub record IisSite : Type 0 where
  pub name : String
  pub bindings : List IisBinding

-- SplitN at colons, into at most three parts
abbrev pub second_part : List Char × Option (List Char) → List String
second_part (port, none) = of_runes port ∷ []
second_part (port, some host) = of_runes port ∷ of_runes host ∷ []

abbrev pub first_part : List Char × Option (List Char) → List String
first_part (address, none) = of_runes address ∷ []
first_part (address, some rest) = of_runes address ∷ second_part (cut_runes b':' rest)

abbrev pub parts : IisBinding → List String
parts b = first_part (cut_runes b':' (runes b.information))

abbrev pub address_of : List String → String
address_of [] = "0.0.0.0"
address_of (a ∷ rest) = if str_eq a "" || str_eq a "*" then "0.0.0.0" else a

abbrev pub port_of : List String → String
port_of (a ∷ p ∷ rest) = if str_eq p "" then "443" else p
port_of other = "443"

abbrev pub host_of : List String → String
host_of (a ∷ p ∷ h ∷ rest) = h
host_of other = ""

-- RegistryKeys: with a host header, the name of it first
unfoldable pub registry_keys : IisBinding → List String
registry_keys b =
    let address = address_of (parts b) in
    let port = port_of (parts b) in
    let host = host_of (parts b) in
    if str_eq host ""
    then join ":" (address ∷ port ∷ []) ∷ join ":" ("0.0.0.0" ∷ port ∷ []) ∷ []
    else join ":" (address ∷ port ∷ host ∷ [])
      ∷ join ":" ("0.0.0.0" ∷ port ∷ host ∷ [])
      ∷ join ":" (address ∷ port ∷ [])
      ∷ []

-- the bindings that terminate TLS
unfoldable pub tls_bindings : List IisBinding → List IisBinding
tls_bindings [] = []
tls_bindings (b ∷ bs) =
    let rest = tls_bindings bs in if equal_fold b.protocol "https" then b ∷ rest else rest

abbrev pub with_site : String → List IisBinding → List IisSite → List IisSite
with_site name [] sites = sites
with_site name (b ∷ bs) sites = record { name = name; bindings = b ∷ bs } ∷ sites

unfoldable pub tls_sites : List IisSite → List IisSite
tls_sites [] = []
tls_sites (s ∷ ss) = with_site s.name (tls_bindings s.bindings) (tls_sites ss)

-- parseApplicationHostConfig, with the error's text
unfoldable pub parse_application_host_config :
    (String → String ⊎ List IisSite) → String → String ⊎ List IisSite
parse_application_host_config unmarshal input = elim (unmarshal input) [
  | inl e ↦ inl (join "" ("reading applicationHost.config: " ∷ e ∷ []))
  | inr sites ↦ inr (tls_sites sites)
]
