-- ===== src/Parse/Pem/Examples.antt =====
-- A file of one key and one certificate.
use dtp_discovery_agent.Common.{
  ◌<◌, String, ◌≡◌, refl, ◌||◌, none, some, [], ◌∷◌, if◌then◌else◌, str_eq, length, arith,
}
use dtp_discovery_agent.Common.Text.{runes, codes, upper, has_text}
use dtp_discovery_agent.Parse.Pem.{PemBlock, Codecs, private_key_suffix, or_der, certificates}
use dtp_discovery_agent.Parse.Pem.Blocks.{all_certificates, any_key, certificates-Holds}

-- "k" stands for a block of a key, any other character for one of a certificate
abbrev letter_codecs : Codecs
letter_codecs = record {
  decode = λ input. elim input [
    | String.[] ↦ none
    | String.◌∷◌ c rest ↦ some (
      record {
        kind = if str_eq (String.◌∷◌ c String.[]) "k" then "EC PRIVATE KEY" else "CERTIFICATE";
        content = "";
      },
      rest,
    )
  ];
  parse_certificate = λ content. some 7;
  parse_certificates = λ input. none;
  decode_chain = λ input password. none;
  encode = λ b. b.kind;
}

letters_shorten :
    (input : String) (b : PemBlock) (rest : String)
    → letter_codecs.decode input ≡ some (b, rest)
    → length (runes rest) < length (runes input)
letters_shorten String.[] b rest e = absurd cc
letters_shorten (String.◌∷◌ c s) b rest e = let q : s ≡ rest = cc in rw q (omega arith)

abbrev key_block : PemBlock
key_block = record { kind = "EC PRIVATE KEY"; content = "" }

abbrev certificate_block : PemBlock
certificate_block = record { kind = "CERTIFICATE"; content = "" }

certificates-Holds_example : certificates letter_codecs "kc" ≡ record {
  certificates =
      or_der letter_codecs
        (all_certificates letter_codecs (key_block ∷ certificate_block ∷ []))
        none;
  had_private_key =
      any_key (key_block ∷ certificate_block ∷ [])
      || has_text (codes private_key_suffix) (upper "kc");
}
certificates-Holds_example =
    certificates-Holds letter_codecs letters_shorten "kc" (key_block ∷ certificate_block ∷ [])
      ("c", refl, ("", refl, refl))
