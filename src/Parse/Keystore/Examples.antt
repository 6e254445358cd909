-- ===== src/Parse/Keystore/Examples.antt =====
-- A keystore of one private key with its certificate and one trusted certificate.
use dtp_discovery_agent.Common.{
  ℕ, ◌≤◌, String, ◌≡◌, refl, true, Option, none, some, List, [], ◌∷◌, map, arith, ◌==◌,
  if◌then◌else◌, length, All, ◌/◌,
}
use dtp_discovery_agent.Parse.Keystore.{
  jks_magic, java_keystore, is_x509, decode_modified_utf8, to_utf16, runes_from, rune_at,
}
use dtp_discovery_agent.Parse.Keystore.Bounds.{IsSmall, java_keystore-All}
use dtp_discovery_agent.Parse.Keystore.Roundtrip.{
  StoredEntry, key, trusted, view, encode_store, java_keystore_encoded,
}

-- a certificate is its DER, and every five units of text read as the type of a certificate
abbrev whole_der : List ℕ → Option (List ℕ)
whole_der der = some der

abbrev no_pair : ℕ → List ℕ
no_pair r = []

abbrev five_units : List ℕ → String
five_units units = if length units == 5 then "X.509" else "tomcat"

abbrev x509_tag : List ℕ
x509_tag = 88 ∷ 46 ∷ 53 ∷ 48 ∷ 57 ∷ []

tag_known :
    is_x509 whole_der no_pair five_units
      (decode_modified_utf8 whole_der no_pair five_units x509_tag)
    ≡ true
unfolding decode_modified_utf8 to_utf16 runes_from rune_at
tag_known = refl

abbrev eight_zeros : List ℕ
eight_zeros = 0 ∷ 0 ∷ 0 ∷ 0 ∷ 0 ∷ 0 ∷ 0 ∷ 0 ∷ []

abbrev two_entries : List (StoredEntry whole_der no_pair five_units 2 x509_tag tag_known)
two_entries =
    record {
      alias = 116 ∷ 99 ∷ [];
      date = eight_zeros;
      content = key (7 ∷ 7 ∷ 7 ∷ []) ((48 ∷ 1 ∷ []) ∷ []);
    }
    ∷ record { alias = 99 ∷ []; date = eight_zeros; content = trusted (48 ∷ 2 ∷ []) }
    ∷ []

abbrev two_entries_file : List ℕ
two_entries_file =
    encode_store whole_der no_pair five_units 2 x509_tag tag_known jks_magic refl refl two_entries
      []

java_keystore_encoded_example :
    java_keystore whole_der no_pair five_units two_entries_file
    ≡ (map (view whole_der no_pair five_units 2 x509_tag tag_known) two_entries, none)
java_keystore_encoded_example =
    java_keystore_encoded whole_der no_pair five_units 2 x509_tag tag_known jks_magic refl refl
      two_entries [] (omega arith) ((refl, omega arith), ((refl, tt), tt))

java_keystore-All_example :
    (length (java_keystore whole_der no_pair five_units two_entries_file).0
      ≤ length two_entries_file / 12)
    × All
        (IsSmall two_entries_file whole_der no_pair five_units)
        (java_keystore whole_der no_pair five_units two_entries_file).0
java_keystore-All_example = java_keystore-All two_entries_file whole_der no_pair five_units
