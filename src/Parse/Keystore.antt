-- ===== src/Parse/Keystore.antt =====
-- The reader of Java keystores (internal/parse/keystore.go) over a file's bytes. Lengths read from
-- the file are unsigned 32-bit numbers and an int has 64 bits, so none is negative.
-- x509.ParseCertificate, utf16.Encode and the text of utf16.Decode are parameters.
use dtp_discovery_agent.Common.{
  ℕ, zero, suc, ◌+◌, ◌-◌, ◌*◌, ◌/◌, ◌%◌, String, Bool, true, false, not, ◌&&◌, ◌||◌, Option, none,
  some, List, [], ◌∷◌, ◌++◌, ◌⊎◌, inl, inr, str_eq, ltb, ◌==◌, if◌then◌else◌, length, take, drop,
}
mod Bounds
mod Reads
mod Roundtrip
mod Examples

pub data KeystoreError : Type 0 where
  not_a_keystore : KeystoreError
  bad_version : ℕ → KeystoreError
  too_many_entries : (count bytes : ℕ) → KeystoreError
  truncated : (wanted remain : ℕ) → KeystoreError
  not_x509 : String → KeystoreError
  at_entry : ℕ → KeystoreError → KeystoreError
  in_entry : String → KeystoreError → KeystoreError
  long_chain : String → ℕ → KeystoreError
  secret_key : String → KeystoreError
  unknown_type : String → ℕ → KeystoreError

-- beReader
pub record Reader : Type 0 where
  data_bytes : List ℕ
  pos : ℕ
  err : Option KeystoreError

abbrev pub jks_magic : ℕ
jks_magic = 4277010157

abbrev pub jceks_magic : ℕ
jceks_magic = 3469659854

unfoldable pub remaining : Reader → ℕ
remaining r = length r.data_bytes - r.pos

-- `take`; none for the nil slice
unfoldable pub take_bytes : ℕ → Reader → Option (List ℕ) × Reader
take_bytes n r = elim r.err [
  | some e ↦ (none, r)
  | none ↦
      if ltb (remaining r) n
      then (none, record r { err = some (truncated n (remaining r)) })
      else (some (take n (drop r.pos r.data_bytes)), record r { pos = r.pos + n })
]

-- binary.BigEndian on a slice
abbrev pub big_endian : ℕ → List ℕ → ℕ
big_endian acc [] = acc
big_endian acc (b ∷ bs) = big_endian (256 * acc + b) bs

abbrev pub number : Option (List ℕ) → ℕ
number none = 0
number (some bs) = big_endian 0 bs

unfoldable pub u16 : Reader → ℕ × Reader
u16 r = let (bs, r') = take_bytes 2 r in (number bs, r')

unfoldable pub u32 : Reader → ℕ × Reader
u32 r = let (bs, r') = take_bytes 4 r in (number bs, r')

unfoldable pub skip : ℕ → Reader → Reader
skip n r = (take_bytes n r).1

abbrev pub replacement : ℕ
replacement = 65533

-- The rune at a byte with the bytes after it, and how many of those belong to it.
unfoldable pub rune_at : ℕ → List ℕ → ℕ × ℕ
rune_at b (c ∷ d ∷ rest) =
    if ltb b 128 && ltb 0 b
    then (b, 0)
    else if b / 32 == 6
    then (64 * (b % 32) + c % 64, 1)
    else if b / 16 == 14
    then (4096 * (b % 16) + 64 * (c % 64) + d % 64, 2)
    else (replacement, 0)
rune_at b (c ∷ []) =
    if ltb b 128 && ltb 0 b
    then (b, 0)
    else if b / 32 == 6
    then (64 * (b % 32) + c % 64, 1)
    else (replacement, 0)
rune_at b [] = if ltb b 128 && ltb 0 b then (b, 0) else (replacement, 0)

-- The loop of decodeModifiedUTF8, past `n` bytes that belong to the rune before.
unfoldable pub runes_from : ℕ → List ℕ → List ℕ
runes_from n [] = []
runes_from (suc n) (b ∷ bs) = runes_from n bs
runes_from zero (b ∷ bs) = (rune_at b bs).0 ∷ runes_from ((rune_at b bs).1) bs

pub record KeystoreEntry (Cert : Type 0) : Type 0 where
  pub alias : String
  pub certificates : List Cert
  pub has_private_key : Bool

module _ {Cert : Type 0} (parse_certificate : List ℕ → Option Cert) (encode_rune : ℕ → List ℕ)
    (utf16_text : List ℕ → String) where
  unfoldable pub to_utf16 : List ℕ → List ℕ
  to_utf16 [] = []
  to_utf16 (r ∷ rs) =
      let rest = to_utf16 rs in if ltb 65535 r then encode_rune r ++ rest else (r % 65536) ∷ rest

  unfoldable pub decode_modified_utf8 : List ℕ → String
  decode_modified_utf8 raw = utf16_text (to_utf16 (runes_from 0 raw))

  abbrev pub text_of : Option (List ℕ) → String
  text_of none = ""
  text_of (some raw) = decode_modified_utf8 raw

  unfoldable pub utf : Reader → String × Reader
  utf r = let (n, r') = u16 r in let (raw, r'') = take_bytes n r' in (text_of raw, r'')

  abbrev pub parsed : Option (List ℕ) → Option Cert
  parsed none = none
  parsed (some der) = parse_certificate der

  -- the part of `certificate` after the type: an error, or the certificate if it parses
  unfoldable pub certificate_body : Reader → (Option KeystoreError × Option Cert) × Reader
  certificate_body r =
      let (n, r') = u32 r in
      let (der, r'') = take_bytes n r' in
      elim r''.err [ some e ↦ ((some e, none), r'') | none ↦ ((none, parsed der), r'') ]

  abbrev pub is_x509 : String → Bool
  is_x509 kind = str_eq kind "" || str_eq kind "X.509" || str_eq kind "X509"

  unfoldable pub read_certificate : ℕ → Reader → (Option KeystoreError × Option Cert) × Reader
  read_certificate version r =
      if version == 2
      then (let (kind, r') = utf r in
          if is_x509 kind then certificate_body r' else ((some (not_x509 kind), none), r'))
      else certificate_body r

  abbrev pub with_certificate : Option Cert → List Cert → List Cert
  with_certificate none cs = cs
  with_certificate (some c) cs = c ∷ cs

  -- the loop over a key entry's chain
  unfoldable pub read_chain : ℕ → ℕ → Reader → (Option KeystoreError × List Cert) × Reader
  read_chain version zero r = ((none, []), r)
  read_chain version (suc n) r =
      let ((error, cert), r') = read_certificate version r in
      let ((error', certs), r'') = read_chain version n r' in
      elim error [
        | some e ↦ ((some e, []), r')
        | none ↦ ((error', with_certificate cert certs), r'')
      ]

  -- the case of a private key: the key's bytes are skipped by their length
  unfoldable pub read_key_entry : ℕ → String → Reader → (Option KeystoreError × List Cert) × Reader
  read_key_entry version alias r =
      let (key_len, r1) = u32 r in
      let (chain_len, r2) = u32 (skip key_len r1) in
      elim r2.err [
        | some e ↦ ((some (in_entry alias e), []), r2)
        | none ↦
            if ltb (length r2.data_bytes / 12) chain_len
            then ((some (long_chain alias chain_len), []), r2)
            else let ((error, certs), r3) = read_chain version chain_len r2 in
              elim error [
                | some e ↦ ((some (in_entry alias e), []), r3)
                | none ↦ ((none, certs), r3)
              ]
      ]

  -- the case of a trusted certificate
  unfoldable pub read_trusted_entry :
      ℕ → String → Reader → (Option KeystoreError × List Cert) × Reader
  read_trusted_entry version alias r =
      let ((error, cert), r') = read_certificate version r in
      elim error [
        | some e ↦ ((some (in_entry alias e), []), r')
        | none ↦ ((none, with_certificate cert []), r')
      ]

  -- the switch on an entry's type
  unfoldable pub read_content :
      (version tag : ℕ) → String → Reader → (Option KeystoreError × List Cert) × Reader
  read_content version tag alias r =
      if tag == 1
      then read_key_entry version alias r
      else if tag == 2
      then read_trusted_entry version alias r
      else if tag == 3
      then ((some (secret_key alias), []), r)
      else ((some (unknown_type alias tag), []), r)

  -- entry number `i`, counted from 1
  unfoldable pub read_entry :
      (version i : ℕ) → Reader → (KeystoreError ⊎ KeystoreEntry Cert) × Reader
  read_entry version i r =
      let (tag, r1) = u32 r in
      let (alias, r2) = utf r1 in
      let r3 = skip 8 r2 in
      elim r3.err [
        | some e ↦ (inl (at_entry i e), r3)
        | none ↦
            let ((error, certs), r4) = read_content version tag alias r3 in
            elim error [
              | some e ↦ (inl e, r4)
              | none ↦ (
                inr (record { alias = alias; certificates = certs; has_private_key = tag == 1 }),
                r4,
              )
            ]
      ]

  -- the loop over the entries: those read before the first error, and that error
  unfoldable pub read_entries :
      (version i n : ℕ) → Reader → List (KeystoreEntry Cert) × Option KeystoreError
  read_entries version i zero r = ([], none)
  read_entries version i (suc n) r =
      let (entry, r') = read_entry version i r in
      let (entries, error) = read_entries version (suc i) n r' in
      elim entry [ inl e ↦ ([], some e) | inr x ↦ (x ∷ entries, error) ]

  unfoldable pub read_body :
      List ℕ → (version : ℕ) → Reader → List (KeystoreEntry Cert) × Option KeystoreError
  read_body bytes version r =
      let (count, r') = u32 r in
      elim r'.err [
        | some e ↦ ([], some not_a_keystore)
        | none ↦
            if ltb (length bytes / 12) count
            then ([], some (too_many_entries count (length bytes)))
            else read_entries version 1 count r'
      ]

  abbrev pub is_magic : ℕ → Bool
  is_magic m = m == jks_magic || m == jceks_magic

  -- JavaKeystore
  unfoldable pub java_keystore : List ℕ → List (KeystoreEntry Cert) × Option KeystoreError
  java_keystore bytes =
      let (magic, r1) = u32 (record { data_bytes = bytes; pos = 0; err = none }) in
      let (version, r2) = u32 r1 in
      elim r1.err [
        | some e ↦ ([], some not_a_keystore)
        | none ↦
            if not (is_magic magic)
            then ([], some not_a_keystore)
            else if not (version == 1 || version == 2)
            then ([], some (bad_version version))
            else read_body bytes version r2
      ]
