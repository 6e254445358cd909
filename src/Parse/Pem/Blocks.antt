-- ===== src/Parse/Pem/Blocks.antt =====
-- Both loops over the blocks of a file read all of them.
use dtp_discovery_agent.Common.{
  ℕ, zero, suc, ◌<◌, String, ◌≡◌, refl, ap, Bool, false, ◌||◌, none, some, List, [], ◌∷◌, ◌++◌,
  length, arith,
}
use dtp_discovery_agent.Common.Text.{runes, codes, upper, has_text}
use dtp_discovery_agent.Parse.Pem.{
  PemBlock, Codecs, private_key_suffix, is_key, key_from, contains_private_key, certificates_in,
  certificates_from, or_der, certificates,
}

-- The rest that pem.Decode returns with a block is shorter than its data.
abbrev pub IsShortening : Codecs → Type 0
IsShortening c =
    (input : String) (b : PemBlock) (rest : String)
    → c.decode input ≡ some (b, rest)
    → length (runes rest) < length (runes input)

-- pem.Decode, called again on each rest, yields these blocks.
abbrev pub Holds : Codecs → String → List PemBlock → Type 0
Holds c input [] = c.decode input ≡ none
Holds c input (b ∷ bs) = (rest : String) × (c.decode input ≡ some (b, rest)) × Holds c rest bs

abbrev pub all_certificates : Codecs → List PemBlock → List ℕ
all_certificates c [] = []
all_certificates c (b ∷ bs) = certificates_in c b ++ all_certificates c bs

abbrev pub any_key : List PemBlock → Bool
any_key [] = false
any_key (b ∷ bs) = is_key b || any_key bs

module _ (c : Codecs) (short : IsShortening c) where
  key_from-Holds :
      (fuel : ℕ) (input : String) (bs : List PemBlock)
      → length (runes input) < fuel
      → Holds c input bs
      → key_from c fuel input ≡ any_key bs
  unfolding key_from
  key_from-Holds zero input bs f h = absurd (omega arith)
  key_from-Holds (suc fuel) input [] f h = rw (key_from, h) refl
  key_from-Holds (suc fuel) input (b ∷ bs) f (rest, e, h) =
      let s = short input b rest e in
      rw (key_from, e) (ap (λ t. is_key b || t) (key_from-Holds fuel rest bs (omega arith) h))

  certificates_from-Holds :
      (fuel : ℕ) (input : String) (bs : List PemBlock)
      → length (runes input) < fuel
      → Holds c input bs
      → certificates_from c fuel input ≡ all_certificates c bs
  unfolding certificates_from
  certificates_from-Holds zero input bs f h = absurd (omega arith)
  certificates_from-Holds (suc fuel) input [] f h = rw (certificates_from, h) refl
  certificates_from-Holds (suc fuel) input (b ∷ bs) f (rest, e, h) =
      let s = short input b rest e in
      rw (certificates_from, e)
        (ap (λ t. certificates_in c b ++ t) (certificates_from-Holds fuel rest bs (omega arith) h))

  -- Of the blocks that pem.Decode finds in a file, Certificates returns exactly the certificates that
  -- parse from those named CERTIFICATE, in order, or, if there are none, what parses from the file
  -- as DER; and it says that there is a private key exactly if a block's name ends in PRIVATE KEY
  -- or the text has these words, both in any case.
  pub certificates-Holds :
      (input : String) (bs : List PemBlock)
      → Holds c input bs
      → certificates c input ≡ record {
        certificates = or_der c (all_certificates c bs) (c.parse_certificates input);
        had_private_key = any_key bs || has_text (codes private_key_suffix) (upper input);
      }
  unfolding certificates contains_private_key
  certificates-Holds input bs h =
      let fuel = suc (length (runes input)) in
      rw
        (
          certificates_from-Holds fuel input bs (omega arith) h,
          key_from-Holds fuel input bs (omega arith) h,
        )
        refl
