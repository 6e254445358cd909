-- ===== src/Parse/Keystore/Roundtrip.antt =====
-- A keystore as keytool writes it, and that the reader finds its certificates without its keys.
use dtp_discovery_agent.Common.{
  ℕ, suc, ◌≤◌, String, ◌≡◌, refl, sym, ap, ◌∙◌, inl, inr, true, false, ◌||◌, Option, none, some,
  List, [], ◌∷◌, ◌++◌, map, arith, ltb, ◌==◌, if◌then◌else◌, Bool-cases, length, All, ◌/◌,
}
use mathlib.Core.Path.{subst}
use dtp_discovery_agent.Parse.Keystore.{
  KeystoreError, Reader, take_bytes, u32, skip, KeystoreEntry, decode_modified_utf8, utf,
  certificate_body, is_x509, read_certificate, with_certificate, read_chain, read_key_entry,
  read_trusted_entry, read_content, read_entry, read_entries, read_body, java_keystore, is_magic,
}
use dtp_discovery_agent.Parse.Keystore.Reads.{
  put2, put4, IsReady, Read, take_bytes-IsReady, u32_ready, u16_ready,
}

module _ {Cert : Type 0} (pc : List ℕ → Option Cert) (er : ℕ → List ℕ) (ut : List ℕ → String) where
  utf_ready :
      (raw post : List ℕ) (r : Reader)
      → IsReady r (put2 (length raw) (raw ++ post))
      → Read r (utf pc er ut r) (decode_modified_utf8 pc er ut raw) post
  unfolding utf
  utf_ready raw post r h =
      let (r1, (e1, (h1, d1))) = u16_ready (length raw) (raw ++ post) r h in
      let (r2, (e2, (h2, d2))) = take_bytes-IsReady raw post r1 h1 in
      (r2, (rw (utf, e1, e2) refl, (h2, d2 ∙ d1)))

  -- A certificate as version 1 or 2 stores it.
  abbrev put_certificate : ℕ → List ℕ → List ℕ → List ℕ → List ℕ
  put_certificate version kind der post =
      if version == 2
      then put2 (length kind) (kind ++ put4 (length der) (der ++ post))
      else put4 (length der) (der ++ post)

  body_step :
      (r : Reader) {r1 r2 : Reader} {n : ℕ} {der : List ℕ}
      → u32 r ≡ (n, r1)
      → take_bytes n r1 ≡ (some der, r2)
      → r2.err ≡ none
      → certificate_body pc er ut r ≡ ((none, pc der), r2)
  unfolding certificate_body
  body_step r a b c = simp (certificate_body, a, b, c)

  body_ready :
      (der post : List ℕ) (r : Reader)
      → IsReady r (put4 (length der) (der ++ post))
      → Read r (certificate_body pc er ut r) (none, pc der) post
  unfolding certificate_body
  body_ready der post r h =
      let (r1, (e1, (h1, d1))) = u32_ready (length der) (der ++ post) r h in
      let (r2, (e2, (h2, d2))) = take_bytes-IsReady der post r1 h1 in
      (r2, (body_step r e1 e2 h2.no_error, (h2, d2 ∙ d1)))

  module _ (version : ℕ) (kind : List ℕ)
      (kind_x509 : is_x509 pc er ut (decode_modified_utf8 pc er ut kind) ≡ true) where
    certificate_ready :
        (der post : List ℕ) (r : Reader)
        → IsReady r (put_certificate version kind der post)
        → Read r (read_certificate pc er ut version r) (none, pc der) post
    unfolding read_certificate
    certificate_ready der post r h = elim (Bool-cases (version == 2)) [
      | inl v ↦
          let (r1, (e1, (h1, d1))) =
            utf_ready kind (put4 (length der) (der ++ post)) r (simp v at h) in
          let (r2, (e2, (h2, d2))) = body_ready der post r1 h1 in
          (r2, (rw (read_certificate, v, e1, kind_x509, e2) refl, (h2, d2 ∙ d1)))
      | inr v ↦
          let (r1, (e1, ready)) = body_ready der post r (simp v at h) in
          (r1, (rw (read_certificate, v, e1) refl, ready))
    ]

    abbrev encode_certificates : List (List ℕ) → List ℕ → List ℕ
    encode_certificates [] post = post
    encode_certificates (der ∷ ders) post =
        put_certificate version kind der (encode_certificates ders post)

    abbrev parsed_certificates : List (List ℕ) → List Cert
    parsed_certificates [] = []
    parsed_certificates (der ∷ ders) = with_certificate pc er ut (pc der) (parsed_certificates ders)

    chain_step :
        (n : ℕ) (r : Reader) {r1 r2 : Reader} {c : Option Cert} {cs : List Cert}
        → read_certificate pc er ut version r ≡ ((none, c), r1)
        → read_chain pc er ut version n r1 ≡ ((none, cs), r2)
        → read_chain pc er ut version (suc n) r ≡ ((none, with_certificate pc er ut c cs), r2)
    unfolding read_chain
    chain_step n r a b = rw (read_chain, a) (rw (a, b) refl)

    chain_ready :
        (ders : List (List ℕ)) (post : List ℕ) (r : Reader)
        → IsReady r (encode_certificates ders post)
        → Read r (read_chain pc er ut version (length ders) r) (none, parsed_certificates ders) post
    unfolding read_chain
    chain_ready [] post r h = (r, (refl, (h, refl)))
    chain_ready (der ∷ ders) post r h =
        let (r1, (e1, (h1, d1))) = certificate_ready der (encode_certificates ders post) r h in
        let (r2, (e2, (h2, d2))) = chain_ready ders post r1 h1 in
        (r2, (chain_step (length ders) r e1 e2, (h2, d2 ∙ d1)))

    -- What an entry holds after its alias and date: a key's encrypted bytes and its chain, or a
    -- trusted certificate.
    pub data Content : Type 0 where
      key : (blob : List ℕ) (chain : List (List ℕ)) → Content
      trusted : (der : List ℕ) → Content

    abbrev tag_of : Content → ℕ
    tag_of (key blob chain) = 1
    tag_of (trusted der) = 2

    abbrev encode_content : Content → List ℕ → List ℕ
    encode_content (key blob chain) post =
        put4 (length blob) (blob ++ put4 (length chain) (encode_certificates chain post))
    encode_content (trusted der) post = put_certificate version kind der post

    abbrev pub certificates_of : Content → List Cert
    certificates_of (key blob chain) = parsed_certificates chain
    certificates_of (trusted der) = parsed_certificates (der ∷ [])

    -- A chain is no longer than the reader believes of a file of `total` bytes.
    abbrev Fits : ℕ → Content → Type 0
    Fits total (key blob chain) = length chain ≤ total / 12
    Fits total (trusted der) = Unit

    skipped :
        (k : ℕ) (r : Reader) {r' : Reader} {o : Option (List ℕ)}
        → take_bytes k r ≡ (o, r')
        → skip k r ≡ r'
    unfolding skip
    skipped k r e = rw (skip, e) refl

    key_step :
        (alias : String) (r : Reader) {r1 r2 r3 r4 : Reader} {k n : ℕ} {cs : List Cert}
        → u32 r ≡ (k, r1)
        → skip k r1 ≡ r2
        → u32 r2 ≡ (n, r3)
        → r3.err ≡ none
        → ltb (length r3.data_bytes / 12) n ≡ false
        → read_chain pc er ut version n r3 ≡ ((none, cs), r4)
        → read_key_entry pc er ut version alias r ≡ ((none, cs), r4)
    unfolding read_key_entry
    key_step alias r a b c d e f =
        rw (read_key_entry, a, b, c, d) (rw (a, b, c, e) (rw f (rw (a, b, c, f) refl)))

    trusted_step :
        (alias : String) (r : Reader) {r1 : Reader} {c : Option Cert}
        → read_certificate pc er ut version r ≡ ((none, c), r1)
        → read_trusted_entry pc er ut version alias r ≡ ((none, with_certificate pc er ut c []), r1)
    unfolding read_trusted_entry
    trusted_step alias r a = rw (read_trusted_entry, a) (rw a refl)

    content_ready :
        (alias : String) (x : Content) (post : List ℕ) (r : Reader)
        → IsReady r (encode_content x post)
        → Fits (length r.data_bytes) x
        → Read r (read_content pc er ut version (tag_of x) alias r) (none, certificates_of x) post
    unfolding read_content
    content_ready alias (key blob chain) post r h fits =
        let (r1, (e1, (h1, d1))) = u32_ready (length blob) _ r h in
        let (r2, (e2, (h2, d2))) = take_bytes-IsReady blob _ r1 h1 in
        let (r3, (e3, (h3, d3))) = u32_ready (length chain) _ r2 h2 in
        let (r4, (e4, (h4, d4))) = chain_ready chain post r3 h3 in
        let small : ltb (length r3.data_bytes / 12) (length chain) ≡ false =
          (let d = ap (λ bs. length {A = ℕ} bs / 12) (d3 ∙ d2 ∙ d1) in ground (arith, d)) in
        (
          r4,
          (
            key_step alias r e1 (skipped (length blob) r1 e2) e3 h3.no_error small e4,
            (h4, d4 ∙ d3 ∙ d2 ∙ d1),
          ),
        )
    content_ready alias (trusted der) post r h fits =
        let (r1, (e1, ready)) = certificate_ready der post r h in
        (r1, (trusted_step alias r e1, ready))

    pub record StoredEntry : Type 0 where
      pub alias : List ℕ
      pub date : List ℕ
      pub content : Content

    -- An entry whose date takes eight bytes, and whose chain fits a file of `total` bytes.
    abbrev pub IsStored : ℕ → StoredEntry → Type 0
    IsStored total x = (length x.date ≡ 8) × Fits total x.content

    -- What is to be found of an entry: not its date, and of its key only that there is one.
    abbrev pub view : StoredEntry → KeystoreEntry Cert
    view x = record {
      alias = decode_modified_utf8 pc er ut x.alias;
      certificates = certificates_of x.content;
      has_private_key = tag_of x.content == 1;
    }

    abbrev encode_entries : List StoredEntry → List ℕ → List ℕ
    encode_entries [] post = post
    encode_entries (x ∷ xs) post = put4 (tag_of x.content) (
        put2 (length x.alias)
          (x.alias ++ (x.date ++ encode_content x.content (encode_entries xs post))))

    entry_step :
        (i : ℕ) (r : Reader) {r1 r2 r3 r4 : Reader} {tag : ℕ} {alias : String} {cs : List Cert}
        → u32 r ≡ (tag, r1)
        → utf pc er ut r1 ≡ (alias, r2)
        → skip 8 r2 ≡ r3
        → r3.err ≡ none
        → read_content pc er ut version tag alias r3 ≡ ((none, cs), r4)
        → read_entry pc er ut version i r
          ≡ (inr (record { alias = alias; certificates = cs; has_private_key = tag == 1 }), r4)
    unfolding read_entry
    entry_step i r a b c d e = rw (read_entry, a, b, c, d) (rw (a, b, c, e) (rw (a, b, c, e) refl))

    entries_step :
        (i n : ℕ) (r : Reader) {r1 : Reader} {x : KeystoreEntry Cert}
        {xs : List (KeystoreEntry Cert)} {o : Option KeystoreError}
        → read_entry pc er ut version i r ≡ (inr x, r1)
        → read_entries pc er ut version (suc i) n r1 ≡ (xs, o)
        → read_entries pc er ut version i (suc n) r ≡ (x ∷ xs, o)
    unfolding read_entries
    entries_step i n r a b = rw (read_entries, a) (rw (a, b) refl)

    entries_ready :
        (xs : List StoredEntry) (post : List ℕ) (i : ℕ) (r : Reader)
        → IsReady r (encode_entries xs post)
        → All (IsStored (length r.data_bytes)) xs
        → read_entries pc er ut version i (length xs) r ≡ (map view xs, none)
    unfolding read_entries
    entries_ready [] post i r h hs = refl
    entries_ready (x ∷ xs) post i r h ((eight, fits), hs) =
        let (r1, (e1, (h1, d1))) = u32_ready (tag_of x.content) _ r h in
        let (r2, (e2, (h2, d2))) =
          utf_ready x.alias (x.date ++ encode_content x.content (encode_entries xs post)) r1 h1 in
        let (r3, (e3, (h3, d3))) =
          take_bytes-IsReady x.date (encode_content x.content (encode_entries xs post)) r2 h2 in
        let date : skip 8 r2 ≡ r3 = skipped 8 r2 (rw eight at e3) in
        let d : r.data_bytes ≡ r3.data_bytes = sym (d3 ∙ d2 ∙ d1) in
        let (r4, (e4, (h4, d4))) =
          content_ready (decode_modified_utf8 pc er ut x.alias) x.content _ r3 h3
            (subst (λ bs. Fits (length {A = ℕ} bs) x.content) d fits) in
        entries_step i (length xs) r (entry_step i r e1 e2 date h3.no_error e4) (
          entries_ready xs post (suc i) r4 h4
            (subst (λ bs. All (IsStored (length {A = ℕ} bs)) xs) (d ∙ sym d4) hs))

    module _ (magic : ℕ) (magic_known : is_magic pc er ut magic ≡ true)
        (version_known : (version == 1 || version == 2) ≡ true) where
      -- The file of a store, with what follows the entries.
      abbrev pub encode_store : List StoredEntry → List ℕ → List ℕ
      encode_store xs trailer =
          put4 magic (put4 version (put4 (length xs) (encode_entries xs trailer)))

      body_entries :
          (bytes : List ℕ) (r : Reader) {r1 : Reader} {n : ℕ}
          → u32 r ≡ (n, r1)
          → r1.err ≡ none
          → ltb (length bytes / 12) n ≡ false
          → read_body pc er ut bytes version r ≡ read_entries pc er ut version 1 n r1
      unfolding read_body
      body_entries bytes r a b c = rw (read_body, a) (simp b (rw (a, c) refl))

      store_step :
          (bytes : List ℕ) {r1 r2 : Reader}
          → u32 (record { data_bytes = bytes; pos = 0; err = none }) ≡ (magic, r1)
          → u32 r1 ≡ (version, r2)
          → r1.err ≡ none
          → java_keystore pc er ut bytes ≡ read_body pc er ut bytes version r2
      unfolding java_keystore
      store_step bytes a b c =
          rw (java_keystore, a, c) (rw (a, magic_known) (rw (b, version_known) refl))

      -- The reader finds in a file that a keystore writer made, of version 1 or 2 and whose counts
      -- fit its size, each entry's alias, the certificates of it that parse and whether it has a
      -- key, in order and without an error; the bytes of keys, dates and trailer have no part in it.
      pub java_keystore_encoded :
          (xs : List StoredEntry) (trailer : List ℕ)
          → length xs ≤ length (encode_store xs trailer) / 12
          → All (IsStored (length (encode_store xs trailer))) xs
          → java_keystore pc er ut (encode_store xs trailer) ≡ (map view xs, none)
      java_keystore_encoded xs trailer count hs =
          let bytes = encode_store xs trailer in
          let r : Reader = record { data_bytes = bytes; pos = 0; err = none } in
          let (r1, (e1, (h1, d1))) =
            u32_ready magic _ r (record { no_error = refl; left = refl; whole = omega arith }) in
          let (r2, (e2, (h2, d2))) = u32_ready version _ r1 h1 in
          let (r3, (e3, (h3, d3))) = u32_ready (length xs) _ r2 h2 in
          let d : bytes ≡ r3.data_bytes = sym (d3 ∙ d2 ∙ d1) in
          store_step bytes e1 e2 h1.no_error
          ∙ body_entries bytes r2 e3 h3.no_error (ground (arith, count))
          ∙ entries_ready xs trailer 1 r3 h3
              (subst (λ bs. All (IsStored (length {A = ℕ} bs)) xs) d hs)
