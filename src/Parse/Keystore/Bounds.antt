-- ===== src/Parse/Keystore/Bounds.antt =====
-- What a keystore can make the reader do: it stays within the file, and reports no more than the
-- file's size allows.
use dtp_discovery_agent.Common.{
  ℕ, zero, suc, ◌≤◌, max, String, ◌≡◌, refl, ap, ◌⊎◌, inl, inr, false, ◌||◌, Option, none, some,
  List, [], arith, ltb, ◌==◌, Bool-cases, Option-cases, Sum-cases, length, All, ◌/◌,
}
use dtp_discovery_agent.Parse.Keystore.{
  KeystoreError, Reader, remaining, take_bytes, u16, u32, skip, KeystoreEntry, utf,
  certificate_body, is_x509, read_certificate, with_certificate, read_chain, read_key_entry,
  read_trusted_entry, read_content, read_entry, read_entries, read_body, is_magic, java_keystore,
}

-- The reader reads these bytes and is not past their end.
abbrev pub IsIn : List ℕ → Reader → Type 0
IsIn bytes r = (r.data_bytes ≡ bytes) × (r.pos ≤ length bytes)

module _ (bytes : List ℕ) where
  take_bytes-IsIn : (n : ℕ) (r : Reader) → IsIn bytes r → IsIn bytes ((take_bytes n r).1)
  unfolding take_bytes remaining
  take_bytes-IsIn n r (d, p) = elim (Option-cases r.err) [
    | inl e ↦ elim (Bool-cases (ltb (remaining r) n)) [
      | inl h ↦ rw (take_bytes, e, h) (d, p)
      | inr h ↦ let l = ap length d in rw (take_bytes, e, h) (d, (ground (arith, l)))
    ]
    | inr (x, e) ↦ rw (take_bytes, e) (d, p)
  ]

  u16-IsIn : (r : Reader) → IsIn bytes r → IsIn bytes ((u16 r).1)
  unfolding u16
  u16-IsIn r h = take_bytes-IsIn 2 r h

  u32-IsIn : (r : Reader) → IsIn bytes r → IsIn bytes ((u32 r).1)
  unfolding u32
  u32-IsIn r h = take_bytes-IsIn 4 r h

  module _ {Cert : Type 0} (pc : List ℕ → Option Cert) (er : ℕ → List ℕ)
      (ut : List ℕ → String) where
    utf-IsIn : (r : Reader) → IsIn bytes r → IsIn bytes ((utf pc er ut r).1)
    unfolding utf
    utf-IsIn r h = take_bytes-IsIn _ _ (u16-IsIn r h)

    certificate_body-IsIn :
        (r : Reader) → IsIn bytes r → IsIn bytes ((certificate_body pc er ut r).1)
    unfolding certificate_body
    certificate_body-IsIn r h =
        let k = take_bytes-IsIn (u32 r).0 (u32 r).1 (u32-IsIn r h) in
        elim (Option-cases (take_bytes (u32 r).0 (u32 r).1).1.err) [
          | inl e ↦ rw (certificate_body, e) k
          | inr (x, e) ↦ rw (certificate_body, e) k
        ]

    read_certificate-IsIn :
        (v : ℕ) (r : Reader) → IsIn bytes r → IsIn bytes ((read_certificate pc er ut v r).1)
    unfolding read_certificate
    read_certificate-IsIn v r h = elim (Bool-cases (v == 2)) [
      | inl e ↦ elim (Bool-cases (is_x509 pc er ut (utf pc er ut r).0)) [
        | inl g ↦ rw (e, g) (certificate_body-IsIn _ (utf-IsIn r h))
        | inr g ↦ rw (e, g) (utf-IsIn r h)
      ]
      | inr e ↦ rw e (certificate_body-IsIn r h)
    ]

    read_chain-IsIn :
        (v n : ℕ) (r : Reader) → IsIn bytes r → IsIn bytes ((read_chain pc er ut v n r).1)
    unfolding read_chain
    read_chain-IsIn v zero r h = h
    read_chain-IsIn v (suc n) r h =
        let k = read_certificate-IsIn v r h in
        let rest = read_chain-IsIn v n (read_certificate pc er ut v r).1 k in
        elim (Option-cases (read_certificate pc er ut v r).0.0) [
          | inl e ↦ rw (read_chain, e) rest
          | inr (x, e) ↦ rw (read_chain, e) k
        ]

    with_certificate_bound :
        (c : Option Cert) (cs : List Cert)
        → length (with_certificate pc er ut c cs) ≤ suc (length cs)
    with_certificate_bound none cs = omega arith
    with_certificate_bound (some c) cs = omega arith

    read_chain_bound : (v n : ℕ) (r : Reader) → length (read_chain pc er ut v n r).0.1 ≤ n
    unfolding read_chain
    read_chain_bound v zero r = omega arith
    read_chain_bound v (suc n) r =
        let rest = read_chain_bound v n (read_certificate pc er ut v r).1 in
        let cs = (read_chain pc er ut v n (read_certificate pc er ut v r).1).0.1 in
        elim (Option-cases (read_certificate pc er ut v r).0.0) [
          | inl e ↦
              rw (read_chain, e)
                (omega (arith, rest, with_certificate_bound (read_certificate pc er ut v r).0.1 cs))
          | inr (x, e) ↦ rw (read_chain, e) (omega arith)
        ]

    chain_fits :
        (v n : ℕ) (r : Reader)
        → IsIn bytes r
        → ltb (length r.data_bytes / 12) n ≡ false
        → length (read_chain pc er ut v n r).0.1 ≤ max 1 (length bytes / 12)
    chain_fits v n r (d, p) g =
        let l = ap (λ bs. length {A = ℕ} bs / 12) d in
        let b = read_chain_bound v n r in ground (arith, l, b)

    -- what the rest of an entry leaves: a reader within the file, and no long list
    abbrev Within : (Option KeystoreError × List Cert) × Reader → Type 0
    Within ((e, cs), r) = IsIn bytes r × (length cs ≤ max 1 (length bytes / 12))

    read_trusted_entry-Within :
        (v : ℕ) (alias : String) (r : Reader)
        → IsIn bytes r
        → Within (read_trusted_entry pc er ut v alias r)
    unfolding read_trusted_entry
    read_trusted_entry-Within v alias r h =
        let k = read_certificate-IsIn v r h in
        let cert = (read_certificate pc er ut v r).0.1 in
        elim (Option-cases (read_certificate pc er ut v r).0.0) [
          | inl e ↦ rw (read_trusted_entry, e) (k, omega (arith, with_certificate_bound cert []))
          | inr (x, e) ↦ rw (read_trusted_entry, e) (k, omega arith)
        ]

    read_key_entry-Within :
        (v : ℕ) (alias : String) (r : Reader)
        → IsIn bytes r
        → Within (read_key_entry pc er ut v alias r)
    unfolding read_key_entry skip
    read_key_entry-Within v alias r h =
        let r2 = (u32 (skip (u32 r).0 (u32 r).1)).1 in
        let n = (u32 (skip (u32 r).0 (u32 r).1)).0 in
        let k = u32-IsIn _ (take_bytes-IsIn (u32 r).0 (u32 r).1 (u32-IsIn r h)) in
        let chain = read_chain pc er ut v n r2 in
        elim (Option-cases r2.err) [
          | inl e ↦ elim (Bool-cases (ltb (length r2.data_bytes / 12) n)) [
            | inl g ↦ rw (read_key_entry, e, g) (k, omega arith)
            | inr g ↦ elim (Option-cases chain.0.0) [
              | inl c ↦
                  rw (read_key_entry, e, g, c) (read_chain-IsIn v n r2 k, chain_fits v n r2 k g)
              | inr (x, c) ↦ rw (read_key_entry, e, g, c) (read_chain-IsIn v n r2 k, omega arith)
            ]
          ]
          | inr (x, e) ↦ rw (read_key_entry, e) (k, omega arith)
        ]

    read_content-Within :
        (v tag : ℕ) (alias : String) (r : Reader)
        → IsIn bytes r
        → Within (read_content pc er ut v tag alias r)
    unfolding read_content
    read_content-Within v tag alias r h = elim (Bool-cases (tag == 1)) [
      | inl a ↦ rw (read_content, a) (read_key_entry-Within v alias r h)
      | inr a ↦ elim (Bool-cases (tag == 2)) [
        | inl b ↦ rw (read_content, a, b) (read_trusted_entry-Within v alias r h)
        | inr b ↦ elim (Bool-cases (tag == 3)) [
          | inl c ↦ rw (read_content, a, b, c) (h, omega arith)
          | inr c ↦ rw (read_content, a, b, c) (h, omega arith)
        ]
      ]
    ]

    abbrev Held : (KeystoreError ⊎ KeystoreEntry Cert) × Reader → Type 0
    Held (inl e, r) = IsIn bytes r
    Held (inr x, r) = IsIn bytes r × (length x.certificates ≤ max 1 (length bytes / 12))

    read_entry-Held : (v i : ℕ) (r : Reader) → IsIn bytes r → Held (read_entry pc er ut v i r)
    unfolding read_entry skip
    read_entry-Held v i r h =
        let (alias, r2) = utf pc er ut (u32 r).1 in
        let tag = (u32 r).0 in
        let r3 = (take_bytes 8 r2).1 in
        let k = take_bytes-IsIn 8 r2 (utf-IsIn _ (u32-IsIn r h)) in
        let content = read_content pc er ut v tag alias r3 in
        let w = read_content-Within v tag alias r3 k in
        elim (Option-cases r3.err) [
          | inl e ↦ elim (Option-cases content.0.0) [
            | inl c ↦ rw (read_entry, e, c) w
            | inr (x, c) ↦ rw (read_entry, e, c) w.0
          ]
          | inr (x, e) ↦ rw (read_entry, e) k
        ]

    -- A list of entries none of which has more certificates than the file's size allows.
    abbrev pub IsSmall : KeystoreEntry Cert → Type 0
    IsSmall x = length x.certificates ≤ max 1 (length bytes / 12)

    Held-reader : (p : (KeystoreError ⊎ KeystoreEntry Cert) × Reader) → Held p → IsIn bytes p.1
    Held-reader (inl e, r) h = h
    Held-reader (inr x, r) h = h.0

    Held-IsSmall :
        (p : (KeystoreError ⊎ KeystoreEntry Cert) × Reader) (x : KeystoreEntry Cert)
        → Held p
        → p.0 ≡ inr x
        → IsSmall x
    Held-IsSmall (inl e, r) x h q = ground arith
    Held-IsSmall (inr y, r) x h q = ground arith

    read_entries-All :
        (v i n : ℕ) (r : Reader)
        → IsIn bytes r
        → (length (read_entries pc er ut v i n r).0 ≤ n)
          × All IsSmall (read_entries pc er ut v i n r).0
    unfolding read_entries
    read_entries-All v i zero r h = (omega arith, tt)
    read_entries-All v i (suc n) r h =
        let held = read_entry-Held v i r h in
        elim (Sum-cases (read_entry pc er ut v i r).0) [
          | inl (e, q) ↦ rw (read_entries, q) (omega arith, tt)
          | inr (x, q) ↦
              let k = Held-reader (read_entry pc er ut v i r) held in
              let rest = read_entries-All v (suc i) n (read_entry pc er ut v i r).1 k in
              rw (read_entries, q)
                (omega (arith, rest.0), (Held-IsSmall (read_entry pc er ut v i r) x held q, rest.1))
        ]

    read_body-All :
        (v : ℕ) (r : Reader)
        → IsIn bytes r
        → (length (read_body pc er ut bytes v r).0 ≤ length bytes / 12)
          × All IsSmall (read_body pc er ut bytes v r).0
    unfolding read_body
    read_body-All v r h = elim (Option-cases (u32 r).1.err) [
      | inl e ↦ elim (Bool-cases (ltb (length bytes / 12) (u32 r).0)) [
        | inl g ↦ rw (read_body, e, g) (omega arith, tt)
        | inr g ↦
            let rest = read_entries-All v 1 (u32 r).0 (u32 r).1 (u32-IsIn r h) in
            rw (read_body, e, g) (ground (arith, rest.0), rest.1)
      ]
      | inr (x, e) ↦ rw (read_body, e) (omega arith, tt)
    ]

    -- Whatever the bytes, JavaKeystore returns at most one entry for every 12 of them, and no entry
    -- has more certificates than one for every 12 bytes (or one).
    pub java_keystore-All :
        (length (java_keystore pc er ut bytes).0 ≤ length bytes / 12)
        × All IsSmall (java_keystore pc er ut bytes).0
    unfolding java_keystore
    java_keystore-All =
        let r1 = u32 (record { data_bytes = bytes; pos = 0; err = none }) in
        let r2 = u32 r1.1 in
        let k =
          u32-IsIn _
            (u32-IsIn (record { data_bytes = bytes; pos = 0; err = none }) (refl, omega arith)) in
        elim (Option-cases r1.1.err) [
          | inl e ↦ elim (Bool-cases (is_magic pc er ut r1.0)) [
            | inl m ↦ elim (Bool-cases (r2.0 == 1 || r2.0 == 2)) [
              | inl g ↦ rw (java_keystore, e, m, g) (read_body-All r2.0 r2.1 k)
              | inr g ↦ rw (java_keystore, e, m, g) (omega arith, tt)
            ]
            | inr m ↦ rw (java_keystore, e, m) (omega arith, tt)
          ]
          | inr (x, e) ↦ rw (java_keystore, e) (omega arith, tt)
        ]
