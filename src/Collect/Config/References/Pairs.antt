-- ===== src/Collect/Config/References/Pairs.antt =====
-- Which key and chain pairCertificates puts beside a certificate.
use dtp_discovery_agent.Common.{
  ℕ, suc, ◌+◌, String, ◌≡◌, refl, ap, ◌∙◌, inl, inr, true, Option, some, List, [], ◌∷◌, arith,
  Bool-cases, get_elem?, All,
}
use dtp_discovery_agent.Collect.Config.References.{
  CertificateRef, is_readable_path, key_at, chain_at, pair_from, pair_certificates,
}

module _ (path_unescape : String → Option String) where
  -- The reference is of the readable certificate at some position, with the key and the chain at
  -- that position, of which the key is named only by key_reference.
  abbrev pub IsPairedFrom : ℕ → List String → List String → List String → CertificateRef → Type 0
  IsPairedFrom n certs keys chains r =
      (i : ℕ) × (get_elem? certs i ≡ some r.certificate)
      × (is_readable_path r.certificate ≡ true)
      × (r.key ≡ key_at path_unescape keys (n + i))
      × (r.chain ≡ chain_at path_unescape chains (n + i))

  abbrev pub IsPaired : List String → List String → List String → CertificateRef → Type 0
  IsPaired = IsPairedFrom 0

  shift :
      (n : ℕ) (cert : String) (certs keys chains : List String) (rs : List CertificateRef)
      → All (IsPairedFrom (suc n) certs keys chains) rs
      → All (IsPairedFrom n (cert ∷ certs) keys chains) rs
  shift n cert certs keys chains [] h = tt
  shift n cert certs keys chains (r ∷ rs) ((i, a, b, c, d), h) =
      let e : suc n + i ≡ n + suc i = omega arith in
      (
        (
          suc i,
          a,
          b,
          c ∙ ap (λ k. key_at path_unescape keys k) e,
          d ∙ ap (λ k. chain_at path_unescape chains k) e,
        ),
        shift n cert certs keys chains rs h,
      )

  pair_from-IsPaired :
      (n : ℕ) (certs keys chains : List String)
      → All (IsPairedFrom n certs keys chains) (pair_from path_unescape n certs keys chains)
  unfolding pair_from
  pair_from-IsPaired n [] keys chains = tt
  pair_from-IsPaired n (cert ∷ certs) keys chains =
      let rest = shift n cert certs keys chains _ (pair_from-IsPaired (suc n) certs keys chains) in
      elim (Bool-cases (is_readable_path cert)) [
        | inl e ↦
            let z : n ≡ n + 0 = omega arith in
            rw (pair_from, e)
              (
                (
                  0,
                  refl,
                  e,
                  ap (λ k. key_at path_unescape keys k) z,
                  ap (λ k. chain_at path_unescape chains k) z,
                ),
                rest,
              )
        | inr e ↦ rw (pair_from, e) rest
      ]

  -- Every reference that pairCertificates makes is of the readable certificate at some position,
  -- with the chain at that position and of the key there no more than key_reference says.
  pub pair_certificates-IsPaired :
      (certs keys chains : List String)
      → All (IsPaired certs keys chains) (pair_certificates path_unescape certs keys chains)
  unfolding pair_certificates
  pair_certificates-IsPaired certs keys chains = pair_from-IsPaired 0 certs keys chains
