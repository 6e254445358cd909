-- ===== src/Parse/Chain/Leaves.antt =====
-- What Leaves reports: end-entity certificates of the input, each under its own chain.
use dtp_discovery_agent.Common.{
  ℕ, zero, suc, ◌+◌, ◌≤◌, ◌≡◌, false, Option, some, List, [], ◌∷◌, ◌++◌, arith, ◌==◌, All,
  All-append, Bool-cases, inl, inr, length, length-append, take,
}
use dtp_discovery_agent.Parse.Certificate.{World}
use dtp_discovery_agent.Parse.Chain.{
  Work, Index, LeafWithChain, chain_for, canonical_of, is_issuer, leaves_from, leaves, new_store,
  max_leaves_per_store, max_chain_depth,
}
use dtp_discovery_agent.Parse.Chain.Keeps.{is_issuer_keeps, chain_for_keeps}
use dtp_discovery_agent.Parse.Chain.Checks.{IsSound, IsSound-stable, new_store-IsSound}
use dtp_discovery_agent.Parse.Chain.Links.{IsIndexed, Linked, Fresh, chain_for-Linked}
use dtp_discovery_agent.Parse.Chain.Indexing.{IsCanonical, new_store-IsWellFormed}

All-take {ℓ} : {A : Type ℓ} (P : A → Type 0) (n : ℕ) (xs : List A) → All P xs → All P (take n xs)
All-take P zero xs h = tt
All-take P (suc n) [] h = tt
All-take P (suc n) (x ∷ xs) h = (h.0, All-take P n xs h.1)

module _ (w : World) where
  open w use {certificate, cancelled}

  -- a certificate that does not say it is a CA, and the chain of certificates that issued it
  pub record IsReported (l : LeafWithChain) : Type 0 where
    pub end_entity : (certificate l.leaf).is_ca ≡ false
    pub linked : Linked w l.leaf l.chain
    pub fresh : Fresh (l.leaf ∷ []) l.chain
    pub bounded : length l.chain ≤ max_chain_depth

  canonical_of_self :
      (x : Index) (p : ℕ) → x.canonical (certificate p).raw ≡ some p → canonical_of w x p ≡ p
  canonical_of_self x p e = rw (e, canonical_of)

  chain_for-IsReported :
      (total : ℕ) (x : Index) (p : ℕ) (s : Work)
      → IsIndexed w x
      → IsSound w total s
      → x.canonical (certificate p).raw ≡ some p
      → (certificate p).is_ca ≡ false
      → IsReported (record { leaf = p; chain = (chain_for w x p s).0 })
  chain_for-IsReported total x p s ix h e ca =
      let (linked, fresh, bounded) = chain_for-Linked w total x p s ix h in
      record {
        end_entity = ca;
        linked = rw (canonical_of_self x p e) at linked;
        fresh = rw (canonical_of_self x p e) at fresh;
        bounded = bounded;
      }

  not_ca :
      (x : Index) (cert : ℕ) (s : Work)
      → (is_issuer w x cert s).0 ≡ false
      → (certificate cert).is_ca ≡ false
  unfolding is_issuer
  not_ca x cert s h = ground arith

  module _ (total : ℕ) (x : Index) (ix : IsIndexed w x) where
    leaves_from-IsReported :
        (out : List LeafWithChain) (rest : List ℕ) (s : Work)
        → IsSound w total s
        → IsCanonical w x.canonical rest
        → All IsReported out
        → length out ≤ max_leaves_per_store
        → All IsReported (leaves_from w x out rest s).0
          × (length (leaves_from w x out rest s).0 ≤ max_leaves_per_store)
    unfolding leaves_from
    leaves_from-IsReported out [] s h c g b = (g, b)
    leaves_from-IsReported out (cert ∷ rest) s h c g b =
        let t : Work = record s { polls = s.polls + 1 } in
        let sound = IsSound-stable w total in
        let (issuer, s') = is_issuer w x cert t in
        let h' = is_issuer_keeps w (IsSound w total) sound x cert t (sound.poll_keeps s h) in
        elim (Bool-cases (cancelled s.polls)) [
          | inl e ↦ rw (e, leaves_from) (g, b)
          | inr e ↦
              rw (e, leaves_from)
                (elim (Bool-cases issuer) [
                  | inl i ↦ rw (i, leaves_from) (leaves_from-IsReported out rest s' h' c.1 g b)
                  | inr i ↦
                      rw (i, leaves_from)
                        (elim (Bool-cases (length out == max_leaves_per_store)) [
                          | inl f ↦ rw (f, leaves_from) (g, b)
                          | inr f ↦
                              let l : LeafWithChain = record {
                                leaf = cert;
                                chain = (chain_for w x cert s').0;
                              } in
                              let good =
                                chain_for-IsReported total x cert s' ix h' c.0
                                  (not_ca x cert t i) in
                              rw (f, leaves_from)
                                (leaves_from-IsReported (out ++ l ∷ []) rest
                                  (chain_for w x cert s').1
                                  (chain_for_keeps w (IsSound w total) sound x cert s' h') c.1
                                  (All-append IsReported out (l ∷ []) g (good, tt))
                                  (ground (arith, length-append out (l ∷ []))))
                        ])
                ])
        ]

  -- Whatever a file holds, Leaves reports at most `max_leaves_per_store` certificates, none of them
  -- marked as a CA, and the chain of each holds only certificates that issued the one below, none
  -- twice and at most `max_chain_depth` of them.
  pub leaves-IsReported :
      (now left polls : ℕ) (certs issuers : List (Option ℕ))
      → All IsReported (leaves w (new_store w now left polls certs issuers)).0
        × (length (leaves w (new_store w now left polls certs issuers)).0 ≤ max_leaves_per_store)
  unfolding leaves
  leaves-IsReported now left polls certs issuers =
      let s = new_store w now left polls certs issuers in
      let formed = new_store-IsWellFormed w now left polls certs issuers in
      leaves_from-IsReported left s.index formed.indexed [] (take s.index.ours s.index.all) s.work
        (new_store-IsSound w now left polls certs issuers)
        (All-take _ s.index.ours s.index.all formed.copies) tt (omega arith)
