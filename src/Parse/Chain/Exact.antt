-- ===== src/Parse/Chain/Exact.antt =====
-- Leaves with its index, budget and memory, against the reference without them.
use dtp_discovery_agent.Common.{
  ℕ, zero, suc, ◌+◌, ◌-◌, ◌≡◌, refl, Bool, true, false, Option, ap, List, [], ◌∷◌, ◌++◌, arith,
  ◌==◌, ◌||◌, Bool-cases, inl, inr, length, length-append, take, append-nil, append_assoc, sym, ◌∙◌,
}
use dtp_discovery_agent.Parse.Certificate.{World}
use dtp_discovery_agent.Parse.Chain.{
  Work, Index, LeafWithChain, stopped, chain_for, is_issuer, leaves_from, leaves, new_store,
  max_leaves_per_store,
}
use dtp_discovery_agent.Parse.Chain.Keeps.{is_issuer_keeps, chain_for_keeps, leaves_from_keeps}
use dtp_discovery_agent.Parse.Chain.Checks.{IsSound, IsSound-stable, new_store-IsSound}
use dtp_discovery_agent.Parse.Chain.Filing.{filing, gathered, new_store-filing}
use dtp_discovery_agent.Parse.Chain.Members.{take-gathered}
use dtp_discovery_agent.Parse.Chain.Reference.{
  Stays, Stays-stable, ran, issues, all_leaves, chain_for-exact, is_issuer-exact,
}

take-nil {ℓ} : {A : Type ℓ} (n : ℕ) → take {A = A} n [] ≡ []
take-nil zero = refl
take-nil (suc n) = refl

stopped_now : (b : Bool) → ¬ ((b || true) ≡ false)
stopped_now b h = ground arith

module _ (w : World) (total : ℕ) where
  open w use {cancelled}

  leaves_from-exact :
      (room : ℕ) (x : Index) (out : List LeafWithChain) (rest : List ℕ) (s : Work)
      → IsSound w total s
      → length out + room ≡ max_leaves_per_store
      → stopped (leaves_from w x out rest s).1 ≡ false
      → (leaves_from w x out rest s).0 ≡ out ++ take room (all_leaves w x rest)
  unfolding leaves_from all_leaves
  leaves_from-exact room x out [] s h m go = rw (take-nil room) (sym (append-nil out))
  leaves_from-exact room x out (cert ∷ rest) s h m go =
      let t : Work = record s { polls = s.polls + 1 } in
      let sound = IsSound-stable w total in
      let (issuer, s') = is_issuer w x cert t in
      let h' = is_issuer_keeps w (IsSound w total) sound x cert t (sound.poll_keeps s h) in
      elim (Bool-cases (cancelled s.polls)) [
        | inl e ↦ absurd (stopped_now s.short.out_of_budget (rw (e, leaves_from) at go))
        | inr e ↦ elim (Bool-cases issuer) [
          | inl i ↦
              let later = leaves_from w x out rest s' in
              let go' : stopped later.1 ≡ false =
                rw (i, leaves_from) at (rw (e, leaves_from) at go) in
              let went =
                ran w s' later.1
                  (leaves_from_keeps w (Stays w s') (Stays-stable w s') x out rest s' (λ e. e))
                  go' in
              let n : issues w x cert ≡ true =
                sym (is_issuer-exact w total x cert t (sound.poll_keeps s h) went) ∙ i in
              rw (e, leaves_from)
                (rw (i, leaves_from)
                  (rw (n, all_leaves) (leaves_from-exact room x out rest s' h' m go')))
          | inr i ↦ elim (Bool-cases (length out == max_leaves_per_store)) [
            | inl f ↦
                let z : room ≡ 0 = ground arith in
                rw (e, leaves_from)
                  (rw (i, leaves_from) (rw (f, leaves_from) (rw z (sym (append-nil out)))))
            | inr f ↦
                let (chain, s'') = chain_for w x cert s' in
                let l : LeafWithChain = record { leaf = cert; chain = chain } in
                let later = leaves_from w x (out ++ l ∷ []) rest s'' in
                let go' : stopped later.1 ≡ false =
                  rw (f, leaves_from) at (rw (i, leaves_from) at (rw (e, leaves_from) at go)) in
                let went'' =
                  ran w s'' later.1
                    (leaves_from_keeps w (Stays w s'') (Stays-stable w s'') x (out ++ l ∷ []) rest
                      s'' (λ e. e))
                    go' in
                let went =
                  ran w s' s''
                    (chain_for_keeps w (Stays w s') (Stays-stable w s') x cert s' (λ e. e))
                    went'' in
                let n : issues w x cert ≡ false =
                  sym (is_issuer-exact w total x cert t (sound.poll_keeps s h) went) ∙ i in
                let k : room ≡ suc (room - 1) = ground arith in
                let c = chain_for-exact w total x cert s' h' went'' in
                let ih =
                  leaves_from-exact (room - 1) x (out ++ l ∷ []) rest s''
                    (chain_for_keeps w (IsSound w total) sound x cert s' h')
                    (ground (arith, length-append out (l ∷ []))) go' in
                rw (e, leaves_from)
                  (rw (i, leaves_from)
                    (rw (f, leaves_from)
                      (rw (n, all_leaves)
                        (rw k (
                          rw (← c) (
                            ih
                            ∙ append_assoc out (l ∷ [])
                                (take (room - 1) (all_leaves w x rest))))))))
          ]
        ]
      ]

  leaves-exact_from :
      (x : Index) (rest : List ℕ) (s : Work)
      → IsSound w total s
      → stopped (leaves_from w x [] rest s).1 ≡ false
      → (leaves_from w x [] rest s).0 ≡ take max_leaves_per_store (all_leaves w x rest)
  leaves-exact_from x rest s h go =
      leaves_from-exact max_leaves_per_store x [] rest s h (omega arith) go

-- Where Leaves ends with neither its budget gone nor an interruption, it reports exactly the first
-- `max_leaves_per_store` of the certificates it was given, one copy of each DER up to the store's
-- limit, that are no CA and are not allowed to issue with the signature of another certificate of
-- the store that names them. Each comes with the chain that CheckSignature alone decides among the
-- certificates of both inputs.
pub leaves-exact :
    (w : World) (now left polls : ℕ) (certs issuers : List (Option ℕ))
    → stopped (leaves w (new_store w now left polls certs issuers)).1 ≡ false
    → (leaves w (new_store w now left polls certs issuers)).0
      ≡ take max_leaves_per_store (all_leaves w (filing w now certs issuers) (gathered w [] certs))
unfolding leaves
leaves-exact w now left polls certs issuers go =
    let s = new_store w now left polls certs issuers in
    let ours = gathered w [] certs in
    let same = new_store-filing w now left polls certs issuers in
    leaves-exact_from w left s.index (take s.index.ours s.index.all) s.work
      (new_store-IsSound w now left polls certs issuers) go
    ∙ ap (λ x. take max_leaves_per_store (all_leaves w x (take x.ours x.all))) same
    ∙ ap (λ l. take max_leaves_per_store (all_leaves w (filing w now certs issuers) l))
        (take-gathered w ours issuers)
