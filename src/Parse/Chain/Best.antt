-- ===== src/Parse/Chain/Best.antt =====
-- The issuer that issuerOf takes is the best of all the certificates of the store that issued.
use dtp_discovery_agent.Common.{
  ℕ, ◌≤◌, ◌≡◌, refl, true, false, Option, none, some, List, [], ◌∷◌, arith, Bool-cases, ==_iff,
  ◌==◌, inl, inr, ◌∙◌, sym, ◌↔◌,
}
use dtp_discovery_agent.Parse.Certificate.{World, may_issue}
use dtp_discovery_agent.Parse.Chain.{
  Work, Index, stopped, has, chosen, issuer_of, new_store, valid_now,
}
use mathlib.Core.Path.{subst}
use dtp_discovery_agent.Parse.Chain.Filing.{filed, issuers_in, new_store-filing}
use dtp_discovery_agent.Parse.Chain.Members.{has-issuers_in, has-issuers_in_of}
use dtp_discovery_agent.Parse.Chain.Checks.{IsSound}
use dtp_discovery_agent.Parse.Chain.Reference.{
  rank_of, signed_itself, better, pick, best_issuer, issuer_of-exact,
}

module _ (w : World) where
  open w use {certificate, check_signature}

  -- the best so far has its own rank, which is at least k
  abbrev Tops : ℕ → ℕ → Option (ℕ × ℕ) → Type 0
  Tops now k none = ⊥
  Tops now k (some (p, r)) = (r ≡ rank_of w now p) × (k ≤ r)

  abbrev Ranked : ℕ → Option (ℕ × ℕ) → Type 0
  Ranked now none = Unit
  Ranked now (some (p, r)) = r ≡ rank_of w now p

  better-Ranked :
      (now cert : ℕ) (visited : List ℕ) (best : Option (ℕ × ℕ)) (ca : ℕ)
      → Ranked now best
      → Ranked now (better w now cert visited best ca)
  unfolding better
  better-Ranked now cert visited best ca h = ground arith

  better-Tops :
      (now cert : ℕ) (visited : List ℕ) (k : ℕ) (best : Option (ℕ × ℕ)) (ca : ℕ)
      → Tops now k best
      → Tops now k (better w now cert visited best ca)
  unfolding better
  better-Tops now cert visited k best ca h = ground arith

  pick-Tops :
      (now cert : ℕ) (visited : List ℕ) (k : ℕ) (best : Option (ℕ × ℕ)) (cas : List ℕ)
      → Tops now k best
      → Tops now k (pick w now cert visited best cas)
  unfolding pick
  pick-Tops now cert visited k best [] h = h
  pick-Tops now cert visited k best (ca ∷ cas) h =
      pick-Tops now cert visited k (better w now cert visited best ca) cas
        (better-Tops now cert visited k best ca h)

  better_takes :
      (now cert : ℕ) (visited : List ℕ) (best : Option (ℕ × ℕ)) (ca : ℕ)
      → Ranked now best
      → has visited ca ≡ false
      → check_signature ca cert ≡ true
      → Tops now (rank_of w now ca) (better w now cert visited best ca)
  unfolding better
  better_takes now cert visited best ca h new signs = ground arith

  pick-best :
      (now cert : ℕ) (visited : List ℕ) (best : Option (ℕ × ℕ)) (cas : List ℕ) (ca : ℕ)
      → Ranked now best
      → has cas ca ≡ true
      → has visited ca ≡ false
      → check_signature ca cert ≡ true
      → Tops now (rank_of w now ca) (pick w now cert visited best cas)
  unfolding pick
  pick-best now cert visited best [] ca r m new signs = cc
  pick-best now cert visited best (c ∷ cas) ca r m new signs = elim (Bool-cases (c == ca)) [
    | inl e ↦
        let same = (==_iff c ca).0 e in
        pick-Tops now cert visited (rank_of w now ca) (better w now cert visited best c) cas
          (rw same (better_takes now cert visited best ca r new signs))
    | inr e ↦
        pick-best now cert visited (better w now cert visited best c) cas ca
          (better-Ranked now cert visited best c r) (ground arith) new signs
  ]

  Tops-chosen :
      (now k : ℕ) (o : Option (ℕ × ℕ))
      → Tops now k o
      → (p : ℕ) × (chosen o ≡ some p) × (k ≤ rank_of w now p)
  Tops-chosen now k none h = elim h [ ]
  Tops-chosen now k (some (p, r)) h = (p, refl, ground arith)

  -- what the best so far is, where there is one: a candidate that is not visited and signed
  abbrev Signer : ℕ → List ℕ → List ℕ → Option (ℕ × ℕ) → Type 0
  Signer cert visited cas none = Unit
  Signer cert visited cas (some (p, r)) =
      (has cas p ≡ true) × (has visited p ≡ false) × (check_signature p cert ≡ true)

  better-Signer :
      (now cert : ℕ) (visited cas : List ℕ) (best : Option (ℕ × ℕ)) (ca : ℕ)
      → has cas ca ≡ true
      → Signer cert visited cas best
      → Signer cert visited cas (better w now cert visited best ca)
  unfolding better
  better-Signer now cert visited cas best ca m h = ground arith

  pick-Signer :
      (now cert : ℕ) (visited cas : List ℕ) (best : Option (ℕ × ℕ)) (more : List ℕ)
      → ((ca : ℕ) → has more ca ≡ true → has cas ca ≡ true)
      → Signer cert visited cas best
      → Signer cert visited cas (pick w now cert visited best more)
  unfolding pick
  pick-Signer now cert visited cas best [] k h = h
  pick-Signer now cert visited cas best (ca ∷ more) k h =
      pick-Signer now cert visited cas (better w now cert visited best ca) more
        (λ c m. k c (ground arith))
        (better-Signer now cert visited cas best ca (k ca (ground (arith, ==_iff ca ca))) h)

  Signer-chosen :
      (cert : ℕ) (visited cas : List ℕ) (o : Option (ℕ × ℕ)) {p : ℕ}
      → Signer cert visited cas o
      → chosen o ≡ some p
      → (has cas p ≡ true) × (has visited p ≡ false) × (check_signature p cert ≡ true)
  Signer-chosen cert visited cas none h e = absurd cc
  Signer-chosen cert visited cas (some (q, r)) {p} h e = let same : q ≡ p = cc in rw (← same) h

  abbrev pub IsCurrent : ℕ → ℕ → Type 0
  IsCurrent now p = ((certificate p).not_before ≤ now) × (now ≤ (certificate p).not_after)

  -- It may issue `cert`: a certificate of the list that bears the issuer's name, may issue by its
  -- extensions, was not visited before, and whose key verifies the signature.
  pub record MayIssue (all : List ℕ) (cert : ℕ) (visited : List ℕ) (p : ℕ) : Type 0 where
    pub held : has all p ≡ true
    pub named : (certificate p).raw_subject ≡ (certificate cert).raw_issuer
    pub allowed : may_issue (certificate p) ≡ true
    pub fresh : has visited p ≡ false
    pub signs : check_signature p cert ≡ true

  -- `p` is to be preferred to `ca`, or as good: current where that is, and self-signed where that
  -- is and both or neither are current.
  pub record IsPreferred (now ca p : ℕ) : Type 0 where
    pub current : IsCurrent now ca → IsCurrent now p
    pub root :
        IsCurrent now ca ↔ IsCurrent now p → signed_itself w ca ≡ true → signed_itself w p ≡ true

  rank-IsPreferred : (now ca p : ℕ) → rank_of w now ca ≤ rank_of w now p → IsPreferred now ca p
  unfolding rank_of valid_now
  rank-IsPreferred now ca p le = record { current = λ h. ground arith; root = λ h e. ground arith }

  filed-best :
      (total now ours : ℕ) (ps : List ℕ) (cert : ℕ) (visited : List ℕ) (s : Work) (ca : ℕ)
      → IsSound w total s
      → stopped (issuer_of w (filed w now ours ps) cert visited s).1 ≡ false
      → MayIssue ps cert visited ca
      → (p : ℕ) × ((issuer_of w (filed w now ours ps) cert visited s).0 ≡ some p)
        × MayIssue ps cert visited p
        × IsPreferred now ca p
  unfolding best_issuer
  filed-best total now ours ps cert visited s ca h go m =
      let x = filed w now ours ps in
      let name = (certificate cert).raw_issuer in
      let cas = issuers_in w ps name in
      let o = pick w now cert visited none cas in
      let listed = has-issuers_in w ps name ca m.held m.allowed m.named in
      let (p, e, le) =
        Tops-chosen now (rank_of w now ca) o
          (pick-best now cert visited none cas ca tt listed m.fresh m.signs) in
      let (there, fresh, signs) =
        Signer-chosen cert visited cas o {p = p}
          (pick-Signer now cert visited cas none cas (λ c k. k) tt) e in
      let (held, allowed, named) = has-issuers_in_of w ps name p there in
      (
        p,
        issuer_of-exact w total x cert visited s h go ∙ e,
        record { held = held; named = named; allowed = allowed; fresh = fresh; signs = signs },
        rank-IsPreferred now ca p le,
      )

  -- While neither the budget nor the time has run out: where a certificate of the store bears the
  -- issuer's name of `cert`, may issue, was not visited before and signed `cert`, issuerOf answers
  -- with such a certificate, and with one that is currently valid if that one is, and that signed
  -- itself if that one did and the two are both currently valid or both not.
  pub issuer_of-best :
      (now left polls total : ℕ) (certs issuers : List (Option ℕ)) (cert : ℕ) (visited : List ℕ)
      (s : Work) (ca : ℕ)
      → IsSound w total s
      → stopped (issuer_of w (new_store w now left polls certs issuers).index cert visited s).1
        ≡ false
      → MayIssue (new_store w now left polls certs issuers).index.all cert visited ca
      → (p : ℕ) × ((issuer_of w (new_store w now left polls certs issuers).index cert visited s).0
          ≡ some p)
        × MayIssue (new_store w now left polls certs issuers).index.all cert visited p
        × IsPreferred now ca p
  issuer_of-best now left polls total certs issuers cert visited s ca h go m =
      subst
        (λ (x : Index).
          stopped (issuer_of w x cert visited s).1 ≡ false
          → MayIssue x.all cert visited ca
          → (p : ℕ) × ((issuer_of w x cert visited s).0 ≡ some p)
            × MayIssue x.all cert visited p
            × IsPreferred now ca p)
        (sym (new_store-filing w now left polls certs issuers))
        (filed-best total now _ _ cert visited s ca h) go m
