-- ===== src/Parse/Chain/Members.antt =====
-- What the lists that NewStore's index is read off hold.
use dtp_discovery_agent.Common.{
  ℕ, String, ◌≡◌, refl, ap, sym, ◌∙◌, true, ◌&&◌, Option, none, some, List, [], ◌∷◌, ◌++◌, arith,
  ◌==◌, Option-cases, Bool-cases, inl, inr, length, take, append-nil, append_assoc, str_eq, eq_iff,
  ==_iff,
}
use dtp_discovery_agent.Parse.Certificate.{World, may_issue}
use dtp_discovery_agent.Parse.Chain.{has, max_certificates_per_store}
use dtp_discovery_agent.Parse.Chain.Filing.{issuers_in, joined_by, gathered, copy_in}

module _ (w : World) where
  open w use {certificate}

  joined_by-prefix :
      (ps qs : List ℕ) (c : Option ℕ) → (rs : List ℕ) × (joined_by w (ps ++ qs) c ≡ ps ++ rs)
  unfolding joined_by
  joined_by-prefix ps qs none = (qs, refl)
  joined_by-prefix ps qs (some p) = elim (Option-cases (copy_in w (ps ++ qs) (certificate p).raw)) [
    | inl e ↦ elim (Bool-cases (length (ps ++ qs) == max_certificates_per_store)) [
      | inl full ↦ (qs, rw (joined_by, e, full) refl)
      | inr room ↦ (qs ++ p ∷ [], rw (joined_by, e, room) (append_assoc ps qs (p ∷ [])))
    ]
    | inr (q, e) ↦ (qs, rw (joined_by, e) refl)
  ]

  gathered-prefix :
      (ps qs : List ℕ) (cs : List (Option ℕ))
      → (rs : List ℕ) × (gathered w (ps ++ qs) cs ≡ ps ++ rs)
  unfolding gathered
  gathered-prefix ps qs [] = (qs, refl)
  gathered-prefix ps qs (c ∷ cs) =
      let (rs, e) = joined_by-prefix ps qs c in
      let (ss, e') = gathered-prefix ps rs cs in (ss, ap (λ t. gathered w t cs) e ∙ e')

  take-length-append : (ps rs : List ℕ) → take (length ps) (ps ++ rs) ≡ ps
  take-length-append [] rs = refl
  take-length-append (p ∷ ps) rs = ap (λ t. p ∷ t) (take-length-append ps rs)

  -- The certificates that are no extra issuers are the first of the index.
  pub take-gathered :
      (ps : List ℕ) (cs : List (Option ℕ)) → take (length ps) (gathered w ps cs) ≡ ps
  take-gathered ps cs =
      let (rs, e) = gathered-prefix ps [] cs in
      ap (λ t. take (length ps) t) (ap (λ t. gathered w t cs) (sym (append-nil ps)) ∙ e)
      ∙ take-length-append ps rs

  pub has-issuers_in :
      (ps : List ℕ) (name : String) (p : ℕ)
      → has ps p ≡ true
      → may_issue (certificate p) ≡ true
      → (certificate p).raw_subject ≡ name
      → has (issuers_in w ps name) p ≡ true
  unfolding issuers_in
  has-issuers_in [] name p h m e = cc
  has-issuers_in (q ∷ ps) name p h m e =
      ground (arith, has-issuers_in ps name p, ==_iff q p, eq_iff (certificate p).raw_subject name)

  pub has-issuers_in_of :
      (ps : List ℕ) (name : String) (p : ℕ)
      → has (issuers_in w ps name) p ≡ true
      → (has ps p ≡ true)
        × (may_issue (certificate p) ≡ true)
        × ((certificate p).raw_subject ≡ name)
  unfolding issuers_in
  has-issuers_in_of [] name p h = absurd cc
  has-issuers_in_of (q ∷ ps) name p h =
      elim (Bool-cases (may_issue (certificate q) && str_eq (certificate q).raw_subject name)) [
        | inl e ↦ elim (Bool-cases (q == p)) [
          | inl s ↦
              let same = (==_iff q p).0 s in
              rw (← same) (
                ground (arith, ==_iff q q),
                ground arith,
                (eq_iff (certificate q).raw_subject name).0 (ground arith),
              )
          | inr s ↦
              let h' : has (issuers_in w ps name) p ≡ true = ground arith in
              let (a, b, c) = has-issuers_in_of ps name p h' in (ground arith, b, c)
        ]
        | inr e ↦
            let h' : has (issuers_in w ps name) p ≡ true = rw (issuers_in, e) at h in
            let (a, b, c) = has-issuers_in_of ps name p h' in (ground arith, b, c)
      ]
