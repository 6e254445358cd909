-- ===== src/Parse/Chain/Links.antt =====
-- Chains hold only certificates that issued the one below them, no certificate twice, and no more
-- than `max_chain_depth`.
use dtp_discovery_agent.Common.{
  ℕ, zero, suc, String, ◌≤◌, ◌≡◌, Bool, true, false, Option, none, some, List, [], ◌∷◌, arith, All,
  Option-cases, inl, inr, if◌then◌else◌, length,
}
use dtp_discovery_agent.Parse.Certificate.{World, may_issue}
use dtp_discovery_agent.Parse.Chain.{
  Work, Index, has, self_signed, weigh, consider, scan, issuer_of, next_link, climb, chain_for,
  canonical_of, max_chain_depth, chosen, stopped,
}
use dtp_discovery_agent.Parse.Chain.Keeps.{self_signed_keeps, consider_keeps, next_link_keeps}
use dtp_discovery_agent.Parse.Chain.Checks.{IsSound, IsSound-stable, signed-genuine}

module _ (w : World) where
  open w use {certificate, check_signature}

  -- the second certificate issued the first: by name, by its extensions and by its signature
  abbrev pub Issued : ℕ → ℕ → Type 0
  Issued child issuer =
      ((certificate issuer).raw_subject ≡ (certificate child).raw_issuer)
      × (may_issue (certificate issuer) ≡ true)
      × (check_signature issuer child ≡ true)

  abbrev pub Linked : ℕ → List ℕ → Type 0
  Linked p [] = Unit
  Linked p (q ∷ qs) = Issued p q × Linked q qs

  -- the entries of `by_subject` bear that name and may issue
  abbrev pub IsIndexed : Index → Type 0
  IsIndexed x =
      (n : String)
      → All (λ p. ((certificate p).raw_subject ≡ n) × (may_issue (certificate p) ≡ true))
          (x.by_subject n)

-- no item of the second list is in the first, and none is there twice
abbrev pub Fresh : List ℕ → List ℕ → Type 0
Fresh visited [] = Unit
Fresh visited (p ∷ ps) = (has visited p ≡ false) × Fresh (p ∷ visited) ps

module _ (w : World) (total : ℕ) where
  open w use {certificate, check_signature}

  -- what holds of the best candidate so far
  abbrev Fits : ℕ → List ℕ → Option (ℕ × ℕ) → Type 0
  Fits cert visited none = Unit
  Fits cert visited (some (p, r)) = Issued w cert p × (has visited p ≡ false)

  consider-Fits :
      (now cert : ℕ) (visited : List ℕ) (best : Option (ℕ × ℕ)) (ca : ℕ) (s : Work)
      → IsSound w total s
      → (certificate ca).raw_subject ≡ (certificate cert).raw_issuer
      → may_issue (certificate ca) ≡ true
      → Fits cert visited best
      → Fits cert visited (consider w now cert visited best ca s).0
  unfolding consider weigh
  consider-Fits now cert visited best ca s h n m f =
      ground (arith, signed-genuine w total cert ca s h)

  scan-Fits :
      (now cert : ℕ) (visited : List ℕ) (best : Option (ℕ × ℕ)) (cas : List ℕ) (s : Work)
      → IsSound w total s
      → All
          (λ p.
            ((certificate p).raw_subject ≡ (certificate cert).raw_issuer)
            × (may_issue (certificate p) ≡ true))
          cas
      → Fits cert visited best
      → Fits cert visited (scan w now cert visited best cas s).0
  unfolding scan
  scan-Fits now cert visited best [] s h a f = f
  scan-Fits now cert visited best (ca ∷ cas) s h a f =
      let (best', s') = consider w now cert visited best ca s in
      scan-Fits now cert visited best' cas s'
        (consider_keeps w (IsSound w total) (IsSound-stable w total) now cert visited best ca s h)
        a.1 (consider-Fits now cert visited best ca s h a.0.0 a.0.1 f)

  Fits-chosen :
      (cert : ℕ) (visited : List ℕ) (b : Bool) (o : Option (ℕ × ℕ)) {p : ℕ}
      → Fits cert visited o
      → (if b then none else chosen o) ≡ some p
      → Issued w cert p × (has visited p ≡ false)
  Fits-chosen cert visited b o f e = ground arith

  issuer_of-Issued :
      (x : Index) (cert : ℕ) (visited : List ℕ) (s : Work) {p : ℕ}
      → IsIndexed w x
      → IsSound w total s
      → (issuer_of w x cert visited s).0 ≡ some p
      → Issued w cert p × (has visited p ≡ false)
  unfolding issuer_of
  issuer_of-Issued x cert visited s {p} ix h e =
      let name = (certificate cert).raw_issuer in
      let (best, s') = scan w x.now cert visited none (x.by_subject name) s in
      Fits-chosen cert visited (stopped s') best {p = p}
        (scan-Fits x.now cert visited none (x.by_subject name) s h (ix name) tt) e

  next_link-Issued :
      (x : Index) (visited : List ℕ) (current : ℕ) (s : Work) {p : ℕ}
      → IsIndexed w x
      → IsSound w total s
      → (next_link w x visited current s).0 ≡ some p
      → Issued w current p × (has visited p ≡ false)
  unfolding next_link
  next_link-Issued x visited current s {p} ix h e = ground (
    arith,
    issuer_of-Issued x current visited (self_signed w current s).1 {p = p} ix
        (self_signed_keeps w (IsSound w total) (IsSound-stable w total) current s h),
  )

  climb-Linked :
      (room : ℕ) (x : Index) (visited : List ℕ) (current : ℕ) (s : Work)
      → IsIndexed w x
      → IsSound w total s
      → Linked w current (climb w room x visited current s).0
        × Fresh visited (climb w room x visited current s).0
        × (length (climb w room x visited current s).0 ≤ room)
  unfolding climb
  climb-Linked zero x visited current s ix h =
      elim (Option-cases (next_link w x visited current s).0) [
        | inl e ↦ rw (e, climb) (tt, tt, omega arith)
        | inr (p, e) ↦ rw (e, climb) (tt, tt, omega arith)
      ]
  climb-Linked (suc room) x visited current s ix h =
      elim (Option-cases (next_link w x visited current s).0) [
        | inl e ↦ rw (e, climb) (tt, tt, omega arith)
        | inr (p, e) ↦
            let (issued, new) = next_link-Issued x visited current s {p = p} ix h e in
            let (linked, fresh, short) =
              climb-Linked room x (p ∷ visited) p (next_link w x visited current s).1 ix (
                next_link_keeps w (IsSound w total) (IsSound-stable w total) x visited current s
                  h) in
            rw (e, climb) ((issued, linked), (new, fresh), omega arith)
      ]

  -- The chain of a certificate has only certificates that issued the one below (by name, by
  -- basicConstraints and by a signature that verifies), holds none twice, does not hold the
  -- certificate itself, and has at most `max_chain_depth` of them.
  pub chain_for-Linked :
      (x : Index) (p : ℕ) (s : Work)
      → IsIndexed w x
      → IsSound w total s
      → Linked w (canonical_of w x p) (chain_for w x p s).0
        × Fresh (canonical_of w x p ∷ []) (chain_for w x p s).0
        × (length (chain_for w x p s).0 ≤ max_chain_depth)
  unfolding chain_for
  chain_for-Linked x p s ix h =
      let q = canonical_of w x p in climb-Linked max_chain_depth x (q ∷ []) q s ix h
