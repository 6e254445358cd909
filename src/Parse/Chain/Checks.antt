-- ===== src/Parse/Chain/Checks.antt =====
-- What a store remembers of its signature checks: every answer is CheckSignature's, no pair is
-- checked twice, and what the checks cost and what the budget has left add up to the budget.
use dtp_discovery_agent.Common.{
  ℕ, ◌+◌, ◌≡◌, Bool, true, false, Option, none, some, List, [], ◌∷◌, arith, All, Option-cases, inl,
  inr,
}
use dtp_discovery_agent.Parse.Certificate.{World, verify_cost}
use dtp_discovery_agent.Parse.Chain.{Work, Checked, lookup, signed, new_store, leaves, stopped}
use dtp_discovery_agent.Parse.Chain.Keeps.{IsStable, leaves_keeps}

module _ (w : World) where
  open w use {certificate, check_signature}

  abbrev pub Holds : Checked → Type 0
  Holds c = c.ok ≡ check_signature c.issuer c.child

  pub spent : List Checked → ℕ
  spent [] = 0
  spent (c ∷ cs) = verify_cost (certificate c.issuer).public_key + spent cs

abbrev pub Once : List Checked → Type 0
Once [] = Unit
Once (c ∷ cs) = (lookup cs c.child c.issuer ≡ none) × Once cs

pub record IsSound (w : World) (total : ℕ) (s : Work) : Type 0 where
  pub holds : All (Holds w) s.checked
  pub once : Once s.checked
  pub accounted : spent w s.checked + s.left ≡ total

module _ (w : World) where
  open w use {certificate, check_signature}

  lookup-Holds :
      (cs : List Checked) (child issuer : ℕ) {b : Bool}
      → All (Holds w) cs
      → lookup cs child issuer ≡ some b
      → b ≡ check_signature issuer child
  lookup-Holds [] child issuer h e = cc
  lookup-Holds (c ∷ cs) child issuer {b} h e =
      ground (arith, lookup-Holds cs child issuer {b = b} h.1)

  signed-IsSound :
      (total child issuer : ℕ) (s : Work)
      → IsSound w total s
      → IsSound w total (signed w child issuer s).1
  unfolding signed spent
  signed-IsSound total child issuer s h = ground arith

  pub IsSound-stable : (total : ℕ) → IsStable w (IsSound w total)
  IsSound-stable total = record {
    signed_keeps = signed-IsSound total;
    deep_keeps = λ s h. record { holds = h.holds; once = h.once; accounted = h.accounted };
    cut_keeps = λ s h. record { holds = h.holds; once = h.once; accounted = h.accounted };
    poll_keeps = λ s h. record { holds = h.holds; once = h.once; accounted = h.accounted };
    stop_keeps = λ s h. record { holds = h.holds; once = h.once; accounted = h.accounted };
  }

  -- an answer of yes is a signature that verifies
  pub signed-genuine :
      (total child issuer : ℕ) (s : Work)
      → IsSound w total s
      → (signed w child issuer s).0 ≡ true
      → check_signature issuer child ≡ true
  unfolding signed
  signed-genuine total child issuer s h yes' = elim (Option-cases (lookup s.checked child issuer)) [
    | inl e ↦ ground arith
    | inr (b, e) ↦ ground (arith, lookup-Holds s.checked child issuer {b = b} h.holds e)
  ]

  -- while neither the budget nor the time is gone, the answer is CheckSignature's
  pub signed-exact :
      (total child issuer : ℕ) (s : Work)
      → IsSound w total s
      → stopped (signed w child issuer s).1 ≡ false
      → (signed w child issuer s).0 ≡ check_signature issuer child
  unfolding signed
  signed-exact total child issuer s h go = elim (Option-cases (lookup s.checked child issuer)) [
    | inl e ↦ ground arith
    | inr (b, e) ↦ ground (arith, lookup-Holds s.checked child issuer {b = b} h.holds e)
  ]

  pub new_store-IsSound :
      (now left polls : ℕ) (certs issuers : List (Option ℕ))
      → IsSound w left (new_store w now left polls certs issuers).work
  unfolding new_store spent
  new_store-IsSound now left polls certs issuers = record {
    holds = tt;
    once = tt;
    accounted = omega arith;
  }

  -- Finding every leaf and every chain of a new store spends of its budget exactly what the checks
  -- made cost, makes each check at most once, and remembers each answer as CheckSignature's.
  pub leaves-IsSound :
      (now left polls : ℕ) (certs issuers : List (Option ℕ))
      → IsSound w left (leaves w (new_store w now left polls certs issuers)).1
  leaves-IsSound now left polls certs issuers =
      leaves_keeps w (IsSound w left) (IsSound-stable left)
        (new_store w now left polls certs issuers) (new_store-IsSound now left polls certs issuers)
