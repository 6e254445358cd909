-- ===== src/Collect/Listener/Findings.antt =====
-- One socket serving one certificate is one finding.
use dtp_discovery_agent.Common.{
  ℕ, suc, String, ◌≡◌, refl, sym, ◌∙◌, inl, inr, Bool, true, false, List, [], ◌∷◌, arith, leb,
  contains, Bool-cases,
}
use dtp_discovery_agent.Collect.Result.{Observation}
use dtp_discovery_agent.Collect.Sockets.{Socket}
use dtp_discovery_agent.Collect.Listener.{
  SettledBounds, ListenerHost, nothing, unknown, ProbeOutcome, no_outcome, with_found, with_unknown,
  probe_one, max_unanswered_names, probe_names, probe_target,
}
use dtp_discovery_agent.Collect.Listener.Probes.{
  Probe-cases, prints, probe_names-found, probe_names-nothing,
}

-- Each differs from those before it and from those seen.
abbrev pub AllNew : List String → List String → Type 0
AllNew seen [] = Unit
AllNew seen (p ∷ ps) = (contains seen p ≡ false) × AllNew (p ∷ seen) ps

new_weaken :
    (seen seen' : List String)
    → ((f : String) → contains seen f ≡ true → contains seen' f ≡ true)
    → (p : String) → contains seen' p ≡ false
    → contains seen p ≡ false
new_weaken seen seen' k p e = elim (Bool-cases (contains seen p)) [
  | inl q ↦ let t = k p q in absurd (let f : true ≡ false = sym t ∙ e in cc)
  | inr q ↦ q
]

AllNew-weaken :
    (ps seen seen' : List String)
    → ((f : String) → contains seen f ≡ true → contains seen' f ≡ true)
    → AllNew seen' ps
    → AllNew seen ps
AllNew-weaken [] seen seen' k a = tt
AllNew-weaken (p ∷ ps) seen seen' k (e, a) = (
  new_weaken seen seen' k p e,
  AllNew-weaken ps (p ∷ seen) (p ∷ seen') (λ f t. let own = k f in ground arith) a,
)

module _ (h : ListenerHost) where
  with_found-AllNew :
      (recorded : List String) (o : Observation) (out : ProbeOutcome)
      → AllNew (h.fingerprint o.certificate_pem ∷ recorded) (prints h out.observations)
      → AllNew recorded (
          prints h
            (with_found (contains recorded (h.fingerprint o.certificate_pem)) o out).observations)
  unfolding with_found
  with_found-AllNew recorded o out a =
      let p = h.fingerprint o.certificate_pem in
      elim (Bool-cases (contains recorded p)) [
        | inl seen ↦
            rw (with_found, seen)
              (AllNew-weaken (prints h out.observations) recorded (p ∷ recorded)
                (λ f t. ground arith) a)
        | inr seen ↦ rw (with_found, seen) (seen, a)
      ]

  probe_names-unknown :
      (timeout : ℕ) (target : Socket) (first : Bool) (name : String) (names : List String)
      (unanswered : ℕ) (recorded : List String) (words : String)
      → probe_one h timeout target name ≡ unknown words
      → (probe_names h timeout target first unanswered recorded (name ∷ names)).observations
        ≡ (elim (leb max_unanswered_names (suc unanswered)) as (λ x. ProbeOutcome) [
          | true ↦ no_outcome
          | false ↦ probe_names h timeout target false (suc unanswered) recorded names
        ]).observations
  unfolding probe_names with_unknown
  probe_names-unknown timeout target first name names unanswered recorded words q =
      rw (probe_names, q) refl

  probe_names-first :
      (timeout : ℕ) (target : Socket) (name : String) (names : List String) (unanswered : ℕ)
      (recorded : List String)
      → probe_one h timeout target name ≡ nothing
      → probe_names h timeout target true unanswered recorded (name ∷ names) ≡ no_outcome
  unfolding probe_names
  probe_names-first timeout target name names unanswered recorded q = rw (probe_names, q) refl

  probe_names-AllNew :
      (timeout : ℕ) (target : Socket) (names : List String) (first : Bool) (unanswered : ℕ)
      (recorded : List String)
      → AllNew recorded
          (prints h (probe_names h timeout target first unanswered recorded names).observations)
  unfolding probe_names
  probe_names-AllNew timeout target [] first unanswered recorded = tt
  probe_names-AllNew timeout target (name ∷ names) first unanswered recorded =
      elim (Probe-cases (probe_one h timeout target name)) [
        | inl (o, q) ↦
            rw (probe_names-found h timeout target first name names unanswered recorded o q) (
              with_found-AllNew recorded o _ (
                probe_names-AllNew timeout target names false 0
                  (h.fingerprint o.certificate_pem ∷ recorded)))
        | inr (inl q) ↦ elim (Bool-cases first) [
          | inl e ↦ rw e (rw (probe_names-first timeout target name names unanswered recorded q) tt)
          | inr e ↦ rw e (
              rw (probe_names-nothing h timeout target name names unanswered recorded q)
                (probe_names-AllNew timeout target names false unanswered recorded))
        ]
        | inr (inr (words, q)) ↦
            let e =
              probe_names-unknown timeout target first name names unanswered recorded words q in
            elim (Bool-cases (leb max_unanswered_names (suc unanswered))) [
              | inl l ↦ rw e (rw l tt)
              | inr l ↦
                  rw e
                    (rw l (probe_names-AllNew timeout target names false (suc unanswered) recorded))
            ]
      ]

  -- Whatever names a socket is asked and whatever it answers, no two of the observations that
  -- probeTarget records of it have certificates of one fingerprint.
  pub probe_target-AllNew :
      (b : SettledBounds) (target : Socket)
      → AllNew [] (prints h (probe_target h b target).observations)
  unfolding probe_target
  probe_target-AllNew b target = probe_names-AllNew b.timeout target ("" ∷ b.server_names) true 0 []
