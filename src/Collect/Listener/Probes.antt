-- ===== src/Collect/Listener/Probes.antt =====
-- What a probe of one socket that leaves nothing unknown has asked.
use dtp_discovery_agent.Common.{
  ℕ, String, ◌≡◌, refl, sym, ap, ◌∙◌, ◌⊎◌, inl, inr, Bool, true, false, ◌||◌, List, [], ◌∷◌, map,
  arith, str_eq, eq_iff, eq_refl, contains, Bool-cases,
}
use dtp_discovery_agent.Collect.Result.{Observation}
use dtp_discovery_agent.Collect.Sockets.{Socket}
use dtp_discovery_agent.Collect.Listener.{
  SettledBounds, ListenerHost, Probe, found, nothing, unknown, ProbeOutcome, with_found,
  with_unknown, probe_one, probe_names, probe_target,
}

pub Probe-cases :
    (p : Probe)
    → ((o : Observation) × (p ≡ found o)) ⊎ (p ≡ nothing) ⊎ ((words : String) × (p ≡ unknown words))
Probe-cases (found o) = inl (o, refl)
Probe-cases nothing = inr (inl refl)
Probe-cases (unknown words) = inr (inr (words, refl))

module _ (h : ListenerHost) where
  abbrev pub prints : List Observation → List String
  prints os = map (λ o. h.fingerprint o.certificate_pem) os

  -- An answer other than unknown, whose certificate, if any, has a known fingerprint.
  abbrev pub IsAnswered : (String → Bool) → Probe → Type 0
  IsAnswered known (found o) = known (h.fingerprint o.certificate_pem) ≡ true
  IsAnswered known nothing = Unit
  IsAnswered known (unknown words) = ⊥

  IsAnswered-mono :
      (known known' : String → Bool)
      → ((f : String) → known f ≡ true → known' f ≡ true)
      → (p : Probe) → IsAnswered known p
      → IsAnswered known' p
  IsAnswered-mono known known' k (found o) a = k (h.fingerprint o.certificate_pem) a
  IsAnswered-mono known known' k nothing a = a
  IsAnswered-mono known known' k (unknown words) a = a

  -- The names of a list, asked of a socket, are all answered.
  abbrev pub AllAnswered : ℕ → Socket → (String → Bool) → List String → Type 0
  AllAnswered timeout target known [] = Unit
  AllAnswered timeout target known (name ∷ names) =
      IsAnswered known (probe_one h timeout target name) × AllAnswered timeout target known names

  AllAnswered-mono :
      (timeout : ℕ) (target : Socket) (known known' : String → Bool)
      → ((f : String) → known f ≡ true → known' f ≡ true)
      → (names : List String) → AllAnswered timeout target known names
      → AllAnswered timeout target known' names
  AllAnswered-mono timeout target known known' k [] a = tt
  AllAnswered-mono timeout target known known' k (name ∷ names) (a, more) = (
    IsAnswered-mono known known' k (probe_one h timeout target name) a,
    AllAnswered-mono timeout target known known' k names more,
  )

  -- what was known before, or is recorded now
  abbrev known_after : List String → ProbeOutcome → String → Bool
  known_after recorded out f = contains recorded f || contains (prints out.observations) f

  AllAnswered-along :
      (timeout : ℕ) (target : Socket) (recorded : List String) (out out' : ProbeOutcome)
      → out ≡ out'
      → (names : List String) → AllAnswered timeout target (known_after recorded out') names
      → AllAnswered timeout target (known_after recorded out) names
  AllAnswered-along timeout target recorded out out' e names a =
      AllAnswered-mono timeout target _ _ (λ f k. ap (λ t. known_after recorded t f) e ∙ k) names a

  with_found-incomplete :
      (seen : Bool) (o : Observation) (out : ProbeOutcome)
      → (with_found seen o out).incomplete ≡ out.incomplete
  unfolding with_found
  with_found-incomplete true o out = refl
  with_found-incomplete false o out = refl

  known_after-with_found :
      (recorded : List String) (o : Observation) (out : ProbeOutcome) (f : String)
      → known_after (h.fingerprint o.certificate_pem ∷ recorded) out f ≡ true
      → known_after recorded
          (with_found (contains recorded (h.fingerprint o.certificate_pem)) o out)
          f
        ≡ true
  unfolding with_found
  known_after-with_found recorded o out f k =
      let p = h.fingerprint o.certificate_pem in
      elim (Bool-cases (contains recorded p)) [
        | inl seen ↦ elim (Bool-cases (str_eq p f)) [
          | inl e ↦
              let there : contains recorded f ≡ true =
                sym (ap (λ t. contains recorded t) ((eq_iff p f).0 e)) ∙ seen in
              rw (with_found, seen) (ground arith)
          | inr e ↦ rw (with_found, seen) (ground arith)
        ]
        | inr seen ↦ rw (with_found, seen) (ground arith)
      ]

  known_after-found :
      (recorded : List String) (o : Observation) (out : ProbeOutcome)
      → known_after recorded
          (with_found (contains recorded (h.fingerprint o.certificate_pem)) o out)
          (h.fingerprint o.certificate_pem)
        ≡ true
  known_after-found recorded o out =
      let p = h.fingerprint o.certificate_pem in
      known_after-with_found recorded o out p (rw (eq_refl p) refl)

  pub probe_names-found :
      (timeout : ℕ) (target : Socket) (first : Bool) (name : String) (names : List String)
      (unanswered : ℕ) (recorded : List String) (o : Observation)
      → probe_one h timeout target name ≡ found o
      → probe_names h timeout target first unanswered recorded (name ∷ names)
        ≡ with_found (contains recorded (h.fingerprint o.certificate_pem)) o (
            probe_names h timeout target false 0 (h.fingerprint o.certificate_pem ∷ recorded) names)
  unfolding probe_names
  probe_names-found timeout target first name names unanswered recorded o q =
      rw (probe_names, q) refl

  -- The answer with a certificate, and those to the names behind it.
  found-AllAnswered :
      (timeout : ℕ) (target : Socket) (first : Bool) (name : String) (names : List String)
      (unanswered : ℕ) (recorded : List String) (o : Observation)
      → probe_one h timeout target name ≡ found o
      → AllAnswered timeout target
          (known_after (h.fingerprint o.certificate_pem ∷ recorded) (
            probe_names h timeout target false 0
              (h.fingerprint o.certificate_pem ∷ recorded)
              names))
          names
      → AllAnswered timeout target
          (known_after recorded
            (probe_names h timeout target first unanswered recorded (name ∷ names)))
          (name ∷ names)
  found-AllAnswered timeout target first name names unanswered recorded o q a =
      let out =
        probe_names h timeout target false 0 (h.fingerprint o.certificate_pem ∷ recorded) names in
      AllAnswered-along timeout target recorded _ _
        (probe_names-found timeout target first name names unanswered recorded o q) (name ∷ names)
        (
          rw q (known_after-found recorded o out),
          AllAnswered-mono timeout target _ _ (known_after-with_found recorded o out) names a,
        )

  found-incomplete :
      (timeout : ℕ) (target : Socket) (first : Bool) (name : String) (names : List String)
      (unanswered : ℕ) (recorded : List String) (o : Observation)
      → probe_one h timeout target name ≡ found o
      → (probe_names h timeout target first unanswered recorded (name ∷ names)).incomplete
        ≡ (probe_names h timeout target false 0
            (h.fingerprint o.certificate_pem ∷ recorded)
            names).incomplete
  found-incomplete timeout target first name names unanswered recorded o q =
      ap (λ t. t.incomplete)
        (probe_names-found timeout target first name names unanswered recorded o q)
      ∙ with_found-incomplete (contains recorded (h.fingerprint o.certificate_pem)) o _

  pub probe_names-nothing :
      (timeout : ℕ) (target : Socket) (name : String) (names : List String) (unanswered : ℕ)
      (recorded : List String)
      → probe_one h timeout target name ≡ nothing
      → probe_names h timeout target false unanswered recorded (name ∷ names)
        ≡ probe_names h timeout target false unanswered recorded names
  unfolding probe_names
  probe_names-nothing timeout target name names unanswered recorded q = rw (probe_names, q) refl

  unknown-incomplete :
      (timeout : ℕ) (target : Socket) (first : Bool) (name : String) (names : List String)
      (unanswered : ℕ) (recorded : List String) (words : String)
      → probe_one h timeout target name ≡ unknown words
      → (probe_names h timeout target first unanswered recorded (name ∷ names)).incomplete ≡ true
  unfolding probe_names with_unknown
  unknown-incomplete timeout target first name names unanswered recorded words q =
      rw (probe_names, q) refl

  probe_names-AllAnswered :
      (timeout : ℕ) (target : Socket) (names : List String) (unanswered : ℕ)
      (recorded : List String)
      → (probe_names h timeout target false unanswered recorded names).incomplete ≡ false
      → AllAnswered timeout target
          (known_after recorded (probe_names h timeout target false unanswered recorded names))
          names
  probe_names-AllAnswered timeout target [] unanswered recorded c = tt
  probe_names-AllAnswered timeout target (name ∷ names) unanswered recorded c =
      elim (Probe-cases (probe_one h timeout target name)) [
        | inl (o, q) ↦
            let same = found-incomplete timeout target false name names unanswered recorded o q in
            found-AllAnswered timeout target false name names unanswered recorded o q (
              probe_names-AllAnswered timeout target names 0
                (h.fingerprint o.certificate_pem ∷ recorded) (sym same ∙ c))
        | inr (inl q) ↦
            let e = probe_names-nothing timeout target name names unanswered recorded q in
            let own =
              probe_names-AllAnswered timeout target names unanswered recorded
                (sym (ap (λ t. t.incomplete) e) ∙ c) in
            AllAnswered-along timeout target recorded _ _ e (name ∷ names) (rw q tt, own)
        | inr (inr (words, q)) ↦
            let u =
              unknown-incomplete timeout target false name names unanswered recorded words q in
            absurd (let f : true ≡ false = sym u ∙ c in cc)
      ]

  -- A socket was asked as far as it has anything to say: the probe without a name found nothing
  -- there, or that probe and those with each of the names were answered.
  abbrev pub IsProbed : SettledBounds → Socket → Type 0
  IsProbed b target =
      (probe_one h b.timeout target "" ≡ nothing)
      ⊎ AllAnswered b.timeout target (contains (prints (probe_target h b target).observations))
          ("" ∷ b.server_names)

  pub probe_target-IsProbed :
      (b : SettledBounds) (target : Socket)
      → (probe_target h b target).incomplete ≡ false
      → IsProbed b target
  unfolding probe_target
  probe_target-IsProbed b target c = elim (Probe-cases (probe_one h b.timeout target "")) [
    | inl (o, q) ↦
        let same = found-incomplete b.timeout target true "" b.server_names 0 [] o q in
        inr (
          found-AllAnswered b.timeout target true "" b.server_names 0 [] o q (
            probe_names-AllAnswered b.timeout target b.server_names 0
              (h.fingerprint o.certificate_pem ∷ []) (sym same ∙ c)))
    | inr (inl q) ↦ inl q
    | inr (inr (words, q)) ↦
        let u = unknown-incomplete b.timeout target true "" b.server_names 0 [] words q in
        absurd (let f : true ≡ false = sym u ∙ c in cc)
  ]
