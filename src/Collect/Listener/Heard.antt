-- ===== src/Collect/Listener/Heard.antt =====
-- What the probes of a socket met, in terms of the connections and handshakes themselves.
use dtp_discovery_agent.Common.{
  ℕ, String, ◌≡◌, ◌≢◌, refl, ◌⊎◌, inl, inr, Bool, true, false, Option, none, some, List, [], ◌∷◌,
  arith, ◌==◌, ==_iff, Bool-cases, Option-cases, contains, All,
}
use dtp_discovery_agent.Parse.Pem.{encode_pem}
use dtp_discovery_agent.Collect.Sockets.{Socket, dial_address}
use dtp_discovery_agent.Collect.Listener.{
  SettledBounds, NetError, Contact, ListenerHost, Verdict, probe_unknown, nothing, unknown,
  probe_of, dial_verdict, handshake_verdict, found_at, shaken, dialled, probe_one, probe_target,
}
use dtp_discovery_agent.Collect.Listener.Probes.{prints, IsAnswered, AllAnswered, IsProbed}

-- The handshake was left in silence, ended well without a certificate, or failed on a first record
-- that is not TLS.
abbrev pub IsSilent : Contact → Type 0
IsSilent c =
    (c.handshake_error ≡ none)
    ⊎ (c.bytes_read ≡ 0)
    ⊎ ((e : NetError) × (c.handshake_error ≡ some e)
        × (e.is_timeout ≡ false)
        × (e.is_deadline ≡ false)
        × (e.is_record_header ≡ true))

-- There is no TLS to be had: the connection failed, and not for lack of time, or it was made and
-- the other side showed no certificate and is silent.
abbrev pub HasNothing : Contact → Type 0
HasNothing c =
    ((e : NetError) × (c.dial_error ≡ some e) × (e.is_timeout ≡ false))
    ⊎ ((c.dial_error ≡ none) × (c.captured ≡ []) × IsSilent c)

module _ (h : ListenerHost) where
  abbrev pub contact_of : ℕ → Socket → String → Contact
  contact_of timeout target name = h.contact (dial_address h.net target) name timeout

  -- The connection was made and showed a certificate whose fingerprint is known.
  abbrev pub HasShown : (String → Bool) → Contact → Type 0
  HasShown known c =
      (leaf : ℕ) × (others : List ℕ) × (c.dial_error ≡ none)
      × (c.captured ≡ leaf ∷ others)
      × (known (h.fingerprint (encode_pem h.codecs h.world (leaf ∷ []))) ≡ true)

  abbrev pub AllHeard : ℕ → Socket → (String → Bool) → List String → Type 0
  AllHeard timeout target known [] = Unit
  AllHeard timeout target known (name ∷ names) =
      (HasNothing (contact_of timeout target name)
        ⊎ HasShown known (contact_of timeout target name))
      × AllHeard timeout target known names

  -- A socket was heard: there is no TLS at it, or each name was answered, the empty one among them,
  -- with a certificate that is among the socket's observations or with none to be had.
  abbrev pub IsHeard : SettledBounds → Socket → Type 0
  IsHeard b target =
      HasNothing (contact_of b.timeout target "")
      ⊎ AllHeard b.timeout target (contains (prints h (probe_target h b target).observations))
          ("" ∷ b.server_names)

  verdict_known :
      (known : String → Bool) (v : Verdict) (words : String)
      → IsAnswered h known (probe_of v words)
      → v ≢ probe_unknown
  verdict_known known v words a e = let u : IsAnswered h known (unknown words) = rw e at a in u

  handshake_verdict-IsSilent :
      (c : Contact) → handshake_verdict c.handshake_error c.bytes_read ≢ probe_unknown → IsSilent c
  unfolding handshake_verdict
  handshake_verdict-IsSilent c a = elim (Option-cases c.handshake_error) [
    | inl q ↦ inl q
    | inr (e, q) ↦ elim (Bool-cases (c.bytes_read == 0)) [
      | inl z ↦ inr (inl ((==_iff c.bytes_read 0).0 z))
      | inr z ↦ inr (
          inr (
            e,
            q,
            ground (arith, rw (handshake_verdict, q, z) at a),
            ground (arith, rw (handshake_verdict, q, z) at a),
            ground (arith, rw (handshake_verdict, q, z) at a),
          ))
    ]
  ]

  dial_verdict-known : (e : NetError) → dial_verdict e ≢ probe_unknown → e.is_timeout ≡ false
  unfolding dial_verdict
  dial_verdict-known e a = ground arith

  shaken-IsAnswered :
      (known : String → Bool) (target : Socket) (name : String) (c : Contact) (captured : List ℕ)
      → c.dial_error ≡ none
      → c.captured ≡ captured
      → IsAnswered h known (shaken h target name c captured)
      → HasNothing c ⊎ HasShown known c
  unfolding found_at
  shaken-IsAnswered known target name c [] d e a =
      inl (inr (d, e, handshake_verdict-IsSilent c (verdict_known known _ _ a)))
  shaken-IsAnswered known target name c (leaf ∷ others) d e a = inr (leaf, others, d, e, a)

  dialled-IsAnswered :
      (known : String → Bool) (target : Socket) (name : String) (c : Contact) (d : Option NetError)
      → c.dial_error ≡ d
      → IsAnswered h known (dialled h target name c d)
      → HasNothing c ⊎ HasShown known c
  dialled-IsAnswered known target name c none e a =
      shaken-IsAnswered known target name c c.captured e refl a
  dialled-IsAnswered known target name c (some x) e a =
      inl (inl (x, e, dial_verdict-known x (verdict_known known _ _ a)))

  probe_one-IsAnswered :
      (known : String → Bool) (timeout : ℕ) (target : Socket) (name : String)
      → IsAnswered h known (probe_one h timeout target name)
      → HasNothing (contact_of timeout target name)
        ⊎ HasShown known (contact_of timeout target name)
  unfolding probe_one
  probe_one-IsAnswered known timeout target name a =
      let c = contact_of timeout target name in
      dialled-IsAnswered known target name c c.dial_error refl a

  AllAnswered-AllHeard :
      (timeout : ℕ) (target : Socket) (known : String → Bool) (names : List String)
      → AllAnswered h timeout target known names
      → AllHeard timeout target known names
  AllAnswered-AllHeard timeout target known [] a = tt
  AllAnswered-AllHeard timeout target known (name ∷ names) a = (
    probe_one-IsAnswered known timeout target name a.0,
    AllAnswered-AllHeard timeout target known names a.1,
  )

  -- a probe that found nothing, for which no fingerprint is known
  probe_one-nothing :
      (timeout : ℕ) (target : Socket) (name : String)
      → probe_one h timeout target name ≡ nothing
      → HasNothing (contact_of timeout target name)
  probe_one-nothing timeout target name e =
      let a : IsAnswered h (λ f. false) (probe_one h timeout target name) = rw e tt in
      elim (probe_one-IsAnswered (λ f. false) timeout target name a) [
        | inl n ↦ n
        | inr (leaf, others, d, c, k) ↦ absurd cc
      ]

  pub IsProbed-IsHeard :
      (b : SettledBounds) (target : Socket) → IsProbed h b target → IsHeard b target
  IsProbed-IsHeard b target (inl e) = inl (probe_one-nothing b.timeout target "" e)
  IsProbed-IsHeard b target (inr a) = inr (
      AllAnswered-AllHeard b.timeout target
        (contains (prints h (probe_target h b target).observations)) ("" ∷ b.server_names) a)

  pub All-IsHeard :
      (b : SettledBounds) (ts : List Socket) → All (IsProbed h b) ts → All (IsHeard b) ts
  All-IsHeard b [] a = tt
  All-IsHeard b (t ∷ ts) a = (IsProbed-IsHeard b t a.0, All-IsHeard b ts a.1)
