-- ===== src/Command/PublicError/Words.antt =====
-- What can stand in the words that every user may read.
use dtp_discovery_agent.Common.{
  ℕ, ◌≤◌, String, ◌≡◌, refl, ◌⊎◌, inl, inr, true, ◌||◌, Option, none, some, List, [], ◌∷◌, arith,
  ltb, ◌==◌, contains, Bool-cases, Option-cases,
}
use dtp_discovery_agent.Common.Text.{runes, join}
use dtp_discovery_agent.Command.PublicError.{
  CycleError, all_word_runes, not_allowed, safe_word, network_error, answered_error,
  transport_error, public_error,
}
use Prim.Native.String.{len}

-- "not allowed to report", or at most 20 letters a to z and underscores
abbrev pub IsPlain : String → Type 0
IsPlain s = (s ≡ not_allowed) ⊎ ((len s ≤ 20) × (all_word_runes (runes s) ≡ true))

-- the texts that publicError has of its own
abbrev pub own_texts : List String
own_texts =
    "" ∷ "This agent is not enrolled."
    ∷ "The agent refused to send a report that looked like it held key material."
    ∷ "The DTP server did not answer in time." ∷ "Could not reach the DTP server."
    ∷ "The last report failed." ∷ []

-- One of its own texts, a refusal with a plain word, or a status number
abbrev pub IsPublic : (ℕ → String) → String → Type 0
IsPublic number s =
    (contains own_texts s ≡ true)
    ⊎ ((word : String) × IsPlain word
        × (s ≡ join "" ("DTP refused this agent: it is " ∷ word ∷ "." ∷ [])))
    ⊎ ((status : ℕ) × (s ≡ join "" ("The DTP server answered HTTP " ∷ number status ∷ "." ∷ [])))

safe_word-IsPlain : (s : String) → IsPlain (safe_word s)
unfolding safe_word
safe_word-IsPlain s = elim (Bool-cases (len s == 0 || ltb 20 (len s))) [
  | inl e ↦ rw (safe_word, e) (inl refl)
  | inr e ↦ elim (Bool-cases (all_word_runes (runes s))) [
    | inl q ↦ let short : len s ≤ 20 = ground arith in rw (safe_word, e, q) (inr (short, q))
    | inr q ↦ rw (safe_word, e, q) (inl refl)
  ]
]

module _ (number : ℕ → String) where
  network_error-IsPublic : (e : CycleError) → IsPublic number (network_error e)
  unfolding network_error
  network_error-IsPublic e = elim (Bool-cases e.net_timeout) [
    | inl q ↦ rw (network_error, q) (inl refl)
    | inr q ↦ elim (Bool-cases e.url_error) [
      | inl u ↦ rw (network_error, q, u) (inl refl)
      | inr u ↦ rw (network_error, q, u) (inl refl)
    ]
  ]

  answered_error-IsPublic : (e : CycleError) → IsPublic number (answered_error number e)
  unfolding answered_error
  answered_error-IsPublic e = elim (Option-cases e.http_status) [
    | inl q ↦ rw (answered_error, q) (network_error-IsPublic e)
    | inr (status, q) ↦ rw (answered_error, q) (inr (inr (status, refl)))
  ]

  transport_error-IsPublic : (e : CycleError) → IsPublic number (transport_error number e)
  unfolding transport_error answered_error network_error
  transport_error-IsPublic e = elim (Bool-cases e.key_material) [
    | inl q ↦ rw (transport_error, q) (inl refl)
    | inr q ↦ elim (Bool-cases e.deadline_exceeded) [
      | inl u ↦ rw (transport_error, q, u) (inl refl)
      | inr u ↦ rw (transport_error, q, u) (answered_error-IsPublic e)
    ]
  ]

  -- Whatever the error and the server's words in it, what publicError says is one of six texts of its
  -- own, or a refusal that repeats at most 20 letters a to z and underscores of the server's status,
  -- or names the number of an HTTP status.
  pub public_error-IsPublic : (err : Option CycleError) → IsPublic number (public_error number err)
  unfolding public_error
  public_error-IsPublic none = inl refl
  public_error-IsPublic (some e) = elim (Bool-cases e.not_enrolled) [
    | inl q ↦ rw (public_error, q) (inl refl)
    | inr q ↦ elim (Option-cases e.refused) [
      | inl u ↦ rw (public_error, q, u) (transport_error-IsPublic e)
      | inr (status, u) ↦
          rw (public_error, q, u) (inr (inl (safe_word status, safe_word-IsPlain status, refl)))
    ]
  ]
