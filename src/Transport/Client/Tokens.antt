-- ===== src/Transport/Client/Tokens.antt =====
-- What Authenticate promises on each of its ways out.
use dtp_discovery_agent.Common.{
  ℕ, ◌+◌, ◌*◌, ◌^◌, ◌≤◌, ◌<◌, String, ℤ, at_most_zero, seconds, ltb, ◌≡◌, refl, Bool, true, false,
  none, some, arith, str_eq, if◌then◌else◌,
}
use dtp_discovery_agent.Transport.Client.{
  Host, Client, ClientError, Outcome, pending_approval, authenticate, grant, token_response,
}

-- z < n
abbrev is_below : ℤ → ℕ → Bool
is_below (ℤ.pos m) n = ltb m n
is_below (ℤ.negsuc m) n = true

-- What the agent may wait, in nanoseconds, when it is asked to wait so many seconds.
pub record IsWait (asked wait : ℤ) : Type 0 where
  pub positive : at_most_zero wait ≡ false
  pub fits : is_below wait (2 ^ 63) ≡ true
  pub exact : (n : ℕ) → asked ≡ ℤ.pos n → 0 < n → n * 10 ^ 9 < 2 ^ 63 → wait ≡ ℤ.pos (n * 10 ^ 9)
  pub unasked : asked ≡ ℤ.pos 0 → wait ≡ ℤ.pos (30 * 10 ^ 9)
  pub negative :
      (n : ℕ) → asked ≡ ℤ.negsuc n → (n + 1) * 10 ^ 9 ≤ 2 ^ 63 → wait ≡ ℤ.pos (30 * 10 ^ 9)

seconds_exact : (n : ℕ) → n * 10 ^ 9 < 2 ^ 63 → seconds (ℤ.pos n) ≡ ℤ.pos (n * 10 ^ 9)
unfolding seconds
seconds_exact n h = ground arith

seconds_negative : (n : ℕ) → (n + 1) * 10 ^ 9 ≤ 2 ^ 63 → at_most_zero (seconds (ℤ.negsuc n)) ≡ true
unfolding seconds
seconds_negative n h = ground arith

seconds_fits : (z : ℤ) → is_below (seconds z) (2 ^ 63) ≡ true
unfolding seconds
seconds_fits z = elim z [ ℤ.pos n ↦ ground arith | ℤ.negsuc n ↦ ground arith ]

abbrev or_half_minute : ℤ → ℤ
or_half_minute retry = if at_most_zero retry then ℤ.pos (30 * 10 ^ 9) else retry

seconds-IsWait : (asked : ℤ) → IsWait asked (or_half_minute (seconds asked))
seconds-IsWait asked = record {
  positive = ground arith;
  fits = ground (arith, seconds_fits asked);
  exact = λ n e k l. ground (arith, seconds_exact n l);
  unasked = λ e. ground (arith, seconds_exact 0 (omega arith));
  negative = λ n e l. ground (arith, seconds_negative n l);
}

module _ (h : Host) where
  open h use {State, now}

  -- Authenticate that reports no error leaves the client with a token that is not empty.
  pub authenticate_token :
      (c : Client) (fingerprint : String) (s : State)
      → (authenticate h c fingerprint s).0 ≡ none
      → str_eq (authenticate h c fingerprint s).1.token "" ≡ false
  unfolding authenticate
  authenticate_token c fingerprint s e = ground arith

  -- Authenticate that fails leaves the client, its token and its expiry as they were.
  pub authenticate_error :
      (c : Client) (fingerprint : String) (s : State) {e : ClientError}
      → (authenticate h c fingerprint s).0 ≡ some e
      → (authenticate h c fingerprint s).1 ≡ c
  unfolding authenticate
  authenticate_error c fingerprint s {e} p = ground arith

  -- To an answer of 202, Authenticate reports a pending approval and leaves the client as it was.
  -- The time to wait is positive and an int64; it is just that which the server asks for in
  -- retry_after, where that is positive and below 2^63 nanoseconds; and 30 seconds where the server
  -- asks for none, or for a time below 0 down to -2^63 nanoseconds.
  pub grant-IsWait :
      (c : Client) (out : Outcome) (at : ℕ)
      → out.code ≡ 202
      → (wait : ℤ) × (grant h c out at ≡ (some (pending_approval wait), c))
        × IsWait (token_response h out.raw).retry_after wait
  unfolding grant
  grant-IsWait c out at e =
      let asked = (token_response h out.raw).retry_after in
      let retry = seconds asked in
      (
        if at_most_zero retry then ℤ.pos (30 * 10 ^ 9) else retry,
        rw (grant, e) refl,
        seconds-IsWait asked,
      )
