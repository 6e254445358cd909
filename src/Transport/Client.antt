-- ===== src/Transport/Client.antt =====
-- internal/transport/client.go and assertion.go: requests, the access token and its exchange. The
-- network, the clock, the signing key and the JSON codec are the parameter `Host`. Times and
-- durations are in nanoseconds.
pub mod Sending
pub mod Tokens
mod Examples
use dtp_discovery_agent.Common.{
  ℕ, ◌+◌, ◌-◌, String, ℤ, plus, below, seconds, ◌*◌, ◌^◌, at_most_zero, Bool, true, false, not,
  ◌&&◌, ◌||◌, Option, none, some, List, [], ◌∷◌, ◌++◌, ltb, leb, ◌==◌, str_eq, if◌then◌else◌, ◌⊎◌,
  inl, inr,
}
use Prim.Native.String
use dtp_discovery_agent.Collect.Result.{Observation, Error}
use dtp_discovery_agent.Transport.Guard.{KeyTests, refuses_outbound}

pub data ClientError : Type 0 where
  pending_approval : ℤ → ClientError  -- ErrPendingApproval and its RetryAfter
  refused : String → ClientError  -- ErrRefused and its AgentStatus
  key_material : ClientError  -- ErrKeyMaterialOutbound
  status : ℕ → String → ClientError  -- statusError
  no_token : ClientError  -- "... but returned no access token"
  other : String → ClientError  -- marshalling, signing and network errors
  uploading : ℕ → ℕ → ClientError → ClientError  -- "uploading page %d of %d: %w"

pub record RegisterRequest : Type 0 where
  pub public_key_pem : String
  pub account_id : String
  pub enrollment_token : String
  pub host_facts : List (String × String)

pub record Assertion : Type 0 where
  pub key_fingerprint : String
  pub issued_at : String
  pub nonce : String
  pub signature : String

pub record InventoryPage : Type 0 where
  pub run_id : String
  pub started_at : String
  pub finished_at : String
  pub final : Bool
  pub completed_sources : List String
  pub collector_errors : List Error
  pub observations : List Observation

pub data Body : Type 0 where
  register : RegisterRequest → Body
  assertion : Assertion → Body
  checkin : String → Body
  inventory : InventoryPage → Body

pub record TokenResponse : Type 0 where
  pub access_token : String
  pub expires_in : ℤ
  pub agent_status : String
  pub retry_after : ℤ

pub record InventoryResponse : Type 0 where
  pub run_id : String
  pub recorded : ℕ
  pub rejected : ℕ
  pub errors : List String

pub record Request : Type 0 where
  pub url : String
  pub headers : List (String × String)
  pub payload : String

-- what http.Client.Do and the bounded read of the body came to
pub data Answer : Type 0 where
  failed : String → Answer
  unread : ℕ → String → Answer  -- a status, and the error of reading the body
  answered : ℕ → String → Answer  -- a status and the body

pub record Host : Type 1 where
  pub State : Type 0
  pub marshal : Body → Option String
  pub key_tests : KeyTests
  pub send : Request → State → Answer × State
  pub now : State → ℕ
  pub sign : String → State → Option Assertion × State
  pub decode_token : String → TokenResponse
  pub decode_inventory : String → InventoryResponse
  pub timestamp : State → String

pub record Client : Type 0 where
  pub base_url : String
  pub version : String
  pub token : String
  pub token_expires_at : ℤ

-- What `do` leaves: the status, the body that is decoded (none where nothing is), the error.
pub record Outcome : Type 0 where
  pub code : ℕ
  pub raw : Option String
  pub error : Option ClientError

abbrev failure : ℕ → ClientError → Outcome
failure code e = record { code = code; raw = none; error = some e }

-- a POST, which is all that the agent sends
abbrev request : Client → String → List (String × String) → String → Request
request c path headers raw = record {
  url = String.◌++◌ c.base_url path;
  headers =
      (("Content-Type", "application/json")
        ∷ ("Accept", "application/json")
        ∷ ("User-Agent", String.◌++◌ "dtp-agent/" c.version)
        ∷ [])
      ++ headers;
  payload = raw;
}

module _ (h : Host) where
  open h use {State, marshal, key_tests, send, now, sign, decode_token, decode_inventory}

  -- the end of `do`, on what the network answered
  conclude : Answer → Outcome
  conclude (failed e) = failure 0 (other e)
  conclude (unread code e) = failure code (other e)
  conclude (answered code body) = record {
    code = code;
    raw = if str_eq body "" then none else some body;
    error = if ltb code 200 || leb 300 code then some (status code body) else none;
  }

  -- Client.do
  unfoldable pub do_request :
      Client → String → List (String × String) → Body → State → Outcome × State
  unfolding conclude
  do_request c path headers body s = elim (marshal body) [
    | none ↦ (failure 0 (other "json"), s)
    | some raw ↦
        if refuses_outbound key_tests raw
        then (failure 0 key_material, s)
        else let (answer, s') = send (request c path headers raw) s in (conclude answer, s')
  ]

  abbrev no_response : TokenResponse
  no_response = record {
    access_token = "";
    expires_in = ℤ.pos 0;
    agent_status = "";
    retry_after = ℤ.pos 0;
  }

  unfoldable pub token_response : Option String → TokenResponse
  token_response none = no_response
  token_response (some raw) = decode_token raw

  -- Authenticate, on what /token answered at time `at`
  pub grant : Client → Outcome → ℕ → Option ClientError × Client
  unfolding token_response
  grant c out at =
      let r = token_response out.raw in
      let retry = seconds r.retry_after in
      if out.code == 202
      then (some (pending_approval (if at_most_zero retry then ℤ.pos (30 * 10 ^ 9) else retry)), c)
      else if out.code == 403
      then (some (refused r.agent_status), c)
      else elim out.error [
        | some e ↦ (some e, c)
        | none ↦ if str_eq r.access_token "" then (some no_token, c) else (
          none,
          record c { token = r.access_token; token_expires_at = plus at (seconds r.expires_in) },
        )
      ]

  -- c.token != "" && now is before tokenExpiresAt less a minute
  unfoldable pub is_cached : Client → ℕ → Bool
  is_cached c at = not (str_eq c.token "") && below (at + 60 * 10 ^ 9) c.token_expires_at

  -- the exchange of a signed assertion for a token
  exchange : Client → String → State → Option ClientError × Client × State
  unfolding grant do_request
  exchange c fingerprint s =
      let (signed, s') = sign fingerprint s in
      elim signed [
        | none ↦ (some (other "sign"), c, s')
        | some a ↦
            let (out, s'') =
              do_request c "/discovery/v1/token" (("X-DTP-Agent-Fingerprint", fingerprint) ∷ [])
                (assertion a) s' in
            let (error, c') = grant c out (now s'') in (error, c', s'')
      ]

  -- Client.Authenticate
  unfoldable pub authenticate : Client → String → State → Option ClientError × Client × State
  unfolding exchange is_cached
  authenticate c fingerprint s =
      if is_cached c (now s) then (none, c, s) else exchange c fingerprint s

  abbrev pub bearer : Client → List (String × String)
  bearer c = ("Authorization", String.◌++◌ "Bearer " c.token) ∷ []

  abbrev no_inventory : InventoryResponse
  no_inventory = record { run_id = ""; recorded = 0; rejected = 0; errors = [] }

  inventory_response : Option String → InventoryResponse
  inventory_response none = no_inventory
  inventory_response (some raw) = decode_inventory raw

  -- Client.Inventory: the response, or the error
  unfoldable pub post_inventory :
      Client → InventoryPage → State → (ClientError ⊎ InventoryResponse) × State
  unfolding do_request inventory_response
  post_inventory c page s =
      let (out, s') = do_request c "/discovery/v1/inventory" (bearer c) (inventory page) s in
      (elim out.error [ none ↦ inr (inventory_response out.raw) | some e ↦ inl e ], s')
