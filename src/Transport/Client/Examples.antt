-- ===== src/Transport/Client/Examples.antt =====
-- A host with a server that admits the agent, and one body that carries a key.
use dtp_discovery_agent.Common.{
  ℕ, ℤ, ◌+◌, ◌*◌, ◌^◌, ◌≡◌, refl, pos, seconds, false, none, some, [], str_eq,
}
use dtp_discovery_agent.Transport.Guard.{
  str, obj, end, field, in_obj, value, here, string_carries, refuses_outbound,
}
use dtp_discovery_agent.Transport.Client.{
  Host, Client, answered, checkin, failure, key_material, do_request, authenticate,
  pending_approval, Outcome, grant, token_response,
}
use dtp_discovery_agent.Transport.Client.Sending.{do_request_refused}
use dtp_discovery_agent.Transport.Client.Tokens.{
  authenticate_token, authenticate_error, IsWait, grant-IsWait,
}

abbrev host : ℕ → Host
host code = record {
  State = ℕ;
  marshal = λ b. some "body";
  key_tests = record {
    contains_private_key = λ s. str_eq s "KEY";
    armored = λ s. str_eq s "ARMOR";
    decode = λ s. some (obj (field "note" (str "ARMOR") end));
  };
  send = λ r s. (answered code "reply", s + 1);
  now = λ s. s;
  sign = λ f s.
      (some (record { key_fingerprint = f; issued_at = "t"; nonce = "n"; signature = "s" }), s);
  decode_token = λ s. record {
    access_token = "T";
    expires_in = pos 300;
    agent_status = "suspended";
    retry_after = pos 0;
  };
  decode_inventory = λ s. record { run_id = "r"; recorded = 0; rejected = 0; errors = [] };
  timestamp = λ s. "t";
}

-- the same host, whose bodies hold no key
abbrev clean : ℕ → Host
clean code = record (host code) {
  key_tests = record {
    contains_private_key = λ s. false;
    armored = λ s. false;
    decode = λ s. none;
  };
}

abbrev client : Client
client = record { base_url = "https://dtp"; version = "1"; token = ""; token_expires_at = pos 0 }

do_request_refused_example :
    do_request (host 200) client "/discovery/v1/checkin" [] (checkin "1") 5
    ≡ (failure 0 key_material, 5)
do_request_refused_example =
    do_request_refused (host 200) client "/discovery/v1/checkin" [] (checkin "1") 5 "body" "note"
      "ARMOR" (obj (field "note" (str "ARMOR") end)) refl refl (in_obj (value (here refl refl)))
      (unfold string_carries in refl)

granted : (authenticate (clean 200) client "f" 5).0 ≡ none
unfolding authenticate refuses_outbound
granted = refl

authenticate_token_example : str_eq (authenticate (clean 200) client "f" 5).1.token "" ≡ false
authenticate_token_example = authenticate_token (clean 200) client "f" 5 granted

pending : (authenticate (clean 202) client "f" 5).0 ≡ some (pending_approval (pos (30 * 10 ^ 9)))
unfolding authenticate refuses_outbound seconds
pending = refl

authenticate_error_example : (authenticate (clean 202) client "f" 5).1 ≡ client
authenticate_error_example =
    authenticate_error (clean 202) client "f" 5 {e = pending_approval (pos (30 * 10 ^ 9))} pending

-- an answer of 202 that asks for some seconds
abbrev asking : ℤ → Host
asking n = record (clean 202) {
  decode_token =
      λ s. record { access_token = ""; expires_in = pos 0; agent_status = ""; retry_after = n };
}

abbrev not_yet : Outcome
not_yet = record { code = 202; raw = some "reply"; error = none }

-- 10^10 seconds are no int64 of nanoseconds, and come out as the default
long_wait_wraps :
    (grant (asking (pos (10 ^ 10))) client not_yet 5).0
    ≡ some (pending_approval (pos (30 * 10 ^ 9)))
unfolding grant seconds token_response
long_wait_wraps = refl

grant-IsWait_example :
    (wait : ℤ) × (grant (asking (pos 90)) client not_yet 5 ≡ (some (pending_approval wait), client))
    × IsWait (token_response (asking (pos 90)) not_yet.raw).retry_after wait
grant-IsWait_example = grant-IsWait (asking (pos 90)) client not_yet 5 refl
