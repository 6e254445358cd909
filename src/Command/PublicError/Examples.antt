-- ===== src/Command/PublicError/Examples.antt =====
-- A refusal whose status is a proxy's page.
use dtp_discovery_agent.Common.{String, ◌≡◌, refl, false, none, some}
use dtp_discovery_agent.Command.PublicError.{CycleError, safe_word, public_error}
use dtp_discovery_agent.Command.PublicError.Words.{IsPublic, public_error-IsPublic}

abbrev refusal : String → CycleError
refusal status = record {
  not_enrolled = false;
  refused = some status;
  key_material = false;
  deadline_exceeded = false;
  http_status = none;
  net_timeout = false;
  url_error = false;
}

plain_status :
    public_error (λ n. "") (some (refusal "revoked")) ≡ "DTP refused this agent: it is revoked."
unfolding public_error safe_word
plain_status = refl

page_is_not_repeated :
    public_error (λ n. "") (some (refusal "<html>"))
    ≡ "DTP refused this agent: it is not allowed to report."
unfolding public_error safe_word
page_is_not_repeated = refl

public_error-IsPublic_example :
    IsPublic (λ n. "") (public_error (λ n. "") (some (refusal "<html>")))
public_error-IsPublic_example = public_error-IsPublic (λ n. "") (some (refusal "<html>"))
