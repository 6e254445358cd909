-- ===== src/Collect/Iis/Examples.antt =====
-- Two bindings, one with a host header.
use dtp_discovery_agent.Common.{◌≡◌, refl, [], ◌∷◌}
use dtp_discovery_agent.Collect.Iis.{registry_keys}

any_address :
    registry_keys (record { information = "*:8443:www"; protocol = "https" })
    ≡ "0.0.0.0:8443:www" ∷ "0.0.0.0:8443:www" ∷ "0.0.0.0:8443" ∷ []
unfolding registry_keys
any_address = refl

no_port :
    registry_keys (record { information = "10.0.0.5"; protocol = "https" })
    ≡ "10.0.0.5:443" ∷ "0.0.0.0:443" ∷ []
unfolding registry_keys
no_port = refl
