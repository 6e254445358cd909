-- ===== src/Collect/Run/Examples.antt =====
-- A run of two small collectors, one of them disabled, and one of three collectors of the agent.
use dtp_discovery_agent.Common.{String, ◌≤◌, ◌≡◌, refl, false, some, List, [], ◌∷◌, length, All}
use dtp_discovery_agent.Collect.Result.{Observation, start}
use dtp_discovery_agent.Collect.Run.{
  Sweeper, observe_within, run, max_observations_per_run, max_observation_bytes_per_run,
  validate_disabled,
}
use dtp_discovery_agent.Collect.Run.Sweep.{IsSweeping, begin, see, total_size}
use dtp_discovery_agent.Collect.Run.Caps.{
  IsHonest, reported, run-IsWithin, run-sources, sources, enabled,
}
use dtp_discovery_agent.Collect.FileSystem
use dtp_discovery_agent.Collect.FileSystem.Examples.{nested_host, two_roots}
use dtp_discovery_agent.Collect.FileSystem.Sweeping.{walk-IsSweeping}
use dtp_discovery_agent.Collect.ServerConfig
use dtp_discovery_agent.Collect.ServerConfig.Examples.{one_host, one_bounds}
use dtp_discovery_agent.Collect.ServerConfig.Sweeping.{sweeper-IsSweeping}
use dtp_discovery_agent.Collect.Listener
use dtp_discovery_agent.Collect.Listener.Examples.{talking_host, two_named}
use dtp_discovery_agent.Collect.Listener.Sweeping.{inform-IsSweeping}

abbrev site : Observation
site = record {
  certificate_pem = "cert";
  chain_pem = "";
  source = "file";
  location = "/etc/ssl/site.pem";
  binding = [];
  private_key_present = false;
  private_key_location = "";
  file_mode = "0644";
  file_owner = "root";
  observed_at = 7;
}

abbrev finder : String → Sweeper
finder name = record {
  source = name;
  collect = λ earlier limit.
      ((observe_within site (start name) limit).1, (observe_within site (start name) limit).2);
}

finder-IsSweeping : (name : String) → IsSweeping (finder name)
finder-IsSweeping name earlier limit = see begin site

abbrev two : List Sweeper
two = finder "file" ∷ finder "listener" ∷ []

two-IsSweeping : All IsSweeping two
two-IsSweeping = (finder-IsSweeping "file", (finder-IsSweeping "listener", tt))

one_is_reported : length (reported (run ("listener" ∷ []) two)) ≡ 1
unfolding run reported observe_within
one_is_reported = refl

-- the collectors of files, server configurations and listeners, each on a small host
abbrev three : List Sweeper
three =
    FileSystem.sweeper nested_host two_roots 0
    ∷ ServerConfig.sweeper one_host one_bounds 0
    ∷ Listener.sweeper talking_host two_named 0
    ∷ []

three-IsSweeping : All IsSweeping three
three-IsSweeping = (
  walk-IsSweeping nested_host two_roots 0,
  (sweeper-IsSweeping one_host one_bounds 0, (inform-IsSweeping talking_host two_named 0, tt)),
)

run-IsWithin_example :
    (length (reported (run [] three)) ≤ max_observations_per_run)
    × (total_size (reported (run [] three)) ≤ max_observation_bytes_per_run)
    × All (IsHonest []) (run [] three)
run-IsWithin_example = run-IsWithin [] three three-IsSweeping

run-sources_example : sources (run ("listener" ∷ []) two) ≡ enabled ("listener" ∷ []) two
run-sources_example = run-sources ("listener" ∷ []) two two-IsSweeping

validate_typo : validate_disabled ("file" ∷ "listner" ∷ []) ≡ some "listner"
unfolding validate_disabled
validate_typo = refl
