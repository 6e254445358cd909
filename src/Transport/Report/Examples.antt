-- ===== src/Transport/Report/Examples.antt =====
-- A scan of two collectors, one of which did not complete, uploaded to a server that accepts it.
use dtp_discovery_agent.Common.{
  ℕ, ◌+◌, ◌≤◌, ◌<◌, ◌≡◌, refl, String, false, none, List, [], ◌∷◌, All, length, map, inr,
}
use dtp_discovery_agent.Collect.Result.{Observation, Result, start, incomplete}
use dtp_discovery_agent.Transport.Client.{InventoryPage}
use dtp_discovery_agent.Transport.Report.{
  Post, report_through, pages_of, all_observations, completed_sources, max_observations_per_page,
}
use dtp_discovery_agent.Transport.Report.Pages.{join, join-pages_of}
use dtp_discovery_agent.Transport.Report.Uploads.{
  logged, clock, IsPaged, report_through-IsPaged, report_through_complete,
}

abbrev site : Observation
site = record {
  certificate_pem = "cert";
  chain_pem = "";
  source = "file";
  location = "/etc/ssl/site.pem";
  binding = [];
  private_key_present = false;
  private_key_location = "";
  file_mode = "0644";
  file_owner = "root";
  observed_at = 7;
}

abbrev scan : List Result
scan =
    record (start "file") { observations = site ∷ site ∷ [] }
    ∷ record (incomplete (start "listener")) { observations = site ∷ [] }
    ∷ []

abbrev accept : Post ℕ
accept p s = (inr (record { run_id = "r"; recorded = 3; rejected = 0; errors = [] }), s + 1)

abbrev at : ℕ → String
at s = "now"

one_page : length (pages_of scan) ≡ 1
unfolding pages_of
one_page = refl

only_the_file_source : completed_sources scan ≡ "file" ∷ []
unfolding completed_sources
only_the_file_source = refl

join-pages_of_example :
    (join (pages_of scan) ≡ all_observations scan)
    × All (λ p. length p ≤ max_observations_per_page) (pages_of scan)
    × (0 < length (pages_of scan))
join-pages_of_example = join-pages_of scan

report_through-IsPaged_example :
    IsPaged "r" scan 0
      (length (pages_of scan))
      (report_through (logged accept) (clock accept at "r" "t" scan) "r" "t" scan (0, [])).1.1
report_through-IsPaged_example = report_through-IsPaged accept at "r" "t" scan 0

accepted :
    (report_through (logged accept) (clock accept at "r" "t" scan) "r" "t" scan (0, [])).0.error
    ≡ none
unfolding report_through
accepted = refl

report_through_complete_example :
    join (
      map
        (λ (p : InventoryPage). p.observations)
        (report_through (logged accept) (clock accept at "r" "t" scan) "r" "t" scan (0, [])).1.1)
    ≡ all_observations scan
report_through_complete_example = report_through_complete accept at "r" "t" scan 0 accepted
