-- ===== src/Tray/View/Colours.antt =====
-- What the icon's colour vouches for.
use dtp_discovery_agent.Common.{
  ℕ, String, Bool, true, false, not, ◌&&◌, ◌||◌, Option, none, some, str_eq,
}
use dtp_discovery_agent.Tray.View.{
  Service, Health, good, stale_after, phase_scheduled, phase_scanning, phase_reporting,
  PublicStatus, View, Words, is_older, is_alive, is_stuck,
}

module _ (words : Words) where
  -- The phases that are good news, and a report that is not too old.
  abbrev pub is_fresh : PublicStatus → ℕ → Bool
  is_fresh st now =
      str_eq (st.phase) phase_scheduled
      || (str_eq (st.phase) phase_scanning
          || (str_eq (st.phase) phase_reporting
              && not (is_older now (words.parse_time (st.last_run_at)) stale_after)))

  -- All that has to hold for the icon to be green.
  abbrev pub is_vouched : Service → Option PublicStatus → Option String → ℕ → Bool
  is_vouched svc (some st) none now =
      is_alive words svc && (is_fresh st now && not (is_stuck words svc st now))
  is_vouched svc _ _ now = false

  abbrev is_good : Health → Bool
  is_good good = true
  is_good _ = false
