-- ===== src/Tray/View/Examples.antt =====
-- The icon of a machine that has reported, seen soon after and a day later.
use dtp_discovery_agent.Common.{◌≡◌, refl, none, some}
use dtp_discovery_agent.Tray.View.{
  running, attention, PublicStatus, Words, describe, describe_file, describe_status, doubt,
  note_stuck, is_stuck, heartbeat, phase_view, reporting_view, last_report,
}

-- every time reads as the same second
abbrev plain_words : Words
plain_words = record {
  web_url = λ s. s;
  host_of = λ s. s;
  parse_time = λ s. some 1000;
  when = λ t now. "10:42";
  clip = λ s. s;
  found = λ at n. "Last report";
  rejected_line = λ n. "rejected";
}

abbrev reported_status : PublicStatus
reported_status = record {
  version = "1";
  updated_at = "10:42";
  phase = "reporting";
  server_url = "https://dtp.example";
  last_run_at = "10:42";
  observed = 3;
  recorded = 3;
  rejected = 0;
  last_error = "";
}

stale_after_a_day :
    (describe plain_words running (some reported_status) none 90000).health ≡ attention
unfolding describe describe_file describe_status doubt note_stuck is_stuck heartbeat phase_view
    reporting_view last_report
stale_after_a_day = refl
