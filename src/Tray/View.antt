-- ===== src/Tray/View.antt =====
-- What the icon shows for the service manager's word and the published status
-- (internal/tray/view.go; PublicStatus and its phases from internal/state/public.go).
-- Times are seconds; url.Parse, time.Parse, the formats of times and numbers and clip are
-- the parameter Words.
use dtp_discovery_agent.Common.{
  ℕ, ℤ, zero, suc, ◌+◌, ◌-◌, ◌*◌, ◌≤◌, ◌<◌, min, max, String, ◌≡◌, refl, sym, ap, ◌∙◌, ◌≢◌, ◌↔◌,
  ◌⊎◌, inl, inr, Bool, true, false, not, ◌&&◌, ◌||◌, Option, none, some, List, [], ◌∷◌, ◌++◌, map,
  append-nil, append_assoc, map-append, arith, str_eq, eq_iff, eq_refl, ltb, leb, ◌==◌,
  if◌then◌else◌, contains, Bool-cases, Option-cases, Sum-cases, length, take, drop, All, All-append,
  length-append, ◌/◌, ◌%◌, ◌^◌,
}
use Prim.Native.String
mod Colours
mod Examples

pub data Service : Type 0 where
  service_unknown : Service
  not_installed : Service
  service_stopped : Service
  starting : Service
  running : Service
  stopping : Service

pub data Health : Type 0 where
  good : Health
  attention : Health
  problem : Health
  unknown : Health

-- Health's order as an int: worse is larger
abbrev pub severity : Health → ℕ
severity good = 0
severity attention = 1
severity problem = 2
severity unknown = 3

-- StaleAfter
abbrev pub stale_after : ℕ
stale_after = 10800

abbrev pub phase_not_enrolled : String
phase_not_enrolled = "not_enrolled"

abbrev pub phase_pending : String
phase_pending = "pending"

abbrev pub phase_scheduled : String
phase_scheduled = "scheduled"

abbrev pub phase_scanning : String
phase_scanning = "scanning"

abbrev pub phase_reporting : String
phase_reporting = "reporting"

abbrev pub phase_failed : String
phase_failed = "failed"

pub record PublicStatus : Type 0 where
  version : String
  updated_at : String
  phase : String
  server_url : String
  last_run_at : String
  observed : ℕ
  recorded : ℕ
  rejected : ℕ
  last_error : String

pub record View : Type 0 where
  health : Health
  headline : String
  details : List String
  server_url : String
  needs_enrollment : Bool

-- webURL, hostOf, parseTime, when, clip to 160 and the formats of the two sentences with a number.
pub record Words : Type 0 where
  web_url : String → String
  host_of : String → String
  parse_time : String → Option ℕ
  when : (t now : ℕ) → String
  clip : String → String
  found : (at : String) → (observed : ℕ) → String
  rejected_line : ℕ → String

-- The limit of a phase that the icon calls stuck, if it has one.
unfoldable pub heartbeat : String → Option ℕ
heartbeat phase =
    if str_eq phase phase_not_enrolled
    then some 600
    else if str_eq phase phase_pending
    then some 1800
    else if str_eq phase phase_scheduled
    then some stale_after
    else if str_eq phase phase_scanning
    then some stale_after
    else none

abbrev pub bare : Health → String → List String → View
bare health headline details = record {
  health = health;
  headline = headline;
  details = details;
  server_url = "";
  needs_enrollment = false;
}

abbrev pub one_unless_empty : String → List String
one_unless_empty s = if str_eq s "" then [] else s ∷ []

abbrev pub to_host : String → String
to_host host = if str_eq host "" then "" else String.◌++◌ " to " host

abbrev pub in_host : String → String
in_host host = if str_eq host "" then "" else String.◌++◌ " (" (String.◌++◌ host ")")

-- now - t > limit
abbrev pub is_older : ℕ → Option ℕ → ℕ → Bool
is_older now none limit = false
is_older now (some t) limit = ltb (t + limit) now

module _ (words : Words) where
  unfoldable pub last_report : PublicStatus → ℕ → String
  last_report st now = elim (words.parse_time (st.last_run_at)) [
    | none ↦ ""
    | some t ↦ words.found (words.when t now) (st.observed)
  ]

  abbrev pub said_when : Option ℕ → ℕ → String
  said_when none now = ""
  said_when (some t) now = words.when t now

  -- the case of PhaseReporting
  unfoldable pub reporting_view : PublicStatus → ℕ → View
  reporting_view st now =
      let t = words.parse_time (st.last_run_at) in
      let rejects = if ltb 0 (st.rejected) then words.rejected_line (st.rejected) ∷ [] else [] in
      if is_older now t stale_after
      then bare attention (String.◌++◌ "No report since " (said_when t now))
          ("The service is running but has not completed a scan recently." ∷ rejects)
      else bare good (String.◌++◌ "Reporting" (to_host (words.host_of (st.server_url))))
          (one_unless_empty (last_report st now) ++ rejects)

  -- the switch on the phase
  unfoldable pub phase_view : PublicStatus → ℕ → View
  phase_view st now =
      if str_eq (st.phase) phase_not_enrolled
      then record (bare attention "Installed, but not enrolled yet"
          ("This machine reports nothing until it is enrolled with a DTP account." ∷ [])) {
            needs_enrollment = true;
          }
      else if str_eq (st.phase) phase_pending
      then bare attention "Waiting for approval" (
          String.◌++◌ "An account admin needs to admit this agent in DTP"
            (String.◌++◌ (in_host (words.host_of (st.server_url))) ".")
          ∷ [])
      else if str_eq (st.phase) phase_scheduled
      then bare good "Enrolled; first scan is a few minutes away" []
      else if str_eq (st.phase) phase_scanning
      then bare good "Scanning this machine" (one_unless_empty (last_report st now))
      else if str_eq (st.phase) phase_reporting
      then reporting_view st now
      else if str_eq (st.phase) phase_failed
      then bare problem "The last report failed" (
          (if str_eq (st.last_error) "" then [] else words.clip (st.last_error) ∷ [])
          ++ one_unless_empty (last_report st now))
      else bare unknown (String.◌++◌ "Agent status: " (st.phase)) []

  abbrev pub is_running : Service → Bool
  is_running running = true
  is_running _ = false

  abbrev pub is_alive : Service → Bool
  is_alive running = true
  is_alive starting = true
  is_alive _ = false

  abbrev pub at_least_attention : Health → Health
  at_least_attention h = if ltb (severity h) (severity attention) then attention else h

  -- a status that has stopped moving
  unfoldable pub is_stuck : Service → PublicStatus → ℕ → Bool
  is_stuck svc st now = elim (heartbeat (st.phase)) [
    | none ↦ false
    | some limit ↦ is_running svc && is_older now (words.parse_time (st.updated_at)) limit
  ]

  unfoldable pub note_stuck : Service → PublicStatus → ℕ → View → View
  note_stuck svc st now v =
      if is_stuck svc st now
      then record v {
        health = at_least_attention (v.health);
        details =
            v.details
            ++ String.◌++◌ "Status not updated since "
                (String.◌++◌ (said_when (words.parse_time (st.updated_at)) now) ".")
              ∷ [];
      }
      else v

  -- a file that says all is well, of a process the service manager does not vouch for
  unfoldable pub doubt : Service → View → View
  doubt svc v = if is_alive svc then v else record v { health = at_least_attention (v.health) }

  unfoldable pub describe_status : Service → PublicStatus → ℕ → View
  describe_status svc st now = doubt svc (
      note_stuck svc st now
        (record (phase_view st now) { server_url = words.web_url (st.server_url) }))

  unfoldable pub describe_file : Service → Option PublicStatus → Option String → ℕ → View
  describe_file svc st (some error) now = bare unknown "Cannot read the agent's status" (error ∷ [])
  describe_file svc none none now =
      if is_alive svc
      then bare unknown "Running; no status published yet" []
      else bare unknown "Agent status unknown" []
  describe_file svc (some st) none now = describe_status svc st now

  unfoldable pub describe : Service → Option PublicStatus → Option String → ℕ → View
  describe not_installed st error now =
      bare problem "The agent service is not installed"
        ("Reinstall the agent from its .msi to register the service." ∷ [])
  describe service_stopped st error now = bare problem "The agent service is stopped" (
      "Nothing is being reported. Start it from an administrator prompt:" ∷ "sc.exe start DTPAgent"
      ∷ [])
  describe stopping st error now = bare attention "The agent service is stopping" []
  describe svc st error now = describe_file svc st error now
