-- ===== src/Command/PublicError.antt =====
-- The outcome of a cycle and the words for it that every user of the machine may read
-- (cmd/dtp-agent/publicerror.go and outcome.go). An error is what errors.Is and errors.As answer of
-- it; `number` is the format %d.
use dtp_discovery_agent.Common.{
  ℕ, String, Bool, true, false, not, ◌&&◌, ◌||◌, Option, none, some, List, [], ◌∷◌, ltb, leb, ◌==◌,
  if◌then◌else◌,
}
use dtp_discovery_agent.Common.Text.{runes, join}
use dtp_discovery_agent.Tray.View.{phase_failed, phase_reporting}
use Prim.Native.Char.{Char, code}
use Prim.Native.String.{len}
mod Words
mod Examples

pub record CycleError : Type 0 where
  pub not_enrolled : Bool  -- state.ErrNotEnrolled
  pub refused : Option String  -- transport.ErrRefused, with its AgentStatus
  pub key_material : Bool  -- transport.ErrKeyMaterialOutbound
  pub deadline_exceeded : Bool
  pub http_status : Option ℕ
  pub net_timeout : Bool
  pub url_error : Bool

abbrev pub is_word_rune : Char → Bool
is_word_rune c = (leb b'a' (code c) && leb (code c) b'z') || code c == b'_'

abbrev pub all_word_runes : List Char → Bool
all_word_runes [] = true
all_word_runes (c ∷ cs) = is_word_rune c && all_word_runes cs

abbrev pub not_allowed : String
not_allowed = "not allowed to report"

-- len counts bytes
unfoldable pub safe_word : String → String
safe_word s =
    if len s == 0 || ltb 20 (len s)
    then not_allowed
    else if all_word_runes (runes s)
    then s
    else not_allowed

-- the part of publicError behind its switch
unfoldable pub network_error : CycleError → String
network_error e =
    if e.net_timeout
    then "The DTP server did not answer in time."
    else if e.url_error
    then "Could not reach the DTP server."
    else "The last report failed."

unfoldable pub answered_error : (ℕ → String) → CycleError → String
answered_error number e = elim e.http_status [
  | some status ↦ join "" ("The DTP server answered HTTP " ∷ number status ∷ "." ∷ [])
  | none ↦ network_error e
]

unfoldable pub transport_error : (ℕ → String) → CycleError → String
transport_error number e =
    if e.key_material
    then "The agent refused to send a report that looked like it held key material."
    else if e.deadline_exceeded
    then "The DTP server did not answer in time."
    else answered_error number e

-- publicError; no error is `none`
unfoldable pub public_error : (ℕ → String) → Option CycleError → String
public_error number none = ""
public_error number (some e) =
    if e.not_enrolled then "This agent is not enrolled." else elim e.refused [
      | some status ↦ join "" ("DTP refused this agent: it is " ∷ safe_word status ∷ "." ∷ [])
      | none ↦ transport_error number e
    ]

-- outcome: the phase and the error that are published, or none at rest
unfoldable pub outcome : Bool → Option CycleError → Option (String × Option CycleError)
outcome true err = none
outcome false (some e) = some (phase_failed, some e)
outcome false none = some (phase_reporting, none)
