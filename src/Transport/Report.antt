-- ===== src/Transport/Report.antt =====
-- internal/transport/run.go: the upload of one scan, paged under one run id.
pub mod Pages
pub mod Uploads
mod Examples
use dtp_discovery_agent.Common.{
  ℕ, zero, suc, ◌+◌, String, Bool, true, false, Option, none, some, List, [], ◌∷◌, ◌++◌, ltb, ◌==◌,
  length, take, drop, if◌then◌else◌, inl, inr, ◌⊎◌,
}
use dtp_discovery_agent.Collect.Result.{Observation, Error, Result}
use dtp_discovery_agent.Transport.Client.{
  Host, Client, ClientError, uploading, InventoryPage, InventoryResponse, post_inventory,
}

abbrev pub max_observations_per_page : ℕ
max_observations_per_page = 500

-- The loop of `chunk`; the fuel is the length of the list, each round of which takes some.
chunk_from {ℓ} : {A : Type ℓ} → ℕ → ℕ → List A → List (List A)
chunk_from zero size all = []
chunk_from (suc fuel) size all =
    let rest = chunk_from fuel size (drop size all) in
    if ltb size (length all)
    then take size all ∷ rest
    else if ltb 0 (length all)
    then all ∷ []
    else []

unfoldable pub chunk {ℓ} : {A : Type ℓ} → List A → ℕ → List (List A)
unfolding chunk_from
chunk all size = chunk_from (length all) size all

-- what Report gathers of the collectors' results
pub all_observations : List Result → List Observation
all_observations [] = []
all_observations (r ∷ rs) = r.observations ++ all_observations rs

pub all_errors : List Result → List Error
all_errors [] = []
all_errors (r ∷ rs) = r.errors ++ all_errors rs

pub completed_sources : List Result → List String
completed_sources [] = []
completed_sources (r ∷ rs) =
    let rest = completed_sources rs in if r.completed then r.source ∷ rest else rest

-- the pages of a scan, one of them empty where there is nothing to report
unfoldable pub pages_of : List Result → List (List Observation)
unfolding all_observations chunk
pages_of results = elim (chunk (all_observations results) max_observations_per_page) [
  | [] ↦ [] ∷ []
  | p ∷ ps ↦ p ∷ ps
]

-- one request of the loop; what only the final page carries is given on the others as empty
unfoldable pub page :
    String → String → String → List Result → Bool → List Observation → InventoryPage
unfolding completed_sources all_errors
page run_id started finished results final observations = record {
  run_id = run_id;
  started_at = started;
  finished_at = if final then finished else "";
  final = final;
  completed_sources = if final then completed_sources results else [];
  collector_errors = if final then all_errors results else [];
  observations = observations;
}

-- What Report returns: the last response, and the error that ended it.
pub record Report : Type 0 where
  pub last : Option InventoryResponse
  pub error : Option ClientError

-- client.Inventory, as the loop uses it
abbrev pub Post : Type 0 → Type 0
Post S = InventoryPage → S → (ClientError ⊎ InventoryResponse) × S

module _ {S : Type 0} (post : Post S) (timestamp : S → String) (run_id started : String)
    (results : List Result) where
  -- the loop of Report from page `i` of `n`
  pub upload : ℕ → ℕ → Option InventoryResponse → List (List Observation) → S → Report × S
  upload i n last [] s = (record { last = last; error = none }, s)
  upload i n last (p ∷ ps) s =
      let (reply, s') = post (page run_id started (timestamp s) results (i + 1 == n) p) s in
      elim reply [
        | inl e ↦ (record { last = last; error = some (uploading (i + 1) n e) }, s')
        | inr resp ↦ upload (i + 1) n (some resp) ps s'
      ]

  -- Report, through any Inventory call
  unfoldable pub report_through : S → Report × S
  unfolding upload pages_of page
  report_through s = upload 0 (length (pages_of results)) none (pages_of results) s

-- Report
unfoldable pub report :
    (h : Host) → Client → String → String → List Result → h.State → Report × h.State
unfolding report_through
report h c run_id started results =
    report_through (post_inventory h c) h.timestamp run_id started results
