-- ===== src/Transport/Report/Uploads.antt =====
-- What Report hands to Inventory, whatever the server answers: pages of one run, in order, of which
-- only the last of all claims completed sources.
use dtp_discovery_agent.Common.{
  ℕ, ◌+◌, ◌≡◌, String, refl, Option, none, some, List, [], ◌∷◌, ◌++◌, map, length, ◌==◌, inl, inr,
  Sum-cases, append-nil, append_assoc, ap, sym, ◌∙◌, if◌then◌else◌,
}
use dtp_discovery_agent.Collect.Result.{Observation, Result}
use dtp_discovery_agent.Transport.Client.{InventoryPage, InventoryResponse}
use dtp_discovery_agent.Transport.Report.{
  Report, Post, upload, report_through, pages_of, page, completed_sources, all_errors,
  all_observations,
}
use dtp_discovery_agent.Transport.Report.Pages.{join, join-pages_of}

-- an Inventory call that also notes each page it is handed
abbrev pub logged : {S : Type 0} → Post S → Post (S × List InventoryPage)
logged post p (s, log) = let (reply, s') = post p s in (reply, (s', log ++ p ∷ []))

-- The pages from number `i` on, of `n`: each belongs to the run, only page `n` is final, and only
-- that one names completed sources and collector errors.
abbrev pub IsPaged : String → List Result → ℕ → ℕ → List InventoryPage → Type 0
IsPaged run_id results i n [] = Unit
IsPaged run_id results i n (p ∷ ps) =
    ((p.run_id ≡ run_id)
      × (p.final ≡ (i + 1 == n))
      × (p.completed_sources ≡ (if i + 1 == n then completed_sources results else []))
      × (p.collector_errors ≡ (if i + 1 == n then all_errors results else [])))
    × IsPaged run_id results (i + 1) n ps

module _ {S : Type 0} (post : Post S) (timestamp : S → String) (run_id started : String)
    (results : List Result) where
  abbrev pub clock : S × List InventoryPage → String
  clock (s, log) = timestamp s

  -- what one run of the loop adds to the log
  record Sent (i n : ℕ) (ps : List (List Observation)) (log : List InventoryPage) (r : Report)
      (log' : List InventoryPage) : Type 0 where
    added : List InventoryPage
    is_log : log' ≡ log ++ added
    paged : IsPaged run_id results i n added
    all_sent : r.error ≡ none → map (λ (p : InventoryPage). p.observations) added ≡ ps

  upload-Sent :
      (i n : ℕ) (last : Option InventoryResponse) (ps : List (List Observation)) (s : S)
      (log : List InventoryPage)
      → Sent i n ps log
          (upload (logged post) clock run_id started results i n last ps (s, log)).0
          (upload (logged post) clock run_id started results i n last ps (s, log)).1.1
  unfolding upload page
  upload-Sent i n last [] s log = record {
    added = [];
    is_log = sym (append-nil log);
    paged = tt;
    all_sent = λ e. refl;
  }
  upload-Sent i n last (p ∷ ps) s log =
      let q = page run_id started (timestamp s) results (i + 1 == n) p in
      let (reply, s') = post q s in
      elim (Sum-cases reply) [
        | inl (e, h) ↦
            rw (h, upload)
              (record {
                added = q ∷ [];
                is_log = refl;
                paged = ((refl, refl, refl, refl), tt);
                all_sent = λ x. cc;
              })
        | inr (resp, h) ↦
            let ih = upload-Sent (i + 1) n (some resp) ps s' (log ++ q ∷ []) in
            rw (h, upload)
              (record {
                added = q ∷ ih.added;
                is_log = ih.is_log ∙ append_assoc log (q ∷ []) ih.added;
                paged = ((refl, refl, refl, refl), ih.paged);
                all_sent = λ x. ap (λ (l : List (List Observation)). p ∷ l) (ih.all_sent x);
              })
      ]

  -- Whatever the server answers, every page that Report hands over belongs to the run, is final
  -- exactly if it is the last of them all, and only then names completed sources (those of the
  -- collectors that completed) and collector errors.
  pub report_through-IsPaged :
      (s : S)
      → IsPaged run_id results 0
          (length (pages_of results))
          (report_through (logged post) clock run_id started results (s, [])).1.1
  unfolding report_through
  report_through-IsPaged s =
      let sent = upload-Sent 0 (length (pages_of results)) none (pages_of results) s [] in
      rw sent.is_log sent.paged

  -- If Report ends without an error, the pages handed over, joined, are all the observations of the
  -- collectors, in order.
  pub report_through_complete :
      (s : S)
      → (report_through (logged post) clock run_id started results (s, [])).0.error ≡ none
      → join (
          map
            (λ (p : InventoryPage). p.observations)
            (report_through (logged post) clock run_id started results (s, [])).1.1)
        ≡ all_observations results
  unfolding report_through
  report_through_complete s e =
      let sent = upload-Sent 0 (length (pages_of results)) none (pages_of results) s [] in
      rw sent.is_log (rw (sent.all_sent e) (join-pages_of results).0)
