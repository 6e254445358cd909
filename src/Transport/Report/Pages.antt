-- ===== src/Transport/Report/Pages.antt =====
-- Paging loses nothing: the pages, joined, are the observations, and none is over the limit.
use dtp_discovery_agent.Common.{
  ℕ, zero, suc, ◌-◌, ◌≤◌, ◌<◌, ◌≡◌, refl, List, [], ◌∷◌, ◌++◌, arith, All, length, take, drop,
  append-nil, ltb, Bool-cases, inl, inr, ap, ◌∙◌, sym, false,
}
use dtp_discovery_agent.Collect.Result.{Observation, Result}
use dtp_discovery_agent.Transport.Report.{
  chunk_from, chunk, pages_of, all_observations, max_observations_per_page,
}

module _ {ℓ} {A : Type ℓ} where
  abbrev pub join : List (List A) → List A
  join [] = []
  join (xs ∷ xss) = xs ++ join xss

  take-append-drop : (n : ℕ) (xs : List A) → take n xs ++ drop n xs ≡ xs
  take-append-drop zero xs = refl
  take-append-drop (suc n) [] = refl
  take-append-drop (suc n) (x ∷ xs) = ap (λ l. x ∷ l) (take-append-drop n xs)

  length-drop : (n : ℕ) (xs : List A) → length (drop n xs) ≡ length xs - n
  length-drop zero xs = omega arith
  length-drop (suc n) [] = omega arith
  length-drop (suc n) (x ∷ xs) = omega (arith, length-drop n xs)

  length-take-le : (n : ℕ) (xs : List A) → length (take n xs) ≤ n
  length-take-le zero xs = omega arith
  length-take-le (suc n) [] = omega arith
  length-take-le (suc n) (x ∷ xs) = omega (arith, length-take-le n xs)

  empty_of_length : (xs : List A) → ltb 0 (length xs) ≡ false → xs ≡ []
  empty_of_length [] h = refl
  empty_of_length (x ∷ xs) h = ground arith

  join-chunk_from :
      (fuel size : ℕ) (xs : List A)
      → 0 < size
      → length xs ≤ fuel
      → (join (chunk_from fuel size xs) ≡ xs) × All (λ p. length p ≤ size) (chunk_from fuel size xs)
  unfolding chunk_from
  join-chunk_from zero size [] h e = (refl, tt)
  join-chunk_from zero size (x ∷ xs) h e = elim e [ ]
  join-chunk_from (suc fuel) size xs h e =
      let (joined, short) =
        join-chunk_from fuel size (drop size xs) h (omega (arith, length-drop size xs)) in
      elim (Bool-cases (ltb size (length xs))) [
        | inl more ↦ rw more (
          ap (λ l. take size xs ++ l) joined ∙ take-append-drop size xs,
          (length-take-le size xs, short),
        )
        | inr last ↦ rw last (elim (Bool-cases (ltb 0 (length xs))) [
          | inl some' ↦ rw some' (append-nil xs, (ground arith, tt))
          | inr none' ↦ rw none' (sym (empty_of_length xs none'), tt)
        ])
      ]

module _ (results : List Result) where
  -- The pages of a scan, joined, are all its observations in order, none holds more than
  -- `max_observations_per_page`, and there is at least one, even if there is nothing to report.
  pub join-pages_of :
      (join (pages_of results) ≡ all_observations results)
      × All (λ p. length p ≤ max_observations_per_page) (pages_of results)
      × (0 < length (pages_of results))
  unfolding pages_of
  join-pages_of = split (chunk (all_observations results) max_observations_per_page) refl
    where
      whole :
          (join (chunk (all_observations results) max_observations_per_page)
            ≡ all_observations results)
          × All
              (λ p. length p ≤ max_observations_per_page)
              (chunk (all_observations results) max_observations_per_page)
      whole =
          join-chunk_from (length (all_observations results)) max_observations_per_page
            (all_observations results) (omega arith) (omega arith)

      split :
          (c : List (List Observation))
          → chunk (all_observations results) max_observations_per_page ≡ c
          → (join (pages_of results) ≡ all_observations results)
            × All (λ p. length p ≤ max_observations_per_page) (pages_of results)
            × (0 < length (pages_of results))
      split [] e = rw (e, pages_of) (rw e at (whole.0), (omega arith, tt), omega arith)
      split (p ∷ ps) e = rw (e, pages_of) (rw e at (whole.0), rw e at (whole.1), omega arith)
