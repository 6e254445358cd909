-- ===== src/Collect/Run/Caps.antt =====
-- A run over collectors that record only through `observe` stays within its limits, and what its
-- limits cut is never called complete.
use dtp_discovery_agent.Common.{
  ◌≤◌, ◌≡◌, String, true, false, ◌||◌, ◌&&◌, List, [], ◌∷◌, ◌++◌, map, if◌then◌else◌, arith, length,
  All, contains, Bool-cases, inl, inr, length-append, All-append, append-nil, append_assoc, ◌∙◌,
  sym, ap, map-append,
}
use dtp_discovery_agent.Collect.Result.{Observation, Result}
use dtp_discovery_agent.Collect.Run.{
  RunCap, Sweeper, run_one, not_run, run_within, run, fresh_cap, max_observations_per_run,
  max_observation_bytes_per_run, reached_run_limit,
}
use dtp_discovery_agent.Collect.Run.Sweep.{
  IsSweeping, IsCounted, Sweep-IsCounted, total_size, total_size-append,
}

-- all that a run reports
unfoldable pub reported : List Result → List Observation
reported [] = []
reported (r ∷ rs) = r.observations ++ reported rs

reported-append :
    (xs : List Result) (r : Result) → reported (xs ++ r ∷ []) ≡ reported xs ++ r.observations
unfolding reported
reported-append [] r = append-nil r.observations
reported-append (x ∷ xs) r = simp (reported-append xs r, append_assoc)

-- what holds of one result: if a limit cut it, it is not complete
abbrev pub IsHonest : List String → Result → Type 0
IsHonest disabled r = ((r.capped && r.completed) ≡ false) × (contains disabled r.source ≡ false)

record Inv (disabled : List String) (out : List Result) (limit : RunCap) : Type 0 where
  counted : limit.count ≡ length (reported out)
  weighed : limit.bytes ≡ total_size (reported out)
  within_count : limit.count ≤ limit.max_count
  within_bytes : limit.bytes ≤ limit.max_bytes
  honest : All (IsHonest disabled) out
  told : limit.full ≡ true → reached_run_limit out ≡ true
  same_count : limit.max_count ≡ max_observations_per_run
  same_bytes : limit.max_bytes ≡ max_observation_bytes_per_run

reached-append :
    (xs : List Result) (r : Result)
    → reached_run_limit (xs ++ r ∷ []) ≡ reached_run_limit xs || r.capped
unfolding reached_run_limit
reached-append [] r = ground arith
reached-append (x ∷ xs) r = ground (arith, reached-append xs r)

append-Inv :
    (disabled : List String) (out : List Result) (limit : RunCap) (source : String) (r : Result)
    (limit' : RunCap)
    → contains disabled source ≡ false
    → Inv disabled out limit
    → IsCounted source limit r limit'
    → Inv disabled (out ++ r ∷ []) limit'
append-Inv disabled out limit source r limit' en h c = record {
  counted =
      rw reported-append
        (omega (arith, h.counted, c.counted, length-append (reported out) r.observations));
  weighed =
      rw reported-append
        (omega (arith, h.weighed, c.weighed, total_size-append (reported out) r.observations));
  within_count = c.within_count;
  within_bytes = c.within_bytes;
  honest = All-append _ out (r ∷ []) h.honest ((c.honest, rw c.named en), tt);
  told = λ f. ground (arith, reached-append out r, c.told f, h.told);
  same_count = c.same_count ∙ h.same_count;
  same_bytes = c.same_bytes ∙ h.same_bytes;
}

not_run-IsCounted :
    (limit : RunCap) (source : String)
    → limit.count ≤ limit.max_count
    → limit.bytes ≤ limit.max_bytes
    → IsCounted source limit (not_run limit source) limit
unfolding not_run total_size
not_run-IsCounted limit source hc hb = ground arith

run_one-Inv :
    (disabled : List String) (c : Sweeper) (out : List Result) (limit : RunCap)
    → IsSweeping c
    → Inv disabled out limit
    → Inv disabled (run_one disabled c out limit).0 (run_one disabled c out limit).1
unfolding run_one
run_one-Inv disabled c out limit sweeping h = elim (Bool-cases (contains disabled c.source)) [
  | inl off ↦ rw off h
  | inr on ↦ rw on (elim (Bool-cases limit.full) [
    | inl full ↦ simp full (
        append-Inv disabled out limit c.source (not_run limit c.source) limit on h
          (not_run-IsCounted limit c.source h.within_count h.within_bytes))
    | inr room ↦ simp room (
        append-Inv disabled out limit c.source (c.collect out limit).0 (c.collect out limit).1 on h
          (Sweep-IsCounted c.source h.within_count h.within_bytes (sweeping out limit)))
  ])
]

run_within-Inv :
    (disabled : List String) (cs : List Sweeper) (out : List Result) (limit : RunCap)
    → All IsSweeping cs
    → Inv disabled out limit
    → Inv disabled (run_within disabled cs out limit).0 (run_within disabled cs out limit).1
unfolding run_within
run_within-Inv disabled [] out limit sweeping h = h
run_within-Inv disabled (c ∷ cs) out limit sweeping h =
    let (out', limit') = run_one disabled c out limit in
    run_within-Inv disabled cs out' limit' sweeping.1
      (run_one-Inv disabled c out limit sweeping.0 h)

fresh-Inv : (disabled : List String) → Inv disabled [] fresh_cap
unfolding reported total_size
fresh-Inv disabled = ground arith

-- Whatever the collectors find, if they record only through `observe`, a run reports at most
-- `max_observations_per_run` observations of at most `max_observation_bytes_per_run` bytes, calls no
-- source complete that its limits cut, and has no result of a disabled source.
pub run-IsWithin :
    (disabled : List String) (cs : List Sweeper)
    → All IsSweeping cs
    → (length (reported (run disabled cs)) ≤ max_observations_per_run)
      × (total_size (reported (run disabled cs)) ≤ max_observation_bytes_per_run)
      × All (IsHonest disabled) (run disabled cs)
unfolding run
run-IsWithin disabled cs sweeping =
    let h = run_within-Inv disabled cs [] fresh_cap sweeping (fresh-Inv disabled) in
    (omega arith, omega arith, h.honest)

-- If the cap of a run is full at its end, some result says that the limit was reached.
pub run_within-reached_run_limit :
    (disabled : List String) (cs : List Sweeper)
    → All IsSweeping cs
    → (run_within disabled cs [] fresh_cap).1.full ≡ true
    → reached_run_limit (run disabled cs) ≡ true
unfolding run
run_within-reached_run_limit disabled cs sweeping full =
    (run_within-Inv disabled cs [] fresh_cap sweeping (fresh-Inv disabled)).told full

abbrev pub sources : List Result → List String
sources rs = map (λ r. r.source) rs

-- the sources that are not disabled, in order
pub enabled : List String → List Sweeper → List String
enabled disabled [] = []
enabled disabled (c ∷ cs) =
    let rest = enabled disabled cs in if contains disabled c.source then rest else c.source ∷ rest

run_one-sources :
    (disabled : List String) (c : Sweeper) (out : List Result) (limit : RunCap)
    → IsSweeping c
    → Inv disabled out limit
    → sources (run_one disabled c out limit).0 ≡ sources out ++ enabled disabled (c ∷ [])
unfolding run_one not_run enabled
run_one-sources disabled c out limit sweeping h = elim (Bool-cases (contains disabled c.source)) [
  | inl off ↦ rw off (sym (append-nil (sources out)))
  | inr on ↦ rw on (elim (Bool-cases limit.full) [
    | inl full ↦ simp full (map-append (λ (r : Result). r.source) out _)
    | inr room ↦ simp room (
        map-append (λ (r : Result). r.source) out ((c.collect out limit).0 ∷ [])
        ∙ ap (λ (n : String). sources out ++ n ∷ [])
            (Sweep-IsCounted c.source h.within_count h.within_bytes (sweeping out limit)).named)
  ])
]

enabled-cons :
    (disabled : List String) (c : Sweeper) (cs : List Sweeper)
    → enabled disabled (c ∷ cs) ≡ enabled disabled (c ∷ []) ++ enabled disabled cs
unfolding enabled
enabled-cons disabled c cs = ground arith

run_within-sources :
    (disabled : List String) (cs : List Sweeper) (out : List Result) (limit : RunCap)
    → All IsSweeping cs
    → Inv disabled out limit
    → sources (run_within disabled cs out limit).0 ≡ sources out ++ enabled disabled cs
unfolding run_within enabled
run_within-sources disabled [] out limit sweeping h = sym (append-nil (sources out))
run_within-sources disabled (c ∷ cs) out limit sweeping h =
    let (out', limit') = run_one disabled c out limit in
    run_within-sources disabled cs out' limit' sweeping.1
      (run_one-Inv disabled c out limit sweeping.0 h)
    ∙ ap (λ l. l ++ enabled disabled cs) (run_one-sources disabled c out limit sweeping.0 h)
    ∙ append_assoc (sources out) (enabled disabled (c ∷ [])) (enabled disabled cs)
    ∙ ap (λ l. sources out ++ l) (sym (enabled-cons disabled c cs))

-- A run has one result for each source that is not disabled, in the order of the collectors, also
-- for those that it did not reach because it was full.
pub run-sources :
    (disabled : List String) (cs : List Sweeper)
    → All IsSweeping cs
    → sources (run disabled cs) ≡ enabled disabled cs
unfolding run
run-sources disabled cs sweeping =
    run_within-sources disabled cs [] fresh_cap sweeping (fresh-Inv disabled)
