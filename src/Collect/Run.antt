-- ===== src/Collect/Run.antt =====
-- internal/collect/run.go: the limits of one run, `observe`, and the run over the collectors.
pub mod Sweep
pub mod Caps
mod Examples
use dtp_discovery_agent.Common.{
  ℕ, ◌+◌, ◌*◌, ◌/◌, ◌^◌, String, Bool, true, false, ◌||◌, Option, none, some, List, [], ◌∷◌, ◌++◌,
  ltb, contains, if◌then◌else◌,
}
use dtp_discovery_agent.Collect.Result.{
  Observation, Error, Result, size, run_limit, start, add_error,
}

abbrev pub max_observations_per_run : ℕ
max_observations_per_run = 20000

abbrev pub max_observation_bytes_per_run : ℕ
max_observation_bytes_per_run = 128 * 2 ^ 20

pub record RunCap : Type 0 where
  pub max_count : ℕ
  pub max_bytes : ℕ
  pub count : ℕ
  pub bytes : ℕ
  pub full : Bool

-- (*runCap).error
limit_error : RunCap → String → String → Error
limit_error limit source what = record {
  collector = source;
  message = run_limit limit.max_count (limit.max_bytes / 2 ^ 20) what;
  location = "";
}

-- what the first refused observation leaves on the result
refuse : RunCap → Result → Result
unfolding limit_error
refuse limit r = if r.capped then r else record r {
  capped = true;
  completed = false;
  errors = r.errors ++ limit_error limit r.source "was not reported" ∷ [];
}

-- `observe` within a run
unfoldable pub observe_within : Observation → Result → RunCap → Bool × Result × RunCap
unfolding refuse size
observe_within o r limit =
    if limit.full
      || ltb limit.max_count (limit.count + 1)
      || ltb limit.max_bytes (limit.bytes + size o)
    then (false, refuse limit r, record limit { full = true })
    else (
      true,
      record r { observations = r.observations ++ o ∷ [] },
      record limit { count = limit.count + 1; bytes = limit.bytes + size o },
    )

-- `observe`: a collector that runs outside Run has no limit
unfoldable pub observe : Observation → Result → Option RunCap → Bool × Result × Option RunCap
unfolding observe_within
observe o r none = (true, record r { observations = r.observations ++ o ∷ [] }, none)
observe o r (some limit) =
    let (taken, r', limit') = observe_within o r limit in (taken, r', some limit')

-- A collector as Run uses it: Inform and Collect together take what the earlier ones found.
pub record Sweeper : Type 0 where
  pub source : String
  pub collect : List Result → RunCap → Result × RunCap

-- the result of a collector that is not run, since the run is full
not_run : RunCap → String → Result
unfolding limit_error
not_run limit source = record (start source) {
  completed = false;
  capped = true;
  errors = limit_error limit source "was not run" ∷ [];
}

-- one round of runWithin
run_one : List String → Sweeper → List Result → RunCap → List Result × RunCap
unfolding not_run
run_one disabled c out limit =
    if contains disabled c.source
    then (out, limit)
    else if limit.full
    then (out ++ not_run limit c.source ∷ [], limit)
    else let (r, limit') = c.collect out limit in (out ++ r ∷ [], limit')

pub run_within : List String → List Sweeper → List Result → RunCap → List Result × RunCap
unfolding run_one
run_within disabled [] out limit = (out, limit)
run_within disabled (c ∷ cs) out limit =
    let (out', limit') = run_one disabled c out limit in run_within disabled cs out' limit'

abbrev pub fresh_cap : RunCap
fresh_cap = record {
  max_count = max_observations_per_run;
  max_bytes = max_observation_bytes_per_run;
  count = 0;
  bytes = 0;
  full = false;
}

-- Run, given the collectors that All makes
pub run : List String → List Sweeper → List Result
unfolding run_within
run disabled collectors = (run_within disabled collectors [] fresh_cap).0

pub reached_run_limit : List Result → Bool
reached_run_limit [] = false
reached_run_limit (r ∷ rs) = r.capped || reached_run_limit rs

-- Names, over the sources of All
abbrev pub names : List String
names = "file" ∷ "java_keystore" ∷ "os_store" ∷ "server_config" ∷ "listener" ∷ []

-- ValidateDisabled; the error is the first unknown source
pub validate_disabled : List String → Option String
validate_disabled [] = none
validate_disabled (name ∷ rest) = if contains names name then validate_disabled rest else some name
