-- ===== src/Collect/Run/Sweep.antt =====
-- What a collector may do to its result and to the run's cap: record an observation through
-- `observe`, report an error, and give up its claim to be complete.
use dtp_discovery_agent.Common.{
  ℕ, ◌+◌, ◌≤◌, ◌≡◌, String, ◌⊎◌, true, false, ◌&&◌, List, [], ◌∷◌, ◌++◌, arith, length,
  length-append,
}
use dtp_discovery_agent.Collect.Result.{
  Observation, Error, Result, size, start, add_error, incomplete,
}
use dtp_discovery_agent.Collect.Run.{RunCap, Sweeper, observe_within}

pub data Sweep (r : Result) (limit : RunCap) : Result → RunCap → Type 0 where
  begin : Sweep r limit r limit
  see :
      {r' : Result} {limit' : RunCap}
      → Sweep r limit r' limit'
      → (o : Observation)
      → Sweep r limit (observe_within o r' limit').1 (observe_within o r' limit').2
  say :
      {r' : Result} {limit' : RunCap}
      → Sweep r limit r' limit'
      → (e : Error) → Sweep r limit (add_error e r') limit'
  give_up :
      {r' : Result} {limit' : RunCap}
      → Sweep r limit r' limit'
      → Sweep r limit (incomplete r') limit'

-- A collector that keeps to that.
abbrev pub IsSweeping : Sweeper → Type 0
IsSweeping c =
    (earlier : List Result) (limit : RunCap)
    → Sweep (start c.source) limit (c.collect earlier limit).0 (c.collect earlier limit).1

unfoldable pub total_size : List Observation → ℕ
total_size [] = 0
total_size (o ∷ os) = size o + total_size os

pub total_size-append :
    (xs ys : List Observation) → total_size (xs ++ ys) ≡ total_size xs + total_size ys
unfolding total_size
total_size-append [] ys = omega arith
total_size-append (x ∷ xs) ys = omega (arith, total_size-append xs ys)

-- What a sweep has made of result and cap, whatever it did: the cap counts what the result holds,
-- stays within its limits, and a refusal is never silent.
pub record IsCounted (source : String) (limit : RunCap) (r : Result) (limit' : RunCap)
    : Type 0 where
  pub named : r.source ≡ source
  pub counted : limit'.count ≡ limit.count + length r.observations
  pub weighed : limit'.bytes ≡ limit.bytes + total_size r.observations
  pub same_count : limit'.max_count ≡ limit.max_count
  pub same_bytes : limit'.max_bytes ≡ limit.max_bytes
  pub within_count : limit'.count ≤ limit'.max_count
  pub within_bytes : limit'.bytes ≤ limit'.max_bytes
  pub honest : (r.capped && r.completed) ≡ false
  pub told : limit'.full ≡ true → (limit.full ≡ true) ⊎ (r.capped ≡ true)

observe_within-IsCounted :
    (source : String) (limit : RunCap) (o : Observation) (r : Result) (l : RunCap)
    → IsCounted source limit r l
    → IsCounted source limit (observe_within o r l).1 (observe_within o r l).2
unfolding observe_within total_size
observe_within-IsCounted source limit o r l h =
    ground (arith, length-append r.observations (o ∷ []), total_size-append r.observations (o ∷ []))

pub Sweep-IsCounted :
    (source : String) {limit : RunCap} {r : Result} {limit' : RunCap}
    → limit.count ≤ limit.max_count
    → limit.bytes ≤ limit.max_bytes
    → Sweep (start source) limit r limit'
    → IsCounted source limit r limit'
unfolding total_size
Sweep-IsCounted source hc hb begin = ground arith
Sweep-IsCounted source {limit = limit} hc hb (see {r' = r'} {limit' = l} s o) =
    observe_within-IsCounted source limit o r' l (Sweep-IsCounted source hc hb s)
Sweep-IsCounted source hc hb (say s e) = ground (arith, Sweep-IsCounted source hc hb s)
Sweep-IsCounted source hc hb (give_up s) = ground (arith, Sweep-IsCounted source hc hb s)
