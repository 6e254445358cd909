-- ===== src/Service/Loop/Examples.antt =====
-- The schedule on a few turns, with the shipped cadence.
use dtp_discovery_agent.Common.{
  ℕ, ◌<◌, ◌≡◌, refl, true, false, List, [], ◌∷◌, arith, ltb, if◌then◌else◌, All,
}
use dtp_discovery_agent.Service.Loop.{
  Round, answers, new_loop, run_loop, turns, turn, after_work, default_interval, default_jitter,
  default_first_delay, default_enroll_poll,
}
use dtp_discovery_agent.Service.Loop.Traces.{
  IsPaced, IsWithinWait, works, expected, longest, run_loop-IsPaced, works-run_loop,
  run_loop-IsWithinWait,
}

-- a generator that always answers 7, or 0 below 8
abbrev seven : ℕ → ℕ → ℕ
seven i n = if ltb 7 n then 7 else 0

seven_bound : (i n : ℕ) → 0 < n → seven i n < n
seven_bound i n h = ground arith

-- enrolled, a failed scan, not enrolled, a scan, and the service stops in a scan
abbrev day : List Round
day =
    answers false true false false
    ∷ answers false true true false
    ∷ answers false false false false
    ∷ answers false true false false
    ∷ answers false true true true
    ∷ answers false true false false
    ∷ []

four_scans : works (run_loop (new_loop seven) true day) ≡ false ∷ true ∷ false ∷ true ∷ []
unfolding run_loop turns turn after_work
four_scans = refl

run_loop-IsPaced_example :
    IsPaced default_interval default_interval (run_loop (new_loop seven) true day)
unfolding new_loop
run_loop-IsPaced_example = run_loop-IsPaced (new_loop seven) true day

works-run_loop_example : works (run_loop (new_loop seven) false day) ≡ expected day
works-run_loop_example = works-run_loop (new_loop seven) false day

run_loop-IsWithinWait_example :
    All (IsWithinWait (longest (new_loop seven))) (run_loop (new_loop seven) true day)
unfolding new_loop
run_loop-IsWithinWait_example =
    run_loop-IsWithinWait seven seven_bound default_interval default_jitter default_first_delay
      default_enroll_poll true day
