-- ===== src/Service/Loop/Traces.antt =====
-- The pace of the schedule: what the trace of Loop.Run says of waits, enrolment and failures.
use dtp_discovery_agent.Common.{
  ℕ, ◌+◌, ◌≤◌, ◌<◌, max, ◌≡◌, refl, ap, inl, inr, Bool, true, false, not, ◌&&◌, some, List, [], ◌∷◌,
  arith, leb, if◌then◌else◌, Bool-cases, All,
}
use dtp_discovery_agent.Service.Loop.{
  Loop, Round, answers, Event, slept, worked, Pace, draw_below, jitter_of, next_pace, after_work,
  turn, turns, run_loop,
}

-- Every run of work comes at least `gap` after the one before it; `e` has passed since that one.
abbrev pub IsPaced : ℕ → ℕ → List Event → Type 0
IsPaced gap e [] = Unit
IsPaced gap e (slept d ∷ t) = IsPaced gap (e + d) t
IsPaced gap e (worked b ∷ t) = (gap ≤ e) × IsPaced gap 0 t
IsPaced gap e (x ∷ t) = IsPaced gap e t

-- Every wait is at most `m`.
abbrev pub IsWithinWait : ℕ → Event → Type 0
IsWithinWait m (slept d) = d ≤ m
IsWithinWait m e = Unit

-- The outcomes of the work done, and the turns up to the one in which the context ends.
abbrev pub works : List Event → List Bool
works [] = []
works (worked b ∷ t) = b ∷ works t
works (x ∷ t) = works t

abbrev pub expected : List Round → List Bool
expected [] = []
expected (answers cancelled enrolled failed ended ∷ rs) =
    let rest = expected rs in
    if cancelled
    then []
    else if not enrolled
    then rest
    else if failed && ended
    then true ∷ []
    else failed ∷ rest

turns-IsPaced :
    (l : Loop) (e : ℕ) (p : Pace) (rs : List Round)
    → l.interval ≤ e + p.wait
    → IsPaced (l.interval) e (turns l p rs)
unfolding turns turn after_work next_pace
turns-IsPaced l e p [] h = tt
turns-IsPaced l e p (answers true en f k ∷ rs) h = tt
turns-IsPaced l e p (answers false false f k ∷ rs) h =
    turns-IsPaced l (e + p.wait) (record { wait = l.enroll_poll; drawn = p.drawn }) rs (omega arith)
turns-IsPaced l e p (answers false true false k ∷ rs) h =
    (h, turns-IsPaced l 0 (next_pace l (p.drawn)) rs (omega arith))
turns-IsPaced l e p (answers false true true false ∷ rs) h =
    (h, turns-IsPaced l 0 (next_pace l (p.drawn)) rs (omega arith))
turns-IsPaced l e p (answers false true true true ∷ rs) h = (h, tt)

-- On any answers of the world, two runs of work in the trace of Loop.Run are at least the interval
-- apart, however often the agent was unenrolled and enrolled between them.
pub run_loop-IsPaced :
    (l : Loop) (already : Bool) (rounds : List Round)
    → IsPaced (l.interval) (l.interval) (run_loop l already rounds)
unfolding run_loop
run_loop-IsPaced l true rounds =
    turns-IsPaced l (l.interval) (record { wait = l.first_delay + jitter_of l 0; drawn = 1 }) rounds
      (omega arith)
run_loop-IsPaced l false rounds =
    turns-IsPaced l (l.interval) (record { wait = 0; drawn = 0 }) rounds (omega arith)

works-turns : (l : Loop) (p : Pace) (rs : List Round) → works (turns l p rs) ≡ expected rs
unfolding turns turn after_work
works-turns l p [] = refl
works-turns l p (answers true en f k ∷ rs) = refl
works-turns l p (answers false false f k ∷ rs) =
    works-turns l (record { wait = l.enroll_poll; drawn = p.drawn }) rs
works-turns l p (answers false true false k ∷ rs) =
    ap (λ t. false ∷ t) (works-turns l (next_pace l (p.drawn)) rs)
works-turns l p (answers false true true false ∷ rs) =
    ap (λ t. true ∷ t) (works-turns l (next_pace l (p.drawn)) rs)
works-turns l p (answers false true true true ∷ rs) = refl

-- The work that Loop.Run does is that of exactly the turns in which the agent is enrolled, up to
-- the turn in which the context ends: a failure of the work never ends the schedule.
pub works-run_loop :
    (l : Loop) (already : Bool) (rounds : List Round)
    → works (run_loop l already rounds) ≡ expected rounds
unfolding run_loop
works-run_loop l true rounds =
    works-turns l (record { wait = l.first_delay + jitter_of l 0; drawn = 1 }) rounds
works-run_loop l false rounds = works-turns l (record { wait = 0; drawn = 0 }) rounds

-- The longest wait the loop's fields allow.
abbrev pub longest : Loop → ℕ
longest l = max (l.enroll_poll) (max (l.interval) (l.first_delay) + l.jitter)

module _ (draw : ℕ → ℕ → ℕ) (draw_bound : (i n : ℕ) → 0 < n → draw i n < n) where
  draw_below_bound : (n i : ℕ) → draw_below (some draw) n i ≤ n
  unfolding draw_below
  draw_below_bound n i = elim (Bool-cases (leb n 0)) [
    | inl e ↦ rw e (omega arith)
    | inr e ↦ rw e (omega (arith, draw_bound i n (ground arith)))
  ]

  module _ (a b c d : ℕ) where
    abbrev pub drawn_loop : Loop
    drawn_loop = record {
      interval = a;
      jitter = b;
      first_delay = c;
      enroll_poll = d;
      rand = some draw;
    }

    next_pace_bound : (i : ℕ) → (next_pace drawn_loop i).wait ≤ longest drawn_loop
    unfolding next_pace jitter_of
    next_pace_bound i = omega (arith, draw_below_bound b i)

    turns-IsWithinWait :
        (p : Pace) (rs : List Round)
        → p.wait ≤ longest drawn_loop
        → All (IsWithinWait (longest drawn_loop)) (turns drawn_loop p rs)
    unfolding turns turn after_work next_pace jitter_of
    turns-IsWithinWait p [] h = tt
    turns-IsWithinWait p (answers true en f k ∷ rs) h = (tt, tt)
    turns-IsWithinWait p (answers false false f k ∷ rs) h =
        (h, (tt, turns-IsWithinWait (record { wait = d; drawn = p.drawn }) rs (omega arith)))
    turns-IsWithinWait p (answers false true false k ∷ rs) h = (
      h,
      (
        tt,
        (tt, turns-IsWithinWait (next_pace drawn_loop (p.drawn)) rs (next_pace_bound (p.drawn))),
      ),
    )
    turns-IsWithinWait p (answers false true true false ∷ rs) h = (
      h,
      (
        tt,
        (
          tt,
          (tt, turns-IsWithinWait (next_pace drawn_loop (p.drawn)) rs (next_pace_bound (p.drawn))),
        ),
      ),
    )
    turns-IsWithinWait p (answers false true true true ∷ rs) h = (h, (tt, (tt, tt)))

    -- With a generator whose numbers stay below their bound, no wait in the trace of Loop.Run is
    -- longer than the enrolment poll or the interval or first delay with the full jitter.
    pub run_loop-IsWithinWait :
        (already : Bool) (rounds : List Round)
        → All (IsWithinWait (longest drawn_loop)) (run_loop drawn_loop already rounds)
    unfolding run_loop jitter_of
    run_loop-IsWithinWait true rounds =
        (tt, turns-IsWithinWait _ rounds (omega (arith, draw_below_bound b 0)))
    run_loop-IsWithinWait false rounds = turns-IsWithinWait _ rounds (omega arith)
