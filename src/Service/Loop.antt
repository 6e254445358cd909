-- ===== src/Service/Loop.antt =====
-- The schedule that the agent keeps where the platform keeps none (internal/service/loop.go).
-- Durations are nanoseconds and not negative. What the world answers in one turn of the loop
-- is a Round; a run over a list of rounds is the trace of what the loop did in them.
use dtp_discovery_agent.Common.{
  ℕ, zero, suc, ◌+◌, ◌-◌, ◌*◌, ◌≤◌, ◌<◌, min, max, String, ◌≡◌, refl, sym, ap, ◌∙◌, ◌≢◌, ◌↔◌, ◌⊎◌,
  inl, inr, Bool, true, false, not, ◌&&◌, ◌||◌, Option, none, some, List, [], ◌∷◌, ◌++◌, map,
  append-nil, append_assoc, map-append, arith, str_eq, eq_iff, eq_refl, ltb, leb, ◌==◌,
  if◌then◌else◌, contains, Bool-cases, Option-cases, Sum-cases, length, take, drop, All, All-append,
  length-append, ◌/◌, ◌%◌, ◌^◌,
}
mod Traces
mod Examples

abbrev pub second : ℕ
second = 1000000000

-- DefaultInterval, DefaultJitter, DefaultFirstDelay and DefaultEnrollPoll
abbrev pub default_interval : ℕ
default_interval = 3600 * second

abbrev pub default_jitter : ℕ
default_jitter = 900 * second

abbrev pub default_first_delay : ℕ
default_first_delay = 300 * second

abbrev pub default_enroll_poll : ℕ
default_enroll_poll = 60 * second

-- The field rand is the generator's Int63n: the number of the draw and the bound. It is none
-- for a nil Rand.
pub record Loop : Type 0 where
  interval : ℕ
  jitter : ℕ
  first_delay : ℕ
  enroll_poll : ℕ
  rand : Option (ℕ → ℕ → ℕ)

unfoldable pub new_loop : (ℕ → ℕ → ℕ) → Loop
new_loop draw = record {
  interval = default_interval;
  jitter = default_jitter;
  first_delay = default_first_delay;
  enroll_poll = default_enroll_poll;
  rand = some draw;
}

-- One turn: whether the context ends while the loop sleeps, what enrolled() answers, whether
-- work returns an error, and whether the context has ended by then.
pub data Round : Type 0 where
  answers : (cancelled enrolled failed ended : Bool) → Round

pub data Event : Type 0 where
  first_scan : ℕ → Event
  slept : ℕ → Event
  not_enrolled : ℕ → Event
  worked : Bool → Event
  scan_failed : Event
  next_scan : ℕ → Event
  stopped : Event

-- The wait before the next turn, and how many numbers were drawn.
pub record Pace : Type 0 where
  wait : ℕ
  drawn : ℕ

unfoldable pub draw_below : Option (ℕ → ℕ → ℕ) → ℕ → ℕ → ℕ
draw_below none bound drawn = 0
draw_below (some draw) bound drawn = if leb bound 0 then 0 else draw drawn bound

unfoldable pub jitter_of : Loop → ℕ → ℕ
jitter_of l drawn = draw_below (l.rand) (l.jitter) drawn

unfoldable pub next_pace : Loop → ℕ → Pace
next_pace l drawn = record { wait = l.interval + jitter_of l drawn; drawn = suc drawn }

-- What a turn does, and the pace of the next one, if there is one.
unfoldable pub after_work : Loop → ℕ → (failed ended : Bool) → List Event × Option Pace
after_work l drawn failed ended =
    let next = next_pace l drawn in
    if failed && ended
    then (worked true ∷ stopped ∷ [], none)
    else if failed
    then (worked true ∷ scan_failed ∷ next_scan (next.wait) ∷ [], some next)
    else (worked false ∷ next_scan (next.wait) ∷ [], some next)

unfoldable pub turn : Loop → Pace → Round → List Event × Option Pace
turn l p (answers cancelled enrolled failed ended) =
    if cancelled
    then (stopped ∷ [], none)
    else if not enrolled
    then (
      slept (p.wait) ∷ not_enrolled (l.enroll_poll) ∷ [],
      some (record { wait = l.enroll_poll; drawn = p.drawn }),
    )
    else let (events, next) = after_work l (p.drawn) failed ended in (slept (p.wait) ∷ events, next)

unfoldable pub turns : Loop → Pace → List Round → List Event
turns l p [] = []
turns l p (r ∷ rs) = (turn l p r).0 ++ elim ((turn l p r).1) [ none ↦ [] | some q ↦ turns l q rs ]

-- Loop.Run, given what enrolled() answers when the service starts.
unfoldable pub run_loop : Loop → Bool → List Round → List Event
run_loop l already rounds =
    if already
    then first_scan (l.first_delay + jitter_of l 0)
      ∷ turns l (record { wait = l.first_delay + jitter_of l 0; drawn = 1 }) rounds
    else turns l (record { wait = 0; drawn = 0 }) rounds
