-- ===== src/Service/Log/Repeats.antt =====
-- Collapsing loses nothing: what Printf was given can be read back from the lines.
use dtp_discovery_agent.Common.{
  ℕ, zero, suc, String, ◌≡◌, refl, sym, ap, ◌∙◌, inl, inr, Bool, true, false, none, some, List, [],
  ◌∷◌, ◌++◌, append-nil, append_assoc, arith, eq_iff, leb, Bool-cases, Option-cases,
}
use dtp_discovery_agent.Service.Log.{
  Line, said, happened, Os, Log, Call, rename, rotate, open_file, open_after, open_log_file,
  is_full, repeats, after_write, reopen, write_locked, printf, print_all,
}

abbrev pub replicate : ℕ → String → List String
replicate zero x = []
replicate (suc n) x = x ∷ replicate n x

replicate-suc :
    (n : ℕ) (x : String) (ys : List String) → replicate (suc n) x ++ ys ≡ replicate n x ++ x ∷ ys
replicate-suc zero x ys = refl
replicate-suc (suc n) x ys = ap (λ t. x ∷ t) (replicate-suc n x ys)

-- The messages that lines stand for, where `prev` is the message written before them.
abbrev pub expand : String → List Line → List String
expand prev [] = []
expand prev (said at message more ∷ ls) = replicate more prev ++ message ∷ expand message ls
expand prev (happened at more ∷ ls) = replicate more prev ++ expand prev ls

-- What the system's answers leave alone.
abbrev IsKept : Log → Log → Type 0
IsKept l l' = (l'.last ≡ l.last) × (l'.suppressed ≡ l.suppressed)

rename-IsKept : (os : Os) (l : Log) → IsKept l ((rename os l).1)
unfolding rename
rename-IsKept os l = ground arith

rotate-IsKept : (os : Os) (l : Log) → IsKept l ((rotate os l).1)
unfolding rotate rename
rotate-IsKept os l = ground arith

open_file-IsKept : (os : Os) (l : Log) → IsKept l ((open_file os l).1)
unfolding open_file
open_file-IsKept os l = ground arith

open_after-IsKept : (os : Os) (r : Bool × Log) → IsKept (r.1) ((open_after os r).1)
unfolding open_after
open_after-IsKept os (true, l) = open_file-IsKept os l
open_after-IsKept os (false, l) = (refl, refl)

open_log_file-IsKept : (os : Os) (l : Log) → IsKept l ((open_log_file os l).1)
unfolding open_log_file
open_log_file-IsKept os l = elim (Bool-cases (is_full l (l.current))) [
  | inl e ↦
      let a = rotate-IsKept os l in
      let b = open_after-IsKept os (rotate os l) in rw e (b.0 ∙ a.0, b.1 ∙ a.1)
  | inr e ↦ rw e (open_file-IsKept os l)
]

module _ (size : Line → ℕ) where
  reopen-IsKept : (os : Os) (r : Bool × Log) → IsKept (r.1) (reopen size os r)
  unfolding reopen
  reopen-IsKept os (true, l) = open_log_file-IsKept os l
  reopen-IsKept os (false, l) = (refl, refl)

  after_write-IsKept : (os : Os) (l : Log) → IsKept l (after_write size os l)
  unfolding after_write
  after_write-IsKept os l = elim (Bool-cases (leb (l.max_bytes) (l.n))) [
    | inl e ↦
        let a = rotate-IsKept os l in
        let b = reopen-IsKept os (rotate os l) in rw e (b.0 ∙ a.0, b.1 ∙ a.1)
    | inr e ↦ rw e (refl, refl)
  ]

  write_locked-IsKept : (os : Os) (line : Line) (l : Log) → IsKept l (write_locked size os line l)
  unfolding write_locked
  write_locked-IsKept os line l = elim (Bool-cases (l.f)) [
    | inl e ↦ elim (Option-cases (os.cut_after)) [
      | inl h ↦ rw (e, h) (after_write-IsKept os _)
      | inr (k, h) ↦ rw (e, h) (refl, refl)
    ]
    | inr e ↦ rw e (refl, refl)
  ]

  -- what one Printf does: it counts a repeat, or hands over the line with the count so far
  data Printed (os : Os) (now : ℕ) (message : String) (l : Log) : Type 0 where
    counted :
        (l' : Log)
        → printf size os now message l ≡ (l', none)
        → message ≡ l.last
        → l'.last ≡ l.last
        → l'.suppressed ≡ suc (l.suppressed)
        → Printed os now message l
    wrote :
        (l' : Log)
        → printf size os now message l ≡ (l', some (said now message (l.suppressed)))
        → l'.last ≡ message
        → l'.suppressed ≡ 0
        → Printed os now message l

  printf-Printed : (os : Os) (now : ℕ) (message : String) (l : Log) → Printed os now message l
  unfolding printf repeats
  printf-Printed os now message l = elim (Bool-cases (repeats l now message)) [
    | inl e ↦ counted (record l { suppressed = suc (l.suppressed) }) (rw e refl) (same e) refl refl
    | inr e ↦
        let l' = record l { last = message; last_at = now; suppressed = 0 } in
        let kept = write_locked-IsKept os (said now message (l.suppressed)) l' in
        wrote (write_locked size os (said now message (l.suppressed)) l') (rw e refl) (kept.0)
          (kept.1)
  ]
    where
      same : repeats l now message ≡ true → message ≡ l.last
      same e = ground (arith, eq_iff message (l.last))

  abbrev pub messages : List Call → List String
  messages [] = []
  messages (c ∷ cs) = c.message ∷ messages cs

  fresh :
      {last message : String} {n : ℕ} (lines : List Line) (tail : List String) {ms : List String}
      → last ≡ message
      → n ≡ 0
      → expand last lines ++ tail ≡ replicate n last ++ ms
      → expand message lines ++ tail ≡ ms
  fresh lines tail a b h = cc

  -- The messages given to Printf can be read back: the lines that it hands to writeLocked,
  -- expanded with the repeats they stand for, and the repeats still counted, are the repeats
  -- counted before and all the messages of the calls, in order, whatever the system answers.
  pub expand-print_all :
      (cs : List Call) (l : Log)
      → expand (l.last) ((print_all size cs l).1)
          ++ replicate ((print_all size cs l).0.suppressed) ((print_all size cs l).0.last)
        ≡ replicate (l.suppressed) (l.last) ++ messages cs
  unfolding print_all
  expand-print_all [] l = sym (append-nil _)
  expand-print_all (c ∷ cs) l = elim (printf-Printed (c.os) (c.now) (c.message) l) [
    | counted l' e m a b ↦
        let ih = expand-print_all cs l' in
        let q = replicate-suc (l.suppressed) (l.last) (messages cs) in rw e cc
    | wrote l' e a b ↦
        let ih = expand-print_all cs l' in
        let q =
          append_assoc (replicate (l.suppressed) (l.last))
            (c.message ∷ expand (c.message) ((print_all size cs l').1))
            (replicate ((print_all size cs l').0.suppressed) ((print_all size cs l').0.last)) in
        rw e (
          q
          ∙ ap (λ t. replicate (l.suppressed) (l.last) ++ c.message ∷ t)
              (fresh ((print_all size cs l').1)
                (replicate ((print_all size cs l').0.suppressed) ((print_all size cs l').0.last)) a
                b ih))
  ]
