-- ===== src/Service/Log.antt =====
-- The agent's log file (internal/service/log.go): repeats of a line are collapsed, and the file
-- is rotated at a cap. Times are nanoseconds since Go's zero time. What the operating system
-- answers to one call is an Os; `size` is the number of bytes that a line takes in the file.
use dtp_discovery_agent.Common.{
  ℕ, ℤ, zero, suc, ◌+◌, ◌-◌, ◌*◌, ◌≤◌, ◌<◌, min, max, String, ◌≡◌, refl, sym, ap, ◌∙◌, ◌≢◌, ◌↔◌,
  ◌⊎◌, inl, inr, Bool, true, false, not, ◌&&◌, ◌||◌, Option, none, some, List, [], ◌∷◌, ◌++◌, map,
  append-nil, append_assoc, map-append, arith, str_eq, eq_iff, eq_refl, ltb, leb, ◌==◌,
  if◌then◌else◌, contains, Bool-cases, Option-cases, Sum-cases, length, take, drop, All, All-append,
  length-append, ◌/◌, ◌%◌, ◌^◌,
}
mod Repeats
mod Cap
mod Examples

-- DefaultLogBytes and DefaultRepeatWindow
abbrev pub default_log_bytes : ℕ
default_log_bytes = 1048576

abbrev pub default_repeat_window : ℕ
default_repeat_window = 1800 * 1000000000

-- A line with the number of those it stands for, or the line that Close writes.
pub data Line : Type 0 where
  said : (at : ℕ) (message : String) (more : ℕ) → Line
  happened : (at : ℕ) (more : ℕ) → Line

-- The whole lines of a file, and all its bytes, those of a line written in part included.
pub record File : Type 0 where
  lines : List Line
  bytes : ℕ

-- Whether Remove, Rename and OpenFile succeed, and the bytes written if WriteString fails.
pub record Os : Type 0 where
  removes : Bool
  renames : Bool
  opens : Bool
  cut_after : Option ℕ

-- One call of Printf: the system's answers, the clock and the formatted message.
pub record Call : Type 0 where
  os : Os
  now : ℕ
  message : String

-- The Log and the two files; `f` is whether the file is open, `n` what the Log takes its size for.
pub record Log : Type 0 where
  current : Option File
  old : Option File
  max_bytes : ℕ
  f : Bool
  n : ℕ
  repeat_window : ℤ
  last : String
  last_at : ℕ
  suppressed : ℕ

abbrev pub file_size : Option File → ℕ
file_size none = 0
file_size (some c) = c.bytes

-- rotate and open, with whether they end without an error
unfoldable pub rename : Os → Log → Bool × Log
rename os l = elim (l.current) [
  | none ↦ (true, l)
  | some c ↦ if os.renames then (true, record l { current = none; old = some c }) else (false, l)
]

unfoldable pub rotate : Os → Log → Bool × Log
rotate os l =
    if os.removes
    then rename os (record l { f = false; old = none })
    else (false, record l { f = false })

abbrev pub contents : Option File → File
contents none = record { lines = []; bytes = 0 }
contents (some c) = c

unfoldable pub open_file : Os → Log → Bool × Log
open_file os l =
    if os.opens
    then (
      true,
      record l {
        current = some (contents (l.current));
        f = true;
        n = (contents (l.current)).bytes;
      },
    )
    else (false, l)

unfoldable pub open_after : Os → Bool × Log → Bool × Log
open_after os (true, l) = open_file os l
open_after os (false, l) = (false, l)

abbrev pub on_file : (File → File) → Option File → Option File
on_file g none = none
on_file g (some c) = some (g c)

abbrev pub is_full : Log → Option File → Bool
is_full l none = false
is_full l (some c) = leb (l.max_bytes) (c.bytes)

unfoldable pub open_log_file : Os → Log → Bool × Log
open_log_file os l = if is_full l (l.current) then open_after os (rotate os l) else open_file os l

-- OpenLog on the files it finds; none for an error
unfoldable pub open_log : Os → (current old : Option File) → ℤ → Option Log
open_log os current old max_bytes =
    let (ok, l) = open_log_file os (record {
      current = current;
      old = old;
      max_bytes = elim max_bytes [ ℤ.pos (suc m) ↦ suc m | _ ↦ default_log_bytes ];
      f = false;
      n = 0;
      repeat_window = ℤ.pos default_repeat_window;
      last = "";
      last_at = 0;
      suppressed = 0;
    }) in
    if ok then some l else none

abbrev pub window : ℤ → ℕ
window (ℤ.pos zero) = default_repeat_window
window (ℤ.pos (suc w)) = suc w
window (ℤ.negsuc w) = 0

abbrev pub collapses : ℤ → Bool
collapses (ℤ.pos w) = true
collapses (ℤ.negsuc w) = false

-- the test of Printf: now - last_at < window, where the clock may have gone back
unfoldable pub repeats : Log → ℕ → String → Bool
repeats l now message =
    collapses (l.repeat_window)
    && (str_eq message (l.last) && ltb now (l.last_at + window (l.repeat_window)))

module _ (size : Line → ℕ) where
  abbrev pub append_line : Option ℕ → Line → File → File
  append_line none line c = record { lines = c.lines ++ line ∷ []; bytes = c.bytes + size line }
  append_line (some k) line c = record { lines = c.lines; bytes = c.bytes + k }

  abbrev pub written_bytes : Option ℕ → Line → ℕ
  written_bytes none line = size line
  written_bytes (some k) line = k

  unfoldable pub reopen : Os → Bool × Log → Log
  reopen os (true, l) = (open_log_file os l).1
  reopen os (false, l) = l

  unfoldable pub after_write : Os → Log → Log
  after_write os l = if leb (l.max_bytes) (l.n) then (reopen os (rotate os l)) else l

  unfoldable pub write_locked : Os → Line → Log → Log
  write_locked os line l =
      if not (l.f)
      then l
      else let l' = record l {
        current = on_file (append_line (os.cut_after) line) (l.current);
        n = l.n + written_bytes (os.cut_after) line;
      } in
        elim (os.cut_after) [ none ↦ after_write os l' | some k ↦ l' ]

  -- Printf, and the line it hands to writeLocked, if any
  unfoldable pub printf : Os → ℕ → String → Log → Log × Option Line
  printf os now message l =
      if repeats l now message then (record l { suppressed = suc (l.suppressed) }, none) else (
        write_locked os (said now message (l.suppressed))
            (record l { last = message; last_at = now; suppressed = 0 }),
        some (said now message (l.suppressed)),
      )

  -- Close, and the line it hands to writeLocked, if any
  unfoldable pub close : Os → ℕ → Log → Log × Option Line
  close os now l =
      if ltb 0 (l.suppressed) && l.f
      then (
        record (write_locked os (happened now (l.suppressed)) (record l { suppressed = 0 })) {
          f = false;
        },
        some (happened now (l.suppressed)),
      )
      else (record l { f = false }, none)

  abbrev pub add_line : Option Line → List Line → List Line
  add_line none lines = lines
  add_line (some x) lines = x ∷ lines

  -- a run of Printf calls, and the lines they hand to writeLocked, in order
  unfoldable pub print_all : List Call → Log → Log × List Line
  print_all [] l = (l, [])
  print_all (c ∷ cs) l =
      let (l', line) = printf (c.os) (c.now) (c.message) l in
      let (l'', lines) = print_all cs l' in (l'', add_line line lines)
