-- ===== src/Service/Log/Examples.antt =====
-- The log on a few calls.
use dtp_discovery_agent.Common.{
  ℕ, ℤ, ◌+◌, ◌≡◌, refl, true, none, some, List, [], ◌∷◌, ◌++◌, length, Option,
}
use dtp_discovery_agent.Common.Text.{runes}
use dtp_discovery_agent.Service.Log.{
  Line, said, happened, Log, default_repeat_window, Call, print_all, repeats, printf, write_locked,
  after_write,
}
use dtp_discovery_agent.Service.Log.Repeats.{replicate, expand, messages, expand-print_all}
use dtp_discovery_agent.Service.Log.Cap.{healthy}

-- every line takes sixty bytes
abbrev sixty : Line → ℕ
sixty line = 60

abbrev opened : Log
opened = record {
  current = some (record { lines = []; bytes = 0 });
  old = none;
  max_bytes = 150;
  f = true;
  n = 0;
  repeat_window = ℤ.pos 1800;
  last = "";
  last_at = 0;
  suppressed = 0;
}

abbrev polls : List Call
polls =
    record { os = healthy; now = 5000; message = "not enrolled" }
    ∷ record { os = healthy; now = 5060; message = "not enrolled" }
    ∷ record { os = healthy; now = 5120; message = "not enrolled" }
    ∷ record { os = healthy; now = 5180; message = "reported" }
    ∷ []

two_lines :
    (print_all sixty polls opened).1 ≡ said 5000 "not enrolled" 0 ∷ said 5180 "reported" 2 ∷ []
unfolding print_all printf repeats write_locked after_write
two_lines = refl

expand-print_all_example :
    expand "" ((print_all sixty polls opened).1)
      ++ replicate
          ((print_all sixty polls opened).0.suppressed)
          ((print_all sixty polls opened).0.last)
    ≡ messages sixty polls
expand-print_all_example = expand-print_all sixty polls opened

-- a line of the message, its time and a note of what it stands for
abbrev line_size : Line → ℕ
line_size (said at message more) = length (runes message) + 40
line_size (happened at more) = 80

abbrev begun : Log
begun = record opened { repeat_window = ℤ.pos default_repeat_window }

abbrev or_begun : Option Log → Log
or_begun none = begun
or_begun (some l) = l
