-- ===== src/Service/Log/Cap.antt =====
-- The bound on the log's two files, while the operating system does what is asked.
use dtp_discovery_agent.Common.{ℕ, ◌+◌, ◌≤◌, ◌<◌, ◌≡◌, true, none, some}
use dtp_discovery_agent.Service.Log.{Line, File, Os, Log, Call, file_size}

abbrev pub healthy : Os
healthy = record { removes = true; renames = true; opens = true; cut_after = none }

-- The file is open, its size is known and below the cap, and the one before it is at most one
-- line of `k` bytes above the cap.
abbrev pub IsCapped : ℕ → Log → Type 0
IsCapped k l =
    (l.f ≡ true)
    × ((l.n ≡ file_size (l.current))
        × ((file_size (l.current) < l.max_bytes)
            × ((file_size (l.old) < l.max_bytes + k) × ((c : File) × (l.current ≡ some c)))))

module _ (size : Line → ℕ) (k : ℕ) where
  abbrev pub IsShort : Line → Type 0
  IsShort line = size line ≤ k

  abbrev pub IsHealthy : Call → Type 0
  IsHealthy c = c.os ≡ healthy
