-- ===== src/Agent/Main/Reports.antt =====
-- Theorems on `main` of gocode/cmd/aioagent/main.go as a whole.
use cramc.Prelude.{List}
use mathlib.Core.List.{Memᴰ}
use mathlib.Core.List.Memᴰ
use cramc.Disk.{Disk}
use cramc.Agent.Main.{Ended, dispatches}
use cramc.Pipeline.{Sent}

-- The program gets to the dispatch, and this is to be sent.
abbrev pub Sends : Sent → Ended → Type 0
Sends s (dispatches sends) = Memᴰ s sends
Sends s _ = ⊥
