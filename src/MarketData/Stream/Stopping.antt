-- ===== src/MarketData/Stream/Stopping.antt =====
-- engine/marketdata/stream.py: what `run` still does once `stop` was called.
use capital.Prelude.{◌+◌, ◌≤◌, ◌≡◌, false}
use capital.Json.{Json}
use capital.MarketData.Stream.{Phase, connecting, consuming, sleeping, finished, Stream}

-- How far `run` may have come since it was stopped, by where it stands.
abbrev pub Allowed : Phase → Stream → Stream → Type 0
Allowed connecting s t = (t.connects ≡ s.connects) × (t.handled ≡ s.handled)
Allowed sleeping s t = (t.connects ≡ s.connects) × (t.handled ≡ s.handled)
Allowed consuming s t = (t.connects ≤ s.connects + 1) × (t.handled ≡ s.handled)
Allowed finished s t = (t.connects ≤ s.connects + 1) × (t.handled ≤ s.handled + 1)

record IsHalting (s t : Stream) : Type 0 where
  off : t.running ≡ false
  so_far : Allowed t.phase s t
