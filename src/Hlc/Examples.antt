-- ===== src/Hlc/Examples.antt =====
-- Runs of the clock, among them the source's own test, and the theorems at concrete inputs.
use exokephalos.Prelude.{◌≡◌, refl, List, [], ◌∷◌, arith}
use exokephalos.Prelude.Text.{text}
use exokephalos.Hlc.{Hlc, HlcClock, u32_max, new, from_timestamp, timestamp, next, observe}
use exokephalos.Hlc.Clock.{ClockEvent, tick, receive, issued, Ascends, issued-Ascends}

abbrev remote : Hlc
remote = record { physical_ms = 200; logical = 4; actor_id = text "b" }

abbrev started : HlcClock
started = record { physical_ms = 100; logical = 1; actor_id = text "a" }

started_run : (next (next (new (text "a")) 100).0 90).0 ≡ started
unfolding next new
started_run = refl

observed :
    (observe started remote 150).1 ≡ record { physical_ms = 200; logical = 5; actor_id = text "a" }
unfolding observe
observed = refl

-- At the largest counter the clock repeats a timestamp.
abbrev full : HlcClock
full = record { physical_ms = 100; logical = u32_max; actor_id = text "a" }

repeats : (next full 50).1 ≡ timestamp full
unfolding next
repeats = refl

resumed : timestamp (from_timestamp remote) ≡ remote
unfolding timestamp from_timestamp
resumed = refl

abbrev events : List ClockEvent
events = tick 90 ∷ receive remote 150 ∷ tick 120 ∷ []

issued-Ascends_example : Ascends (timestamp started) (issued started events)
issued-Ascends_example = issued-Ascends started events (omega arith) (omega arith)
