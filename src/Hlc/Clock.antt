-- ===== src/Hlc/Clock.antt =====
-- `next` and `observe` of hlc.rs, one by one and in sequence.
use Prim.Native.Nat.Ordering.{lt}
use exokephalos.Prelude.{
  ℕ, suc, ◌+◌, ◌≤◌, ◌<◌, max, ◌≡◌, refl, subst, ◌↔◌, ◌⊎◌, inr, List, [], ◌∷◌, arith, length,
}
use exokephalos.Prelude.Text.{text_ord}
use exokephalos.Hlc.{Hlc, HlcClock, compare_hlc, u32_max, timestamp, next, observe}

-- The logical counter fits its `u32`.
pub record IsValid (c : HlcClock) : Type 0 where
  pub counter : c.logical ≤ u32_max

-- A local event gets a later timestamp than all before it, exactly unless the wall clock does not
-- run ahead and the counter is already at its largest value.
pub next_advances :
    (c : HlcClock) (wall_clock_ms : ℕ)
    → IsValid c
    → (compare_hlc (timestamp c) (next c wall_clock_ms).1 ≡ lt)
      ↔ ((c.physical_ms < wall_clock_ms) ⊎ (c.logical < u32_max))
unfolding next compare_hlc
next_advances c wall_clock_ms v = ground (arith, text_ord.order_self c.actor_id, v.counter)

-- A timestamp issued on receipt of a remote one is later than the local clock and than the remote
-- timestamp, if neither counter is at its largest value; its time is the latest of the three.
pub observe_advances :
    (c : HlcClock) (remote : Hlc) (wall_clock_ms : ℕ)
    → c.logical < u32_max
    → remote.logical < u32_max
    → (compare_hlc (timestamp c) (observe c remote wall_clock_ms).1 ≡ lt)
      × (compare_hlc remote (observe c remote wall_clock_ms).1 ≡ lt)
      × ((observe c remote wall_clock_ms).1.physical_ms
          ≡ max (max wall_clock_ms c.physical_ms) remote.physical_ms)
unfolding observe compare_hlc
observe_advances c remote wall_clock_ms h k = (ground arith, ground arith, refl)

-- What happens to a clock: a local event, or the receipt of a timestamp.
pub data ClockEvent : Type 0 where
  tick : ℕ → ClockEvent
  receive : Hlc → ℕ → ClockEvent

abbrev pub step : HlcClock → ClockEvent → HlcClock × Hlc
step c (tick wall) = next c wall
step c (receive remote wall) = observe c remote wall

-- The timestamps that a clock issues over a sequence of events.
abbrev pub issued : HlcClock → List ClockEvent → List Hlc
issued c [] = []
issued c (e ∷ es) = (step c e).1 ∷ issued (step c e).0 es

-- Each timestamp of the list is later than the one before it, the first later than `t`.
abbrev pub Ascends : Hlc → List Hlc → Type 0
Ascends t [] = Unit
Ascends t (u ∷ us) = (compare_hlc t u ≡ lt) × Ascends u us

-- Every received counter leaves room for `n` more events.
abbrev pub HasRoom : ℕ → List ClockEvent → Type 0
HasRoom n [] = Unit
HasRoom n (tick wall ∷ es) = HasRoom n es
HasRoom n (receive remote wall ∷ es) = (remote.logical + n ≤ u32_max) × HasRoom n es

step_counter :
    (c : HlcClock) (wall : ℕ)
    → c.logical < u32_max
    → ((next c wall).0.logical ≤ c.logical + 1) × (timestamp (next c wall).0 ≡ (next c wall).1)
unfolding next
step_counter c wall h = (ground arith, refl)

observe_counter :
    (c : HlcClock) (remote : Hlc) (wall : ℕ)
    → ((observe c remote wall).0.logical ≤ max c.logical remote.logical + 1)
      × (timestamp (observe c remote wall).0 ≡ (observe c remote wall).1)
unfolding observe
observe_counter c remote wall = (ground arith, refl)

HasRoom-mono : (m n : ℕ) (es : List ClockEvent) → m ≤ n → HasRoom n es → HasRoom m es
HasRoom-mono m n [] h r = tt
HasRoom-mono m n (tick wall ∷ es) h r = HasRoom-mono m n es h r
HasRoom-mono m n (receive remote wall ∷ es) h r = (omega arith, HasRoom-mono m n es h r.1)

-- Over any sequence of local events and received timestamps, however the wall clock jumps, a clock
-- issues ascending timestamps, while its counter and the received ones leave room for the events.
pub issued-Ascends :
    (c : HlcClock) (events : List ClockEvent)
    → c.logical + length events ≤ u32_max
    → HasRoom (length events) events
    → Ascends (timestamp c) (issued c events)
issued-Ascends c [] h r = tt
issued-Ascends c (tick wall ∷ es) h r =
    let (small, same) = step_counter c wall (omega arith) in
    (
      (next_advances c wall (record { counter = omega arith })).1 (inr (omega arith)),
      subst (λ t. Ascends t (issued (next c wall).0 es)) same
          (issued-Ascends (next c wall).0 es (omega arith)
            (HasRoom-mono (length es) (suc (length es)) es (omega arith) r)),
    )
issued-Ascends c (receive remote wall ∷ es) h r =
    let (small, same) = observe_counter c remote wall in
    (
      (observe_advances c remote wall (omega arith) (omega arith)).0,
      subst (λ t. Ascends t (issued (observe c remote wall).0 es)) same
          (issued-Ascends (observe c remote wall).0 es (omega arith)
            (HasRoom-mono (length es) (suc (length es)) es (omega arith) r.1)),
    )
