-- ===== src/Hlc.antt =====
-- crates/xo-core/src/hlc.rs: hybrid logical timestamps, their order and the clock that issues them.
-- A method that takes `&mut self` returns the clock that it leaves beside its result.
pub mod Order
pub mod Clock
mod Examples
use Prim.Native.Nat.{compare, Ordering}
use exokephalos.Prelude.{ℕ, ◌+◌, ◌-◌, ◌^◌, min, max, ◌==◌, ltb, ◌&&◌, if◌then◌else◌}
use exokephalos.Prelude.Order.{Ord, then_with}
use exokephalos.Prelude.Text.{Text, text_ord}

abbrev pub u32_max : ℕ
u32_max = 2 ^ 32 - 1

-- `u32::saturating_add`
abbrev pub saturating_add : ℕ → ℕ → ℕ
saturating_add a b = min (a + b) u32_max

pub record Hlc : Type 0 where
  pub physical_ms : ℕ
  pub logical : ℕ
  pub actor_id : Text

-- `Ord::cmp` for `Hlc`: the tuple (physical_ms, logical, actor_id).
unfoldable pub compare_hlc : Hlc → Hlc → Ordering
compare_hlc a b =
    then_with (compare a.physical_ms b.physical_ms)
      (then_with (compare a.logical b.logical) (text_ord.order a.actor_id b.actor_id))

pub record HlcClock : Type 0 where
  pub physical_ms : ℕ
  pub logical : ℕ
  pub actor_id : Text

unfoldable pub new : Text → HlcClock
new actor = record { physical_ms = 0; logical = 0; actor_id = actor }

unfoldable pub from_timestamp : Hlc → HlcClock
from_timestamp t = record {
  physical_ms = t.physical_ms;
  logical = t.logical;
  actor_id = t.actor_id;
}

unfoldable pub timestamp : HlcClock → Hlc
timestamp c = record { physical_ms = c.physical_ms; logical = c.logical; actor_id = c.actor_id }

unfoldable pub next : HlcClock → ℕ → HlcClock × Hlc
unfolding timestamp
next c wall_clock_ms =
    let c' =
      if ltb c.physical_ms wall_clock_ms
      then record c { physical_ms = wall_clock_ms; logical = 0 }
      else record c { logical = saturating_add c.logical 1 } in
    (c', timestamp c')

unfoldable pub observe : HlcClock → Hlc → ℕ → HlcClock × Hlc
unfolding timestamp
observe c remote wall_clock_ms =
    let local_physical = c.physical_ms in
    let next_physical = max (max wall_clock_ms local_physical) remote.physical_ms in
    let logical' =
      if next_physical == local_physical && next_physical == remote.physical_ms
      then saturating_add (max c.logical remote.logical) 1
      else if next_physical == local_physical
      then saturating_add c.logical 1
      else if next_physical == remote.physical_ms
      then saturating_add remote.logical 1
      else 0 in
    let c' = record c { physical_ms = next_physical; logical = logical' } in (c', timestamp c')
