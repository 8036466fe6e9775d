-- ===== src/Hlc/Order.antt =====
-- The order of timestamps in hlc.rs.
use exokephalos.Prelude.{arith}
use exokephalos.Prelude.Order.{Ord, IsTotal, nat_ord}
use exokephalos.Prelude.Text.{text_ord}
use exokephalos.Hlc.{Hlc, compare_hlc}

-- Timestamps are totally ordered: the comparison is reflexive, flips with its arguments, is
-- transitive, and answers `Equal` only of equal timestamps.
pub hlc-IsTotal : IsTotal compare_hlc
unfolding compare_hlc
hlc-IsTotal = record {
  eq_of_order = λ a b. ground (arith, text_ord.eq_of_order a.actor_id b.actor_id);
  order_self = λ a. ground (arith, text_ord.order_self a.actor_id);
  order_flip = λ a b. ground (arith, text_ord.order_flip a.actor_id b.actor_id);
  order_trans = λ a b c. ground (arith, text_ord.order_trans a.actor_id b.actor_id c.actor_id);
}

instance abbrev pub hlc_ord : Ord Hlc
hlc_ord = record { order = compare_hlc; total = hlc-IsTotal }
