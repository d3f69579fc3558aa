-- ===== src/Pool/Core/Methods.antt =====
-- `Put` and the parts of the `Get` methods keep the invariant of the map.
use netconnpool.Prelude.{ℕ, arith, Option, none, some, not, if_cases, length, ltb}
use netconnpool.Pool.State.{Pool, World, is_connection_valid, with_stats}
use netconnpool.Pool.Put.{put, to_idle, hand_back, idle_chan, idle_capacity}
use netconnpool.Stats.{increment_total_get_requests}
use netconnpool.Pool.Core.Defs.{Core, Keeps, Keeps-refl, Keeps-Core}
use netconnpool.Pool.Core.Kept.{
  hand_back-Keeps, to_idle_room-Keeps, lend_idle-Keeps, lend_new-Keeps, then_connection_error,
}
use netconnpool.Pool.Core.Unchanged.{elsewhere-Keeps, with_stats-Keeps}
use netconnpool.Pool.Core.Discarded.{close_connection-Core}
use netconnpool.Pool.Core.Created.{create_connection-Core}
use netconnpool.Stats.{record_get_time, increment_connection_errors}
use netconnpool.Pool.Invariance.{Stable}
use netconnpool.Pool.Core.Kept.{lend_idle_of_protocol-Keeps, then_failure}
use netconnpool.Prelude.{◌-◌}

abbrev pub CoreFirst {ℓ} : {A : Type ℓ} → Pool × A → Type 0
CoreFirst r = Core r.0

to_idle-Core : (w : World) (id : ℕ) (p : Pool) → Core p → Core (to_idle w id p).0
unfolding to_idle
to_idle-Core w id p c =
    if_cases CoreFirst (ltb (length (idle_chan id p)) (idle_capacity p))
      (λ _. Keeps-Core (to_idle_room-Keeps id p) c) (λ _. close_connection-Core w p id c)

-- `Put` keeps the invariant, on every branch.
pub put-Core : (w : World) (p : Pool) (conn : Option ℕ) → Core p → Core (put w p conn).0
unfolding put
put-Core w p none c = c
put-Core w p (some id) c =
    if_cases CoreFirst p.closed (λ _. close_connection-Core w p id c)
      λ _.
        if_cases CoreFirst (not (is_connection_valid p id)) (λ _. close_connection-Core w p id c)
          λ _. to_idle-Core w id (hand_back id p) (Keeps-Core (hand_back-Keeps id p) c)

pub record_get_time-Keeps :
    (started : ℕ) (p : Pool) → Keeps p (with_stats (λ now. record_get_time (now - started) now) p)
record_get_time-Keeps started p =
    with_stats-Keeps (λ now. record_get_time (now - started) now) p (λ s. ground arith)

count_request-Keeps : (p : Pool) → Keeps p (with_stats increment_total_get_requests p)
count_request-Keeps p = with_stats-Keeps increment_total_get_requests p (λ s. ground arith)

-- The parts of the requests keep the invariant, so that `GetWithTimeout`, `GetWithProtocol`,
-- `GetWithIPVersion` and `warmUp` keep it, whatever they return.
pub Core-Stable : (w : World) → Stable w Core
Core-Stable w = record {
  stable_elsewhere = λ p c. Keeps-Core (elsewhere-Keeps p) c;
  stable_lend_idle = λ id p c. Keeps-Core (lend_idle-Keeps id p) c;
  stable_lend_idle_of_protocol = λ id p c. Keeps-Core (lend_idle_of_protocol-Keeps id p) c;
  stable_lend_new = λ id p c. Keeps-Core (lend_new-Keeps id p) c;
  stable_failure = λ p c. Keeps-Core (then_failure p (Keeps-refl p)) c;
  stable_connection_error = λ p c. Keeps-Core (then_connection_error p (Keeps-refl p)) c;
  stable_warm_error =
      λ p c. Keeps-Core (with_stats-Keeps increment_connection_errors p (λ s. ground arith)) c;
  stable_request = λ p c. Keeps-Core (count_request-Keeps p) c;
  stable_time = λ started p c. Keeps-Core (record_get_time-Keeps started p) c;
  stable_close = λ p id c. close_connection-Core w p id c;
  stable_create = λ p c. create_connection-Core w p c;
  stable_put = λ p id c. put-Core w p (some id) c;
}
