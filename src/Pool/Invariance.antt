-- ===== src/Pool/Invariance.antt =====
-- A principle of invariance: what the parts of the requests keep, the requests keep.
use netconnpool.Prelude.{ℕ, ◌-◌, Option, none, some, List}
use netconnpool.Stats.{increment_total_get_requests, record_get_time, increment_connection_errors}
use netconnpool.Pool.State.{Pool, World, with_stats}
use netconnpool.Pool.Discard.{close_connection}
use netconnpool.Pool.Put.{put}
use netconnpool.Pool.Create.{create_connection}
use netconnpool.Pool.Borrow.{
  lend_idle, lend_idle_of_protocol, lend_new, count_failure, count_connection_error,
}
pub mod Timeouts
pub mod Protocols
pub mod Versions

-- The parts that the three Gets and `warmUp` are made of keep `P`: moves of the idle channels and the
-- clock, the three ways of lending, the counters, and the creation, closing and return of a
-- connection.
pub record Stable (w : World) (P : Pool → Type 0) : Type 0 where
  pub stable_elsewhere :
      (p : Pool) {a b : List ℕ} {t k : ℕ}
      → P p
      → P (record p { idle_tcp = a; idle_udp = b; now = t; asked = k })
  pub stable_lend_idle : (id : ℕ) (p : Pool) → P p → P (lend_idle id p)
  pub stable_lend_idle_of_protocol : (id : ℕ) (p : Pool) → P p → P (lend_idle_of_protocol id p)
  pub stable_lend_new : (id : ℕ) (p : Pool) → P p → P (lend_new id p)
  pub stable_failure : (p : Pool) → P p → P (count_failure p)
  pub stable_connection_error : (p : Pool) → P p → P (count_connection_error p)
  pub stable_warm_error : (p : Pool) → P p → P (with_stats increment_connection_errors p)
  pub stable_request : (p : Pool) → P p → P (with_stats increment_total_get_requests p)
  pub stable_time :
      (started : ℕ) (p : Pool) → P p → P (with_stats (λ now. record_get_time (now - started) now) p)
  pub stable_close : (p : Pool) (id : ℕ) → P p → P (close_connection w p id).0
  pub stable_create : (p : Pool) → P p → P (create_connection w p).0
  pub stable_put : (p : Pool) (id : ℕ) → P p → P (put w p (some id)).0

-- What a take off an idle channel leaves, where there is one.
abbrev pub Left : (P : Pool → Type 0) → Option (ℕ × Pool) → Type 0
Left P none = Unit {0}
Left P (some (id, q)) = P q

abbrev pub First {ℓ} : (P : Pool → Type 0) → {A : Type ℓ} → Pool × A → Type 0
First P r = P r.0
