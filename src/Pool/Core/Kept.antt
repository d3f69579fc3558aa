-- ===== src/Pool/Core/Kept.antt =====
-- The parts of the methods that leave the map, the sockets and its counters alone.
use netconnpool.Prelude.{
  ℕ, ◌≡◌, refl, Option, none, some, Bool, true, false, ◌&&◌, arith, if◌then◌else◌,
}
use netconnpool.Prelude.Word.{minus_one}
use netconnpool.Protocol.{Protocol, protocol_eq}
use netconnpool.IpVersion.{IpVersion}
use netconnpool.Connection.{Connection, mark_in_use, mark_idle, increment_reuse_count}
use netconnpool.Stats.{
  Stats, increment_current_active_connections, increment_current_idle_connections,
  increment_successful_gets, increment_failed_gets, increment_connection_errors,
  increment_total_connections_reused, increment_current_ipv4_idle_connections,
  increment_current_ipv6_idle_connections, increment_current_tcp_idle_connections,
  increment_current_udp_idle_connections,
}
use netconnpool.Pool.State.{Pool, Queue, any, with_stats, on_object, by_version, by_protocol}
use netconnpool.Pool.Put.{
  hand_back, count_idle, send_idle, call_on_return, clear_udp, is_tcp_connection,
}
use netconnpool.Pool.Notify.{
  notify_wait_queue, notify_specific_wait_queue, try_queue, protocol_queue, version_queue,
}
use netconnpool.Pool.Borrow.{
  lend_idle, lend_idle_of_protocol, lend_new, count_failure, count_connection_error, reuse,
  count_success, count_reuse, call_on_borrow,
}
use netconnpool.Pool.Core.Defs.{Keeps, Keeps-refl, Keeps-trans, tally}
use netconnpool.Pool.Core.Unchanged.{elsewhere-Keeps, on_object-Keeps, with_stats-Keeps}

if-Keeps : (b : Bool) {p q r : Pool} → Keeps p q → Keeps p r → Keeps p (if b then q else r)
if-Keeps true k l = k
if-Keeps false k l = l

-- A counter that does not mirror the map.
abbrev pub Aside : (ℕ → Stats → Stats) → Type 0
Aside f = (now : ℕ) (s : Stats) → tally (f now s) ≡ tally s

by_version-Aside :
    (f g : ℕ → Stats → Stats) (v : IpVersion) → Aside f → Aside g → Aside (by_version f g v)
by_version-Aside f g IpVersion.unknown h k now s = refl
by_version-Aside f g IpVersion.ipv4 h k now s = h now s
by_version-Aside f g IpVersion.ipv6 h k now s = k now s

by_protocol-Aside :
    (f g : ℕ → Stats → Stats) (v : Protocol) → Aside f → Aside g → Aside (by_protocol f g v)
by_protocol-Aside f g Protocol.unknown h k now s = refl
by_protocol-Aside f g Protocol.tcp h k now s = h now s
by_protocol-Aside f g Protocol.udp h k now s = k now s

idle_version-Aside :
    (d : ℕ) (v : IpVersion)
    → Aside (
        by_version
          (increment_current_ipv4_idle_connections d)
          (increment_current_ipv6_idle_connections d)
          v)
idle_version-Aside d v = by_version-Aside _ _ v (λ now s. ground arith) (λ now s. ground arith)

idle_protocol-Aside :
    (d : ℕ) (v : Protocol)
    → Aside (
        by_protocol
          (increment_current_tcp_idle_connections d)
          (increment_current_udp_idle_connections d)
          v)
idle_protocol-Aside d v = by_protocol-Aside _ _ v (λ now s. ground arith) (λ now s. ground arith)

module _ (p : Pool) {q : Pool} where
  -- One more step after others.
  pub then_stats : (f : ℕ → Stats → Stats) → Aside f → Keeps p q → Keeps p (with_stats f q)
  then_stats f h k = Keeps-trans k (with_stats-Keeps f q (h q.now))

  then_mark_in_use : (id : ℕ) → Keeps p q → Keeps p (on_object id (mark_in_use q.now) q)
  then_mark_in_use id k = Keeps-trans k (on_object-Keeps id (mark_in_use q.now) q refl refl refl)

  then_mark_idle : (id : ℕ) → Keeps p q → Keeps p (on_object id (mark_idle q.now) q)
  then_mark_idle id k = Keeps-trans k (on_object-Keeps id (mark_idle q.now) q refl refl refl)

  then_count_reuses : (id : ℕ) → Keeps p q → Keeps p (on_object id increment_reuse_count q)
  then_count_reuses id k = Keeps-trans k (on_object-Keeps id increment_reuse_count q refl refl refl)

  then_on_return : (id : ℕ) → Keeps p q → Keeps p (call_on_return id q)
  then_on_return id k = if-Keeps q.config.on_return (Keeps-trans k (elsewhere-Keeps q)) k

  then_on_borrow : (id : ℕ) → Keeps p q → Keeps p (call_on_borrow id q)
  then_on_borrow id k = if-Keeps q.config.on_borrow (Keeps-trans k (elsewhere-Keeps q)) k

  then_clear_udp : (id : ℕ) → Keeps p q → Keeps p (clear_udp id q)
  then_clear_udp id k =
      if-Keeps
        (q.config.clear_udp_buffer_on_return && protocol_eq (q.object id).protocol Protocol.udp)
        (Keeps-trans k (elsewhere-Keeps q)) k

  pub then_success : Keeps p q → Keeps p (count_success q)
  then_success k =
      Keeps-trans (Keeps-trans k (with_stats-Keeps increment_successful_gets q (λ s. ground arith)))
        (with_stats-Keeps (increment_current_active_connections 1)
          (with_stats increment_successful_gets q) (λ s. ground arith))

  pub then_idle_protocol :
      (d : ℕ) (v : Protocol)
      → Keeps p q
      → Keeps p (
          with_stats
            (by_protocol
              (increment_current_tcp_idle_connections d)
              (increment_current_udp_idle_connections d)
              v)
            q)
  then_idle_protocol d v k = Keeps-trans k (
      with_stats-Keeps
        (by_protocol (increment_current_tcp_idle_connections d)
          (increment_current_udp_idle_connections d) v)
        q (idle_protocol-Aside d v q.now))

  pub then_idle_version :
      (d : ℕ) (v : IpVersion)
      → Keeps p q
      → Keeps p (
          with_stats
            (by_version
              (increment_current_ipv4_idle_connections d)
              (increment_current_ipv6_idle_connections d)
              v)
            q)
  then_idle_version d v k = Keeps-trans k (
      with_stats-Keeps
        (by_version (increment_current_ipv4_idle_connections d)
          (increment_current_ipv6_idle_connections d) v)
        q (idle_version-Aside d v q.now))

  pub then_failure : Keeps p q → Keeps p (count_failure q)
  then_failure k = Keeps-trans k (with_stats-Keeps increment_failed_gets q (λ s. ground arith))

module _ (p : Pool) {q : Pool} where
  pub then_connection_error : Keeps p q → Keeps p (count_connection_error q)
  then_connection_error k =
      then_stats p increment_connection_errors (λ now s. ground arith) (then_failure p k)

  then_count_reuse : Keeps p q → Keeps p (count_reuse q)
  then_count_reuse k =
      then_stats p increment_total_connections_reused (λ now s. ground arith)
        (then_stats p (increment_current_idle_connections minus_one) (λ now s. ground arith)
          (then_success p k))

  then_count_idle : (d : ℕ) (c : Connection) → Keeps p q → Keeps p (count_idle d c q)
  then_count_idle d c k = then_idle_protocol p d c.protocol (
      then_idle_version p d c.ip_version
        (then_stats p (increment_current_idle_connections d) (λ now s. ground arith) k))

  pub then_reuse : (id : ℕ) → Keeps p q → Keeps p (reuse id q)
  then_reuse id k = then_on_borrow p id (then_count_reuses p id (then_mark_in_use p id k))

pub hand_back-Keeps : (id : ℕ) (p : Pool) → Keeps p (hand_back id p)
unfolding hand_back
hand_back-Keeps id p =
    then_stats p (increment_current_active_connections minus_one) (λ now s. ground arith)
      (then_mark_idle p id (then_clear_udp p id (then_on_return p id (Keeps-refl p))))

pub clear_udp-Keeps : (id : ℕ) (p : Pool) → Keeps p (clear_udp id p)
clear_udp-Keeps id p = then_clear_udp p id (Keeps-refl p)

pub lend_idle_of_protocol-Keeps : (id : ℕ) (p : Pool) → Keeps p (lend_idle_of_protocol id p)
unfolding lend_idle_of_protocol
lend_idle_of_protocol-Keeps id p =
    then_idle_protocol p minus_one (p.object id).protocol
      (then_count_reuse p (then_reuse p id (Keeps-refl p)))

pub lend_idle-Keeps : (id : ℕ) (p : Pool) → Keeps p (lend_idle id p)
unfolding lend_idle
lend_idle-Keeps id p = then_idle_protocol p minus_one (p.object id).protocol (
    then_idle_version p minus_one (p.object id).ip_version
      (then_count_reuse p (then_reuse p id (Keeps-refl p))))

pub lend_new-Keeps : (id : ℕ) (p : Pool) → Keeps p (lend_new id p)
unfolding lend_new
lend_new-Keeps id p = then_success p (then_on_borrow p id (then_mark_in_use p id (Keeps-refl p)))

notify_specific-Keeps :
    (q : Queue) (id : ℕ) (p : Pool) → Keeps p (notify_specific_wait_queue q id p).0
unfolding notify_specific_wait_queue
notify_specific-Keeps q id p = elsewhere-Keeps p

try_queue-Keeps : (q : Option Queue) (id : ℕ) (p : Pool) → Keeps p (try_queue q id p).0
unfolding try_queue
try_queue-Keeps none id p = Keeps-refl p
try_queue-Keeps (some q) id p = notify_specific-Keeps q id p

pub notify_wait_queue-Keeps : (id : ℕ) (p : Pool) → Keeps p (notify_wait_queue id p)
unfolding notify_wait_queue
notify_wait_queue-Keeps id p =
    let first = try_queue (protocol_queue (p.object id).protocol) id p in
    let second = try_queue (version_queue (p.object id).ip_version) id first.0 in
    let k = try_queue-Keeps (protocol_queue (p.object id).protocol) id p in
    let l = try_queue-Keeps (version_queue (p.object id).ip_version) id first.0 in
    if-Keeps first.1 k
      (Keeps-trans k (if-Keeps second.1 l (Keeps-trans l (notify_specific-Keeps any id second.0))))

-- The case of `Put` in which the idle channel has room.
pub to_idle_room-Keeps :
    (id : ℕ) (p : Pool)
    → Keeps p (notify_wait_queue id (count_idle 1 (p.object id) (send_idle id p)))
to_idle_room-Keeps id p =
    Keeps-trans (then_count_idle p 1 (p.object id) (send_idle-Keeps id p))
      (notify_wait_queue-Keeps id _)
  where
    send_idle-Keeps : (id : ℕ) (p : Pool) → Keeps p (send_idle id p)
    send_idle-Keeps id p = if-Keeps (is_tcp_connection p id) (elsewhere-Keeps p) (elsewhere-Keeps p)
