-- ===== src/Pool/Core/Reached.antt =====
-- The invariant of the map holds in every state of a running pool.
use netconnpool.Prelude.{
  ℕ, ◌-◌, refl, count, subst, none, some, Bool, true, false, arith, member, if◌then◌else◌,
}
use netconnpool.Prelude.Word.{add64}
use netconnpool.Config.{Config}
use netconnpool.Stats.{new_stats, increment_timeout_gets, record_get_time}
use netconnpool.Pool.State.{Pool, World, new_pool}
use netconnpool.Pool.Run.{
  Step, warms, gets, gets_protocol, gets_version, puts, joins, receives, waits_on, gives_up,
  finds_closed, turns_away, shuts_out, begins_close, closes_connections, closes_queues, closes_idle,
  passes, Reach, start, next,
}
use netconnpool.Pool.Core.Defs.{Core, Keeps-Core, tallies, Agrees, of_protocol, of_version}
use netconnpool.Pool.Core.Unchanged.{elsewhere-Keeps, with_stats-Keeps}
use netconnpool.Pool.Core.Kept.{then_stats}
use netconnpool.Pool.Core.Methods.{put-Core, Core-Stable}
use netconnpool.Pool.Invariance.Timeouts.{get_with_timeout-Stable}
use netconnpool.Pool.Invariance.Protocols.{get_with_protocol-Stable}
use netconnpool.Pool.Invariance.Versions.{get_with_ip_version-Stable, warm_up-Stable}
use netconnpool.Pool.Core.Waiters.{WakeCore, join-Keeps, receive-Core, give_up-Core, pool_gone-Core}
use netconnpool.Pool.Run.{detects, checks, cleans}
use netconnpool.Pool.Core.Managers.{
  detect_leaks-Keeps, check_connection-Keeps, perform_cleanup-Core,
}
use netconnpool.Pool.Core.Closed.{
  begin_close-Core, close_connections-Core, close_wait_queues-Keeps, close_idle-Keeps,
}

new_pool-Core : (config : Config) (now : ℕ) → Core (new_pool config now)
unfolding member add64 count of_protocol of_version
new_pool-Core config now = record {
  distinct = tt;
  allocated = λ id m. cc;
  listed = λ id h. cc;
  within = λ h. omega arith;
  agrees = go config.enable_stats;
}
  where
    go :
        (b : Bool)
        → Agrees (tallies (if b then some (new_stats now) else none)) (new_pool config now)
    go true = record {
      current_count = refl;
      balance = refl;
      kinds = λ open_. record {
        ipv4_count = refl;
        ipv6_count = refl;
        tcp_count = refl;
        udp_count = refl;
      };
    }
    go false = tt

Step-Core : {w : World} {p q : Pool} → Step w p q → Core p → Core q
Step-Core {w} (warms p) c = warm_up-Stable (Core-Stable w) p c
Step-Core {w} (gets p) c = get_with_timeout-Stable (Core-Stable w) p c
Step-Core {w} (gets_protocol k p) c = get_with_protocol-Stable (Core-Stable w) k p c
Step-Core {w} (gets_version v p) c = get_with_ip_version-Stable (Core-Stable w) v p c
Step-Core {w} (puts conn p) c = put-Core w p conn c
Step-Core {w} (joins q p room) c = Keeps-Core (join-Keeps q p) c
Step-Core {w} (turns_away started p) c =
    let k = with_stats-Keeps increment_timeout_gets p (λ s. ground arith) in
    Keeps-Core (then_stats p (λ now. record_get_time (now - started) now) (λ now s. ground arith) k)
      c
Step-Core {w} (shuts_out started p shut) c =
    Keeps-Core (with_stats-Keeps (λ now. record_get_time (now - started) now) p (λ s. ground arith))
      c
Step-Core {w} (receives {p} q started ch e) c = subst WakeCore e (receive-Core w q started ch p c)
Step-Core {w} (waits_on {p} q started ch e) c = subst WakeCore e (receive-Core w q started ch p c)
Step-Core {w} (gives_up {p} q started ch e) c = subst WakeCore e (give_up-Core q started ch p c)
Step-Core {w} (finds_closed {p} q started ch shut e) c =
    subst WakeCore e (pool_gone-Core q started ch p c)
Step-Core {w} (detects p open_) c = Keeps-Core (detect_leaks-Keeps p) c
Step-Core {w} (checks id answer p m) c = Keeps-Core (check_connection-Keeps id answer p) c
Step-Core {w} (cleans p open_) c = perform_cleanup-Core w p c
Step-Core {w} (begins_close p open_) c = begin_close-Core p c
Step-Core {w} (closes_connections p shut) c = close_connections-Core w p c shut
Step-Core {w} (closes_queues p shut) c = Keeps-Core (close_wait_queues-Keeps p) c
Step-Core {w} (closes_idle p shut) c = Keeps-Core (close_idle-Keeps p) c
Step-Core {w} (passes t p) c = Keeps-Core (elsewhere-Keeps p) c

-- In every state that a pool reaches, whatever its callbacks answer and however its methods,
-- waiters, managers and `Close` follow each other: the IDs in the map are distinct and were given out; every
-- connection with an open socket is in the map; a limited MaxConnections bounds the map; and, with
-- statistics, CurrentConnections is the size of the map and TotalConnectionsCreated the sum of
-- TotalConnectionsClosed and CurrentConnections, and, until `Close`, the four counters by IP version
-- and protocol are the numbers of such connections in the map, all modulo 2 ^ 64.
pub Reach-Core : {w : World} {config : Config} {p : Pool} → Reach w config p → Core p
Reach-Core (start now) = new_pool-Core _ now
Reach-Core (next r s) = Step-Core s (Reach-Core r)
