-- ===== src/Pool/Health.antt =====
-- health.go: `performCheck`, `readProbeCheck`, and `checkConnection` by what its goroutine answers.
use netconnpool.Prelude.{ℕ, Option, none, some, Bool, true, false, if◌then◌else◌, ◌+◌, ltb}
use netconnpool.Connection.{update_health}
use netconnpool.Stats.{
  increment_health_check_attempts, increment_health_check_failures, increment_unhealthy_connections,
}
use netconnpool.Pool.State.{Pool, with_stats, on_object}

-- How the read of one byte ends.
pub data Probe : Type 0 where
  reads times_out ends fails : Probe

unfoldable pub read_probe_check : Probe → Bool
read_probe_check ends = false
read_probe_check times_out = true
read_probe_check fails = false
read_probe_check reads = true

-- The branch for a `*net.UDPConn`.
unfoldable pub udp_probe_check : Probe → Bool
udp_probe_check times_out = true
udp_probe_check ends = false
udp_probe_check fails = false
udp_probe_check reads = true

-- `custom` is the answer of the configured HealthChecker, if there is one.
unfoldable pub perform_check : (custom : Option Bool) (udp_conn : Bool) → Probe → Bool
perform_check (some healthy) udp_conn probe = healthy
perform_check none true probe = udp_probe_check probe
perform_check none false probe = read_probe_check probe

-- The statistics of a check that came in time.
unfoldable pub count_check : (healthy : Bool) → Pool → Pool
count_check true p = with_stats increment_health_check_attempts p
count_check false p =
    with_stats increment_unhealthy_connections
      (with_stats increment_health_check_failures (with_stats increment_health_check_attempts p))

-- The first `select`: an answer of `performCheck`, or the end of the context.
unfoldable pub checked : ℕ → Option Bool → Pool → Pool
checked id (some healthy) p = count_check healthy (on_object id (update_health healthy p.now) p)
checked id none p =
    with_stats increment_health_check_failures
      (with_stats increment_health_check_attempts (on_object id (update_health false p.now) p))

unfoldable pub check_connection : ℕ → Option Bool → Pool → Pool
check_connection id answer p = if (p.object id).in_use then p else checked id answer p

-- `SetReadDeadline(time.Now().Add(HealthCheckTimeout))` of `readProbeCheck`.
abbrev pub probe_deadline : (begun timeout : ℕ) → ℕ
probe_deadline begun timeout = begun + timeout

-- What the first `select` of `checkConnection` takes, by when the context ends and when the answer is
-- in `done`; `either` decides where both come at the same time.
unfoldable pub first_ready : (context_ends answered : ℕ) (either healthy : Bool) → Option Bool
first_ready context_ends answered either healthy =
    if ltb answered context_ends
    then some healthy
    else if ltb context_ends answered
    then none
    else if either
    then some healthy
    else none
