-- ===== src/Pool/Silent.antt =====
-- The health check of a TCP connection on which nothing arrives.
use netconnpool.Prelude.{ℕ, ◌+◌, ◌≤◌, ◌<◌, ◌≡◌, refl, sym, subst, none, Bool, true, false, arith}
use netconnpool.Pool.State.{Pool, is_connection_valid}
use netconnpool.Pool.Health.{
  times_out, perform_check, read_probe_check, probe_deadline, first_ready, check_connection,
  checked,
}

first_ready_late :
    (context_ends answered : ℕ) (either healthy : Bool)
    → context_ends < answered
    → first_ready context_ends answered either healthy ≡ none
unfolding first_ready
first_ready_late context_ends answered either healthy l = ground (arith, l)

not_in_time :
    (p : Pool) (id : ℕ)
    → (p.object id).in_use ≡ false
    → p.config.enable_health_check ≡ true
    → (((check_connection id none p).object id).is_healthy ≡ false)
      × (is_connection_valid (check_connection id none p) id ≡ false)
unfolding check_connection checked is_connection_valid
not_in_time p id u h = (ground arith, ground arith)

-- Where health checks are enabled and no HealthChecker is configured, the check of an idle TCP
-- connection that is alive, but on which nothing arrives, marks it as unhealthy and so makes it
-- invalid, although performCheck answers that it is healthy: the read times out no sooner than
-- HealthCheckTimeout after the goroutine has begun it, and the context of the check, which was made
-- before, ends HealthCheckTimeout after its own start.
pub check_connection_silent :
    (p : Pool) (id made begun answered timeout : ℕ) (either : Bool)
    → (p.object id).in_use ≡ false
    → p.config.enable_health_check ≡ true
    → made < begun
    → probe_deadline begun timeout ≤ answered
    → (perform_check none false times_out ≡ true)
      × (((check_connection id
              (first_ready (made + timeout) answered either (perform_check none false times_out))
              p).object
            id).is_healthy
          ≡ false)
      × (is_connection_valid
            (check_connection id
              (first_ready (made + timeout) answered either (perform_check none false times_out))
              p)
            id
          ≡ false)
unfolding perform_check read_probe_check
check_connection_silent p id made begun answered timeout either u h l m =
    let e = first_ready_late (made + timeout) answered either true (omega arith) in
    let (x, y) = not_in_time p id u h in
    (
      refl,
      subst (λ o. ((check_connection id o p).object id).is_healthy ≡ false) (sym e) x,
      subst (λ o. is_connection_valid (check_connection id o p) id ≡ false) (sym e) y,
    )
