-- ===== src/Pool/Core/Managers.antt =====
-- The leak detector, the health checks and the cleanup keep the invariant of the map.
use netconnpool.Prelude.{
  ℕ, refl, Option, none, some, Bool, true, false, List, [], ◌∷◌, arith, if_cases,
}
use netconnpool.Connection.{update_health}
use netconnpool.Stats.{
  increment_leaked_connections, increment_health_check_attempts, increment_health_check_failures,
  increment_unhealthy_connections, increment_current_idle_connections,
}
use netconnpool.Pool.State.{Pool, World, on_object}
use netconnpool.Pool.Leak.{leaks, detect_one, detect_all, detect_leaks}
use netconnpool.Pool.Health.{count_check, checked, check_connection}
use netconnpool.Pool.Cleanup.{perform_cleanup}
use netconnpool.Pool.Core.Defs.{Core, Keeps, Keeps-refl, Keeps-trans, Keeps-Core}
use netconnpool.Pool.Core.Unchanged.{with_stats-Keeps, on_object-Keeps}
use netconnpool.Pool.Cleaning.Closure.{perform_cleanup_closed}
use netconnpool.Pool.Core.Discarded.{close_connection-Core}

detect_one-Keeps : (id : ℕ) (p : Pool) → Keeps p (detect_one id p)
unfolding detect_one
detect_one-Keeps id p =
    if_cases (Keeps p) (leaks p id)
      (λ _.
        Keeps-trans (on_object-Keeps id (λ c. record c { leak_detected = true }) p refl refl refl)
          (with_stats-Keeps increment_leaked_connections _ (λ s. ground arith)))
      (λ _. Keeps-refl p)

detect_all-Keeps : (ids : List ℕ) (p : Pool) → Keeps p (detect_all ids p)
unfolding detect_all
detect_all-Keeps [] p = Keeps-refl p
detect_all-Keeps (id ∷ ids) p = Keeps-trans (detect_one-Keeps id p) (detect_all-Keeps ids _)

pub detect_leaks-Keeps : (p : Pool) → Keeps p (detect_leaks p)
unfolding detect_leaks
detect_leaks-Keeps p = detect_all-Keeps p.connections p

update_health-Keeps :
    (id : ℕ) (healthy : Bool) (now : ℕ) (p : Pool)
    → Keeps p (on_object id (update_health healthy now) p)
update_health-Keeps id healthy now p =
    on_object-Keeps id (update_health healthy now) p refl refl refl

count_check-Keeps : (healthy : Bool) (p : Pool) → Keeps p (count_check healthy p)
unfolding count_check
count_check-Keeps true p = with_stats-Keeps increment_health_check_attempts p (λ s. ground arith)
count_check-Keeps false p =
    Keeps-trans (with_stats-Keeps increment_health_check_attempts p (λ s. ground arith)) (
      Keeps-trans (with_stats-Keeps increment_health_check_failures _ (λ s. ground arith))
        (with_stats-Keeps increment_unhealthy_connections _ (λ s. ground arith)))

checked-Keeps : (id : ℕ) (answer : Option Bool) (p : Pool) → Keeps p (checked id answer p)
unfolding checked
checked-Keeps id (some healthy) p =
    Keeps-trans (update_health-Keeps id healthy p.now p) (count_check-Keeps healthy _)
checked-Keeps id none p = Keeps-trans (update_health-Keeps id false p.now p) (
    Keeps-trans (with_stats-Keeps increment_health_check_attempts _ (λ s. ground arith))
      (with_stats-Keeps increment_health_check_failures _ (λ s. ground arith)))

pub check_connection-Keeps :
    (id : ℕ) (answer : Option Bool) (p : Pool) → Keeps p (check_connection id answer p)
unfolding check_connection
check_connection-Keeps id answer p =
    if_cases (Keeps p) (p.object id).in_use (λ _. Keeps-refl p) (λ _. checked-Keeps id answer p)

pub perform_cleanup-Core : (w : World) (p : Pool) → Core p → Core (perform_cleanup w p)
perform_cleanup-Core w p =
    perform_cleanup_closed w (λ q r. Core q → Core r) (λ q c. c) (λ q r s f g c. g (f c))
      (λ id q f c.
        close_connection-Core w _ id (Keeps-Core (update_health-Keeps id false q.now q) c))
      (λ n q c.
        Keeps-Core (with_stats-Keeps (increment_current_idle_connections n) q (λ s. ground arith))
          c)
      p
