-- ===== src/Pool/Lending/Others.antt =====
-- The passes of the managers and the parts of `Close`, in which nobody is lent a connection.
use netconnpool.Prelude.{
  ℕ, refl, Option, none, some, Bool, true, false, List, [], ◌∷◌, count, arith, if_cases,
}
use netconnpool.Errors.{Error}
use netconnpool.Stats.{increment_total_connections_closed, increment_current_idle_connections}
use netconnpool.Pool.State.{Pool, World, with_stats}
use netconnpool.Pool.Discard.{connection_close, close_socket}
use netconnpool.Pool.Leak.{detect_one, detect_all, detect_leaks}
use netconnpool.Pool.Health.{check_connection, checked, count_check}
use netconnpool.Pool.Cleanup.{perform_cleanup}
use netconnpool.Pool.Cleaning.Closure.{perform_cleanup_closed}
use netconnpool.Pool.Shutdown.{
  begin_close, close_all, close_connections, close_wait_queue, close_wait_queues, close_idle,
  first_error,
}
use netconnpool.Pool.Lending.Defs.{occurrences, tokens, Once}
use netconnpool.Pool.Lending.Steady.{
  Steady, Steady-refl, Steady-trans, with_stats-Steady, close_connection-Steady,
  update_health-Steady,
}
use netconnpool.Pool.Lending.Returns.{Calm, Calm-trans, Steady-Calm}
use netconnpool.Prelude.{Option-cases}
use netconnpool.Pool.Lending.Waits.{same-Calm}

detect_one-Steady : (id : ℕ) (p : Pool) → Steady p (detect_one id p)
unfolding detect_one
detect_one-Steady id p = ground arith

detect_all-Steady : (ids : List ℕ) (p : Pool) → Steady p (detect_all ids p)
unfolding detect_all
detect_all-Steady [] p = Steady-refl p
detect_all-Steady (id ∷ ids) p = Steady-trans (detect_one-Steady id p) (detect_all-Steady ids _)

pub detect_leaks-Steady : (p : Pool) → Steady p (detect_leaks p)
unfolding detect_leaks
detect_leaks-Steady p = detect_all-Steady p.connections p

checked-Steady : (id : ℕ) (answer : Option Bool) (p : Pool) → Steady p (checked id answer p)
unfolding checked count_check
checked-Steady id (some true) p = ground arith
checked-Steady id (some false) p = ground arith
checked-Steady id none p = ground arith

pub check_connection-Steady :
    (id : ℕ) (answer : Option Bool) (p : Pool) → Steady p (check_connection id answer p)
unfolding check_connection
check_connection-Steady id answer p =
    if_cases (Steady p) (p.object id).in_use (λ _. Steady-refl p) (λ _. checked-Steady id answer p)

pub perform_cleanup-Steady : (w : World) (p : Pool) → Steady p (perform_cleanup w p)
perform_cleanup-Steady w p =
    perform_cleanup_closed w Steady Steady-refl (λ p q r. Steady-trans)
      (λ id q f.
        Steady-trans (update_health-Steady id q.now false q) (close_connection-Steady w _ id))
      (λ n q. with_stats-Steady (increment_current_idle_connections n) q) p

pub begin_close-Calm : (p : Pool) → Once p → Calm p (begin_close p)
unfolding begin_close
begin_close-Calm p o = same-Calm refl refl refl (λ j. refl) o

connection_close-Steady : (w : World) (p : Pool) (id : ℕ) → Steady p (connection_close w p id).0
unfolding connection_close close_socket
connection_close-Steady w p id = ground (arith, Option-cases (p.object id).conn)

pub close_all-Steady :
    (w : World) (ids : List ℕ) (e : Option Error) (p : Pool) → Steady p (close_all w ids e p).0
unfolding close_all
close_all-Steady w [] e p = Steady-refl p
close_all-Steady w (id ∷ ids) e p =
    let c = connection_close w p id in
    let q = with_stats increment_total_connections_closed c.0 in
    Steady-trans (connection_close-Steady w p id) (
      Steady-trans (with_stats-Steady increment_total_connections_closed c.0)
        (close_all-Steady w ids (first_error e c.1) q))

pub close_connections-Calm : (w : World) (p : Pool) → Once p → Calm p (close_connections w p).0
unfolding close_connections
close_connections-Calm w p o =
    let c : Calm p (record p { connections = [] }) = same-Calm refl refl refl (λ j. refl) o in
    Calm-trans c (Steady-Calm c.calm_once (close_all-Steady w p.connections none _))

pub close_wait_queues-Calm : (p : Pool) → Once p → Calm p (close_wait_queues p)
unfolding close_wait_queues close_wait_queue
close_wait_queues-Calm p o = same-Calm refl refl refl (λ j. refl) o

pub close_idle-Calm : (p : Pool) → Once p → Calm p (close_idle p)
unfolding close_idle tokens occurrences count
close_idle-Calm p o = record {
  calm_once = record { one_holder = λ j. ground (arith, o.one_holder j) };
  calm_use = λ j. refl;
}
