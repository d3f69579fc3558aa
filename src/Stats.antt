-- ===== src/Stats.antt =====
-- stats.go: the counters of a pool. An int64 counter is its 64-bit pattern and wraps as
-- `atomic.AddInt64` does; a delta of -1 is the pattern `minus_one`. Each method takes the time that
-- `time.Now` reads.
use netconnpool.Prelude.{ℕ, ◌-◌, ◌/◌, ◌^◌, ◌&&◌, if◌then◌else◌, ltb, ◌==◌}
use netconnpool.Prelude.Word.{add64, minus_one}

pub record Stats : Type 0 where
  pub total_connections_created : ℕ
  pub total_connections_closed : ℕ
  pub current_connections : ℕ
  pub current_idle_connections : ℕ
  pub current_active_connections : ℕ
  pub current_ipv4_connections : ℕ
  pub current_ipv6_connections : ℕ
  pub current_ipv4_idle_connections : ℕ
  pub current_ipv6_idle_connections : ℕ
  pub current_tcp_connections : ℕ
  pub current_udp_connections : ℕ
  pub current_tcp_idle_connections : ℕ
  pub current_udp_idle_connections : ℕ
  pub total_get_requests : ℕ
  pub successful_gets : ℕ
  pub failed_gets : ℕ
  pub timeout_gets : ℕ
  pub health_check_attempts : ℕ
  pub health_check_failures : ℕ
  pub unhealthy_connections : ℕ
  pub connection_errors : ℕ
  pub leaked_connections : ℕ
  pub total_connections_reused : ℕ
  pub average_get_time : ℕ
  pub total_get_time : ℕ
  pub last_update_time : ℕ

-- `NewStatsCollector`
abbrev pub new_stats : (now : ℕ) → Stats
new_stats now = record {
  total_connections_created = 0;
  total_connections_closed = 0;
  current_connections = 0;
  current_idle_connections = 0;
  current_active_connections = 0;
  current_ipv4_connections = 0;
  current_ipv6_connections = 0;
  current_ipv4_idle_connections = 0;
  current_ipv6_idle_connections = 0;
  current_tcp_connections = 0;
  current_udp_connections = 0;
  current_tcp_idle_connections = 0;
  current_udp_idle_connections = 0;
  total_get_requests = 0;
  successful_gets = 0;
  failed_gets = 0;
  timeout_gets = 0;
  health_check_attempts = 0;
  health_check_failures = 0;
  unhealthy_connections = 0;
  connection_errors = 0;
  leaked_connections = 0;
  total_connections_reused = 0;
  average_get_time = 0;
  total_get_time = 0;
  last_update_time = now;
}

-- `updateTime`: the time is written at most every 100 ms.
abbrev pub update_time : (now : ℕ) → Stats → Stats
update_time now s =
    if ltb (now - s.last_update_time) 100_000_000 then s else record s { last_update_time = now }

abbrev pub increment_total_connections_created : (now : ℕ) → Stats → Stats
increment_total_connections_created now s = update_time now (record s {
  total_connections_created = add64 s.total_connections_created 1;
  current_connections = add64 s.current_connections 1;
})

abbrev pub increment_total_connections_closed : (now : ℕ) → Stats → Stats
increment_total_connections_closed now s = update_time now (record s {
  total_connections_closed = add64 s.total_connections_closed 1;
  current_connections = add64 s.current_connections minus_one;
})

abbrev pub increment_current_idle_connections : (delta now : ℕ) → Stats → Stats
increment_current_idle_connections delta now s =
    update_time now (record s { current_idle_connections = add64 s.current_idle_connections delta })

abbrev pub increment_current_active_connections : (delta now : ℕ) → Stats → Stats
increment_current_active_connections delta now s =
    update_time now
      (record s { current_active_connections = add64 s.current_active_connections delta })

abbrev pub increment_current_ipv4_connections : (delta now : ℕ) → Stats → Stats
increment_current_ipv4_connections delta now s =
    update_time now (record s { current_ipv4_connections = add64 s.current_ipv4_connections delta })

abbrev pub increment_current_ipv6_connections : (delta now : ℕ) → Stats → Stats
increment_current_ipv6_connections delta now s =
    update_time now (record s { current_ipv6_connections = add64 s.current_ipv6_connections delta })

abbrev pub increment_current_ipv4_idle_connections : (delta now : ℕ) → Stats → Stats
increment_current_ipv4_idle_connections delta now s =
    update_time now
      (record s { current_ipv4_idle_connections = add64 s.current_ipv4_idle_connections delta })

abbrev pub increment_current_ipv6_idle_connections : (delta now : ℕ) → Stats → Stats
increment_current_ipv6_idle_connections delta now s =
    update_time now
      (record s { current_ipv6_idle_connections = add64 s.current_ipv6_idle_connections delta })

abbrev pub increment_current_tcp_connections : (delta now : ℕ) → Stats → Stats
increment_current_tcp_connections delta now s =
    update_time now (record s { current_tcp_connections = add64 s.current_tcp_connections delta })

abbrev pub increment_current_udp_connections : (delta now : ℕ) → Stats → Stats
increment_current_udp_connections delta now s =
    update_time now (record s { current_udp_connections = add64 s.current_udp_connections delta })

abbrev pub increment_current_tcp_idle_connections : (delta now : ℕ) → Stats → Stats
increment_current_tcp_idle_connections delta now s =
    update_time now
      (record s { current_tcp_idle_connections = add64 s.current_tcp_idle_connections delta })

abbrev pub increment_current_udp_idle_connections : (delta now : ℕ) → Stats → Stats
increment_current_udp_idle_connections delta now s =
    update_time now
      (record s { current_udp_idle_connections = add64 s.current_udp_idle_connections delta })

abbrev pub increment_total_get_requests : (now : ℕ) → Stats → Stats
increment_total_get_requests now s =
    update_time now (record s { total_get_requests = add64 s.total_get_requests 1 })

abbrev pub increment_successful_gets : (now : ℕ) → Stats → Stats
increment_successful_gets now s =
    update_time now (record s { successful_gets = add64 s.successful_gets 1 })

abbrev pub increment_failed_gets : (now : ℕ) → Stats → Stats
increment_failed_gets now s = update_time now (record s { failed_gets = add64 s.failed_gets 1 })

abbrev pub increment_timeout_gets : (now : ℕ) → Stats → Stats
increment_timeout_gets now s = update_time now (record s { timeout_gets = add64 s.timeout_gets 1 })

abbrev pub increment_health_check_attempts : (now : ℕ) → Stats → Stats
increment_health_check_attempts now s =
    update_time now (record s { health_check_attempts = add64 s.health_check_attempts 1 })

abbrev pub increment_health_check_failures : (now : ℕ) → Stats → Stats
increment_health_check_failures now s =
    update_time now (record s { health_check_failures = add64 s.health_check_failures 1 })

abbrev pub increment_unhealthy_connections : (now : ℕ) → Stats → Stats
increment_unhealthy_connections now s =
    update_time now (record s { unhealthy_connections = add64 s.unhealthy_connections 1 })

abbrev pub increment_connection_errors : (now : ℕ) → Stats → Stats
increment_connection_errors now s =
    update_time now (record s { connection_errors = add64 s.connection_errors 1 })

abbrev pub increment_leaked_connections : (now : ℕ) → Stats → Stats
increment_leaked_connections now s =
    update_time now (record s { leaked_connections = add64 s.leaked_connections 1 })

abbrev pub increment_total_connections_reused : (now : ℕ) → Stats → Stats
increment_total_connections_reused now s =
    update_time now (record s { total_connections_reused = add64 s.total_connections_reused 1 })

-- Go's quotient of two int64s, which rounds towards zero, for a positive divisor.
abbrev pub quotient64 : ℕ → ℕ → ℕ
quotient64 a b = if ltb a (2 ^ 63) then a / b else add64 0 (2 ^ 64 - (2 ^ 64 - a) / b)

-- `RecordGetTime`. No other method comes between its reads of `SuccessfulGets`, so that the second
-- read agrees with the first and the loop ends in its first round.
abbrev pub record_get_time : (duration now : ℕ) → Stats → Stats
record_get_time duration now s =
    let total = add64 s.total_get_time duration in
    let gets = s.successful_gets in
    update_time now (
      if ltb 0 gets && ltb gets (2 ^ 63)
      then record s { total_get_time = total; average_get_time = quotient64 total gets }
      else record s { total_get_time = total })

-- `calculateAverageReuseCount`: the operands of its quotient of two float64s, 0 / 1 where it
-- returns 0.
abbrev pub calculate_average_reuse_count : Stats → ℕ × ℕ
calculate_average_reuse_count s =
    if s.total_connections_created == 0
    then (0, 1)
    else (s.total_connections_reused, s.total_connections_created)

-- `GetStats`: a copy of the counters, and the average.
abbrev pub get_stats : Stats → Stats × (ℕ × ℕ)
get_stats s = (s, calculate_average_reuse_count s)
