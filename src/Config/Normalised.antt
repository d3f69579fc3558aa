-- ===== src/Config/Normalised.antt =====
-- What the last part of `Validate` makes of a configuration.
use netconnpool.Prelude.{◌≡◌, ◌⊎◌, arith}
use netconnpool.Prelude.Int.{ℤ, pos, ◌≤ℤ◌, ◌<ℤ◌, half}
use netconnpool.Mode.{server}
use netconnpool.Config.{
  Config, Acceptor, second, minute, normalise, default_leak_interval, clamp_interval,
}
use netconnpool.Config.Acceptable.{IsAcceptable, IsNormal}

module _ (c : Config) where
  abbrev pub IdleWithin : Type 0
  IdleWithin = (c.max_connections ≤ℤ pos 0) ⊎ (c.max_idle_connections ≤ℤ c.max_connections)

  abbrev pub CheckWithin : Type 0
  CheckWithin =
      (c.health_check_interval ≤ℤ pos 0) ⊎ (c.health_check_timeout ≤ℤ c.health_check_interval)

  abbrev pub LeakInterval : Type 0
  LeakInterval = (c.connection_leak_timeout ≤ℤ pos 0) ⊎ (pos 0 <ℤ c.leak_detection_interval)

normalise-IdleWithin : (c : Config) → IdleWithin (normalise c)
unfolding normalise
normalise-IdleWithin c = ground arith

normalise-CheckWithin : (c : Config) → CheckWithin (normalise c)
unfolding normalise
normalise-CheckWithin c = ground arith

normalise_packets : (c : Config) → pos 0 <ℤ (normalise c).max_buffer_clear_packets
unfolding normalise
normalise_packets c = ground arith

clamp_interval_bounds :
    (d : ℤ) → (pos second ≤ℤ clamp_interval d) × (clamp_interval d ≤ℤ pos minute)
unfolding clamp_interval
clamp_interval_bounds d = ground arith

normalise-LeakInterval : (c : Config) → LeakInterval (normalise c)
unfolding normalise default_leak_interval
normalise-LeakInterval c = ground (arith, clamp_interval_bounds (half c.connection_leak_timeout))

-- The fields that are checked, other than MaxIdleConnections, stay as they are.
module _ (c : Config) where
  mode-normalise : (normalise c).mode ≡ c.mode
  unfolding normalise
  mode-normalise = ground arith

  source-normalise : ((normalise c).dialer ≡ c.dialer) × ((normalise c).listener ≡ c.listener)
  unfolding normalise
  source-normalise = (ground arith, ground arith)

  min_connections-normalise : (normalise c).min_connections ≡ c.min_connections
  unfolding normalise
  min_connections-normalise = ground arith

  max_connections-normalise : (normalise c).max_connections ≡ c.max_connections
  unfolding normalise
  max_connections-normalise = ground arith

  connection_timeout-normalise : (normalise c).connection_timeout ≡ c.connection_timeout
  unfolding normalise
  connection_timeout-normalise = ground arith

  acceptor-normalise : (normalise c).acceptor ≡ c.acceptor
  unfolding normalise
  acceptor-normalise = ground arith

  idle_positive-normalise :
      pos 0 <ℤ c.max_idle_connections → pos 0 <ℤ (normalise c).max_idle_connections
  unfolding normalise
  idle_positive-normalise h = ground arith

  normalise-IsAcceptable : IsAcceptable c → IsAcceptable (normalise c)
  normalise-IsAcceptable a = record {
    source = rw (mode-normalise, source-normalise.0, source-normalise.1) a.source;
    min_nonneg = rw min_connections-normalise a.min_nonneg;
    min_within = rw (min_connections-normalise, max_connections-normalise) a.min_within;
    idle_positive = idle_positive-normalise a.idle_positive;
    timeout_positive = rw connection_timeout-normalise a.timeout_positive;
  }

  pub normalise-IsNormal :
      IsAcceptable c
      → (c.mode ≡ server → c.acceptor ≡ Acceptor.missing → ⊥)
      → IsNormal (normalise c)
  normalise-IsNormal a s = record {
    acceptable = normalise-IsAcceptable a;
    acceptor_set = rw (mode-normalise, acceptor-normalise) s;
    idle_within = normalise-IdleWithin c;
    check_within = normalise-CheckWithin c;
    packets_positive = normalise_packets c;
    leak_interval = normalise-LeakInterval c;
  }
