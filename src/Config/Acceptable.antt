-- ===== src/Config/Acceptable.antt =====
-- What a configuration is asked for, and what holds of it after `Validate`.
use netconnpool.Prelude.{◌≡◌, ◌⊎◌, Bool, true}
use netconnpool.Prelude.Int.{pos, ◌≤ℤ◌, ◌<ℤ◌}
use netconnpool.Mode.{PoolMode, client, server, other}
use netconnpool.Config.{Config, Acceptor}

-- The function that the mode needs is there.
abbrev pub HasSource : PoolMode → (dialer listener : Bool) → Type 0
HasSource client dialer listener = dialer ≡ true
HasSource server dialer listener = listener ≡ true
HasSource (other n) dialer listener = ⊥

-- What the documentation of the fields asks of a configuration.
pub record IsAcceptable (c : Config) : Type 0 where
  pub source : HasSource c.mode c.dialer c.listener
  pub min_nonneg : pos 0 ≤ℤ c.min_connections
  pub min_within : (c.max_connections ≤ℤ pos 0) ⊎ (c.min_connections ≤ℤ c.max_connections)
  pub idle_positive : pos 0 <ℤ c.max_idle_connections
  pub timeout_positive : pos 0 <ℤ c.connection_timeout

-- What holds of every configuration that a pool is made with.
pub record IsNormal (c : Config) : Type 0 where
  pub acceptable : IsAcceptable c
  pub acceptor_set : c.mode ≡ server → c.acceptor ≡ Acceptor.missing → ⊥
  pub idle_within : (c.max_connections ≤ℤ pos 0) ⊎ (c.max_idle_connections ≤ℤ c.max_connections)
  pub check_within :
      (c.health_check_interval ≤ℤ pos 0) ⊎ (c.health_check_timeout ≤ℤ c.health_check_interval)
  pub packets_positive : pos 0 <ℤ c.max_buffer_clear_packets
  pub leak_interval : (c.connection_leak_timeout ≤ℤ pos 0) ⊎ (pos 0 <ℤ c.leak_detection_interval)
