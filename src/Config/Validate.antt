-- ===== src/Config/Validate.antt =====
-- What `Config.Validate` accepts, and the configuration that it leaves behind.
use netconnpool.Prelude.{◌≡◌, refl, ap, ◌∙◌, ◌↔◌, none, some, arith}
use netconnpool.Prelude.Int.{pos, ◌<ℤ◌}
use netconnpool.Mode.{PoolMode, client, server, other}
use netconnpool.Config.{
  Config, Acceptor, validate, normalise, check_bounds, check_mode, default_leak_interval,
  default_packets, cap_health_check_timeout, cap_idle, default_if_missing,
}
use netconnpool.Config.Acceptable.{HasSource, IsAcceptable, IsNormal}
use netconnpool.Config.Normalised.{CheckWithin, IdleWithin, LeakInterval, normalise-IsNormal}

check_sound : (m : PoolMode) (c : Config) → c.mode ≡ m → (validate c).1 ≡ none → IsAcceptable c
unfolding validate check_mode check_bounds
check_sound client c e h = ground arith
check_sound server c e h = ground arith
check_sound (other n) c e h = ground arith

check_complete : (m : PoolMode) (c : Config) → c.mode ≡ m → IsAcceptable c → (validate c).1 ≡ none
unfolding validate check_mode check_bounds
check_complete client c e h = ground arith
check_complete server c e h = ground arith
check_complete (other n) c e h = ground arith

-- `Validate` reports no error exactly when the configuration is acceptable: its mode is client or
-- server and has its dialer or listener, 0 ≤ MinConnections, MinConnections ≤ MaxConnections unless
-- MaxConnections is unlimited, and MaxIdleConnections and ConnectionTimeout are positive.
pub validate_iff : (c : Config) → ((validate c).1 ≡ none) ↔ IsAcceptable c
validate_iff c = (check_sound c.mode c refl, check_complete c.mode c refl)

-- `Validate` on an acceptable configuration: the normalised one, with the acceptor filled in.
filled : PoolMode → Config → Config
unfolding check_mode
filled client c = c
filled server c = record c { acceptor = default_if_missing c.acceptor }
filled (other n) c = c

check_mode_accepted :
    (m : PoolMode) (c : Config)
    → HasSource m c.dialer c.listener
    → check_mode m c ≡ some (filled m c)
unfolding filled check_mode
check_mode_accepted client c h = ground arith
check_mode_accepted server c h = ground arith
check_mode_accepted (other n) c h = absurd h

check_bounds_accepted : (c : Config) → IsAcceptable c → check_bounds c ≡ (normalise c, none)
unfolding check_bounds
check_bounds_accepted c a = ground arith

filled-IsAcceptable : (m : PoolMode) (c : Config) → IsAcceptable c → IsAcceptable (filled m c)
unfolding filled
filled-IsAcceptable client c a = a
filled-IsAcceptable server c a = record {
  source = a.source;
  min_nonneg = a.min_nonneg;
  min_within = a.min_within;
  idle_positive = a.idle_positive;
  timeout_positive = a.timeout_positive;
}
filled-IsAcceptable (other n) c a = a

validate_accepted : (c : Config) → IsAcceptable c → validate c ≡ (normalise (filled c.mode c), none)
unfolding validate
validate_accepted c a =
    rw (check_mode_accepted c.mode c a.source, validate)
      (check_bounds_accepted (filled c.mode c) (filled-IsAcceptable c.mode c a))

filled_acceptor :
    (m : PoolMode) (c : Config)
    → (filled m c).mode ≡ server
    → m ≡ c.mode
    → (filled m c).acceptor ≡ Acceptor.missing
    → ⊥
unfolding filled default_if_missing
filled_acceptor client c h e = ground arith
filled_acceptor server c h e = ground arith
filled_acceptor (other n) c h e = ground arith

filled_fixed : (m : PoolMode) (c : Config) → c.mode ≡ m → IsNormal c → filled m c ≡ c
unfolding filled default_if_missing
filled_fixed client c e n = refl
filled_fixed server c e n = ground arith
filled_fixed (other k) c e n = refl

-- Nothing is changed in a configuration that needs no change.
cap_idle_fixed : (c : Config) → IdleWithin c → cap_idle c ≡ c
unfolding cap_idle
cap_idle_fixed c h = ground arith

cap_health_check_timeout_fixed : (c : Config) → CheckWithin c → cap_health_check_timeout c ≡ c
unfolding cap_health_check_timeout
cap_health_check_timeout_fixed c h = ground arith

default_packets_fixed : (c : Config) → pos 0 <ℤ c.max_buffer_clear_packets → default_packets c ≡ c
unfolding default_packets
default_packets_fixed c h = ground arith

default_leak_interval_fixed : (c : Config) → LeakInterval c → default_leak_interval c ≡ c
unfolding default_leak_interval
default_leak_interval_fixed c h = ground arith

normalise_fixed : (c : Config) → IsNormal c → normalise c ≡ c
unfolding normalise
normalise_fixed c n = rw (
  cap_idle_fixed c n.idle_within,
  cap_health_check_timeout_fixed c n.check_within,
  default_packets_fixed c n.packets_positive,
  default_leak_interval_fixed c n.leak_interval,
)

-- Where `Validate` reports no error, the configuration that it leaves is acceptable, has an acceptor
-- in server mode, keeps MaxIdleConnections within a limited MaxConnections and HealthCheckTimeout
-- within a set HealthCheckInterval, and has MaxBufferClearPackets and, with a leak timeout,
-- LeakDetectionInterval positive.
pub validate-IsNormal : (c : Config) → (validate c).1 ≡ none → IsNormal (validate c).0
validate-IsNormal c h =
    let a = check_sound c.mode c refl h in
    rw (validate_accepted c a) (
      normalise-IsNormal (filled c.mode c) (filled-IsAcceptable c.mode c a)
        (λ s. filled_acceptor c.mode c s refl))

-- A normal configuration is accepted, and not changed.
pub normal_accepted : (c : Config) → IsNormal c → validate c ≡ (c, none)
normal_accepted c n =
    validate_accepted c n.acceptable
    ∙ ap (λ d. (d, none)) (ap normalise (filled_fixed c.mode c refl n) ∙ normalise_fixed c n)

-- A configuration that `Validate` has accepted and adjusted is accepted again, and not changed.
pub validate-validate :
    (c : Config) → (validate c).1 ≡ none → validate (validate c).0 ≡ ((validate c).0, none)
validate-validate c h = normal_accepted (validate c).0 (validate-IsNormal c h)
