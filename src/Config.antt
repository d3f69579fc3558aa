-- ===== src/Config.antt =====
-- config.go: the configuration of a pool, its defaults and its validation. A function-valued field
-- is modelled by whether it is set; what the function does is a parameter of the modules that call
-- it. Durations are in nanoseconds.
pub mod Acceptable
pub mod Normalised
pub mod Validate
pub mod Kept
pub mod Accepting
pub mod Lost
use netconnpool.Prelude.{
  ℕ, ◌*◌, ◌≡◌, Option, none, some, Bool, true, false, not, ◌&&◌, if◌then◌else◌,
}
use netconnpool.Prelude.Int.{ℤ, pos, ltb_ℤ, leb_ℤ, is_pos, half}
use netconnpool.Errors.{Error}
use netconnpool.Mode.{PoolMode, client, server, other}

-- The field `Acceptor`: nil, `defaultAcceptor`, or a function of the caller's.
pub data Acceptor : Type 0 where
  missing default_acceptor custom : Acceptor

pub record Config : Type 0 where
  pub mode : PoolMode
  pub max_connections : ℤ
  pub min_connections : ℤ
  pub max_idle_connections : ℤ
  pub connection_timeout : ℤ
  pub idle_timeout : ℤ
  pub max_lifetime : ℤ
  pub get_connection_timeout : ℤ
  pub health_check_interval : ℤ
  pub health_check_timeout : ℤ
  pub connection_leak_timeout : ℤ
  pub leak_detection_interval : ℤ
  pub dialer : Bool
  pub listener : Bool
  pub acceptor : Acceptor
  pub health_checker : Bool
  pub close_conn : Bool
  pub on_created : Bool
  pub on_borrow : Bool
  pub on_return : Bool
  pub enable_stats : Bool
  pub enable_health_check : Bool
  pub clear_udp_buffer_on_return : Bool
  pub udp_buffer_clear_timeout : ℤ
  pub max_buffer_clear_packets : ℤ

abbrev pub millisecond : ℕ
millisecond = 1_000_000

abbrev pub second : ℕ
second = 1_000_000_000

abbrev pub minute : ℕ
minute = 60_000_000_000

-- `DefaultConfig`
abbrev pub default_config : Config
default_config = record {
  mode = client;
  max_connections = pos 10;
  min_connections = pos 2;
  max_idle_connections = pos 10;
  connection_timeout = pos (10 * second);
  idle_timeout = pos (5 * minute);
  max_lifetime = pos (30 * minute);
  get_connection_timeout = pos (5 * second);
  health_check_interval = pos (30 * second);
  health_check_timeout = pos (3 * second);
  connection_leak_timeout = pos (5 * minute);
  leak_detection_interval = pos 0;
  dialer = false;
  listener = false;
  acceptor = missing;
  health_checker = false;
  close_conn = false;
  on_created = false;
  on_borrow = false;
  on_return = false;
  enable_stats = true;
  enable_health_check = true;
  clear_udp_buffer_on_return = true;
  udp_buffer_clear_timeout = pos (100 * millisecond);
  max_buffer_clear_packets = pos 100;
}

-- `DefaultServerConfig`
abbrev pub default_server_config : Config
default_server_config = record default_config {
  mode = server;
  max_connections = pos 100;
  min_connections = pos 0;
  max_idle_connections = pos 50;
}

default_if_missing : Acceptor → Acceptor
default_if_missing missing = default_acceptor
default_if_missing default_acceptor = default_acceptor
default_if_missing custom = custom

-- The `switch c.Mode` of `Validate`; `none` is its `return ErrInvalidConfig`.
check_mode : PoolMode → Config → Option Config
unfolding default_if_missing
check_mode client c = if c.dialer then some c else none
check_mode server c =
    if c.listener then some (record c { acceptor = default_if_missing c.acceptor }) else none
check_mode (other _) c = none

cap_idle : Config → Config
cap_idle c =
    if is_pos c.max_idle_connections
      && is_pos c.max_connections
      && ltb_ℤ c.max_connections c.max_idle_connections
    then record c { max_idle_connections = c.max_connections }
    else c

cap_health_check_timeout : Config → Config
cap_health_check_timeout c =
    if is_pos c.health_check_interval && ltb_ℤ c.health_check_interval c.health_check_timeout
    then record c { health_check_timeout = half c.health_check_interval }
    else c

default_packets : Config → Config
default_packets c =
    if leb_ℤ c.max_buffer_clear_packets (pos 0)
    then record c { max_buffer_clear_packets = pos 100 }
    else c

-- The two `if`s that keep the interval between a second and a minute.
clamp_interval : ℤ → ℤ
clamp_interval d =
    let e = if ltb_ℤ d (pos second) then pos second else d in
    if ltb_ℤ (pos minute) e then pos minute else e

default_leak_interval : Config → Config
default_leak_interval c =
    if leb_ℤ c.leak_detection_interval (pos 0) && is_pos c.connection_leak_timeout
    then record c { leak_detection_interval = clamp_interval (half c.connection_leak_timeout) }
    else c

-- The fields that `Validate` fills in or caps, in its order.
pub normalise : Config → Config
unfolding cap_idle cap_health_check_timeout default_packets default_leak_interval
normalise c = default_leak_interval (default_packets (cap_health_check_timeout (cap_idle c)))

check_bounds : Config → Config × Option Error
check_bounds c =
    if ltb_ℤ c.min_connections (pos 0)
    then (c, some Error.invalid_config)
    else if is_pos c.max_connections && ltb_ℤ c.max_connections c.min_connections
    then (c, some Error.invalid_config)
    else if leb_ℤ c.max_idle_connections (pos 0)
    then (c, some Error.invalid_config)
    else if leb_ℤ c.connection_timeout (pos 0)
    then (c, some Error.invalid_config)
    else (normalise c, none)

-- `Config.Validate`: the configuration as it leaves it, and its error.
pub validate : Config → Config × Option Error
validate c = elim (check_mode c.mode c) [
  | none ↦ (c, some Error.invalid_config)
  | some c' ↦ check_bounds c'
]
