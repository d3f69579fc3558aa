-- ===== src/Connection.antt =====
-- connection.go: the wrapper of a socket. A pointer to a Connection is its ID, which the generator
-- gives to one object only, and the pool keeps the objects by their IDs (Pool/State). Methods take
-- the time that `time.Now` reads as `now`; the clock never goes back.
use netconnpool.Prelude.{ℕ, ◌+◌, ◌-◌, Option, Bool, true, false, not, ◌&&◌, if◌then◌else◌, ltb}
use netconnpool.Prelude.Int.{ℤ, pos_part, is_pos}
use netconnpool.Prelude.Word.{add64}
use netconnpool.Net.Addr.{NetConn}
use netconnpool.Protocol.{Protocol}
use netconnpool.IpVersion.{IpVersion}

pub record Connection : Type 0 where
  pub conn : Option NetConn
  pub protocol : Protocol
  pub ip_version : IpVersion
  pub created_at : ℕ
  pub last_used_at : ℕ
  pub last_health_check_at : ℕ
  pub is_healthy : Bool
  pub in_use : Bool
  pub leak_detected : Bool
  pub reuse_count : ℕ

-- `NewConnection`, with the protocol and the version that it detects.
abbrev pub new_connection : Option NetConn → Protocol → IpVersion → (now : ℕ) → Connection
new_connection conn protocol version now = record {
  conn = conn;
  protocol = protocol;
  ip_version = version;
  created_at = now;
  last_used_at = now;
  last_health_check_at = now;
  is_healthy = true;
  in_use = false;
  leak_detected = false;
  reuse_count = 0;
}

abbrev pub mark_in_use : (now : ℕ) → Connection → Connection
mark_in_use now c = record c { in_use = true; last_used_at = now }

abbrev pub mark_idle : (now : ℕ) → Connection → Connection
mark_idle now c = record c { in_use = false; last_used_at = now }

abbrev pub update_health : Bool → (now : ℕ) → Connection → Connection
update_health healthy now c = record c { is_healthy = healthy; last_health_check_at = now }

abbrev pub increment_reuse_count : Connection → Connection
increment_reuse_count c = record c { reuse_count = add64 c.reuse_count 1 }

-- `time.Since(t) > limit`, for a positive limit.
abbrev pub passed : (limit : ℤ) (t now : ℕ) → Bool
passed limit t now = ltb (t + pos_part limit) now

abbrev pub is_expired : (max_lifetime : ℤ) (now : ℕ) → Connection → Bool
is_expired max_lifetime now c =
    if is_pos max_lifetime then passed max_lifetime c.created_at now else false

abbrev pub is_idle_too_long : (idle_timeout : ℤ) (now : ℕ) → Connection → Bool
is_idle_too_long idle_timeout now c =
    if is_pos idle_timeout then not c.in_use && passed idle_timeout c.last_used_at now else false

abbrev pub is_leaked : (leak_timeout : ℤ) (now : ℕ) → Connection → Bool
is_leaked leak_timeout now c =
    if is_pos leak_timeout && c.in_use then passed leak_timeout c.last_used_at now else false

abbrev pub get_age : (now : ℕ) → Connection → ℕ
get_age now c = now - c.created_at

abbrev pub get_idle_time : (now : ℕ) → Connection → ℕ
get_idle_time now c = if c.in_use then 0 else now - c.last_used_at

-- `GetProtocol`, `GetIPVersion`, `GetConn`, `GetReuseCount`, `IsInUse`, `GetHealthStatus`
abbrev pub get_protocol : Connection → Protocol
get_protocol c = c.protocol

abbrev pub get_ip_version : Connection → IpVersion
get_ip_version c = c.ip_version

abbrev pub get_conn : Connection → Option NetConn
get_conn c = c.conn

abbrev pub get_reuse_count : Connection → ℕ
get_reuse_count c = c.reuse_count

abbrev pub is_in_use : Connection → Bool
is_in_use c = c.in_use

abbrev pub get_health_status : Connection → Bool
get_health_status c = c.is_healthy
