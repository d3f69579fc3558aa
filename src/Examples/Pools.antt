-- ===== src/Examples/Pools.antt =====
-- A world whose dialer always answers with a TCP socket over IPv4, and pools that live in it.
use netconnpool.Prelude.{ℕ, none, some, true, false, [], ◌∷◌}
use netconnpool.Prelude.Int.{pos}
use netconnpool.Errors.{ok}
use netconnpool.Net.Addr.{NetConn, tcp_addr}
use netconnpool.Config.{Config, default_config}
use netconnpool.Pool.State.{Pool, World, new_pool}

-- The address 10.0.0.1.
abbrev pub tcp_socket : ℕ → NetConn
tcp_socket n = record {
  handle = n;
  remote_addr = some (tcp_addr (some (10 ∷ 0 ∷ 0 ∷ 1 ∷ [])));
  local_addr = none;
  is_udp_conn = false;
}

abbrev pub tcp_world : World
tcp_world = record {
  dial = λ n. ok (some (tcp_socket n));
  makes_channel = λ n. true;
  on_created = λ n. none;
  close = λ n. none;
  takes = λ n. 1000;
  done = λ n. false;
  prefers_tcp = λ n. true;
  split_host = λ t. none;
  parse_ip = λ t. none;
}

-- A client of at most two connections, of which one may be idle.
abbrev pub small_config : Config
small_config = record default_config {
  dialer = true;
  max_connections = pos 2;
  min_connections = pos 2;
  max_idle_connections = pos 1;
}

abbrev pub small_pool : Pool
small_pool = new_pool small_config 5_000
