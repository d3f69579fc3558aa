-- ===== src/Pool/Shortcuts.antt =====
-- pool.go: `Get`, `GetIPv4`, `GetIPv6`, `GetTCP`, `GetUDP`, which pass the timeout of the
-- configuration on, and `isClosed`, `getCurrentConnectionsCount`, `getAllConnections` and `Stats`.
use netconnpool.Prelude.{ℕ, Bool, List, length}
use netconnpool.Prelude.{none, some}
use netconnpool.Stats.{Stats, new_stats, get_stats}
use netconnpool.Protocol.{Protocol}
use netconnpool.IpVersion.{IpVersion}
use netconnpool.Pool.State.{Pool, World}
use netconnpool.Pool.Borrow.{Outcome}
use netconnpool.Pool.Get.{get_with_timeout}
use netconnpool.Pool.GetProtocol.{get_with_protocol}
use netconnpool.Pool.GetVersion.{get_with_ip_version}
use netconnpool.Pool.Lent.Lends.{Ends, Serves}
use netconnpool.Pool.Lent.Timeout.{Handed, get_with_timeout-Ends}
use netconnpool.Pool.Lent.Kinds.{OfProtocol, OfVersion, known_protocol-Serves, known_version-Serves}

abbrev pub get : World → Pool → Pool × Outcome
get w p = get_with_timeout w p

abbrev pub get_ipv4 : World → Pool → Pool × Outcome
get_ipv4 w p = get_with_ip_version w IpVersion.ipv4 p

abbrev pub get_ipv6 : World → Pool → Pool × Outcome
get_ipv6 w p = get_with_ip_version w IpVersion.ipv6 p

abbrev pub get_tcp : World → Pool → Pool × Outcome
get_tcp w p = get_with_protocol w Protocol.tcp p

abbrev pub get_udp : World → Pool → Pool × Outcome
get_udp w p = get_with_protocol w Protocol.udp p

abbrev pub is_closed : Pool → Bool
is_closed p = p.closed

abbrev pub get_current_connections_count : Pool → ℕ
get_current_connections_count p = length p.connections

abbrev pub get_all_connections : Pool → List ℕ
get_all_connections p = p.connections

-- `Pool.Stats`: without a collector, the zero value.
abbrev pub pool_stats : Pool → Stats × (ℕ × ℕ)
pool_stats p = elim p.stats [ none ↦ (new_stats 0, (0, 1)) | some s ↦ get_stats s ]

-- `Get`, `GetIPv4`, `GetIPv6`, `GetTCP` and `GetUDP` each end with an error, a wait, or a connection
-- that is marked as in use and has an open socket; from `Get` it may be one of no known kind instead,
-- where Dialer or Acceptor answers with neither a socket nor an error; and from the others it is of the IP version or protocol of the name.
pub shortcuts-Serves :
    (w : World) (p : Pool)
    → Ends (Handed w) (get w p)
      × Serves (OfVersion IpVersion.ipv4) (get_ipv4 w p)
      × Serves (OfVersion IpVersion.ipv6) (get_ipv6 w p)
      × Serves (OfProtocol Protocol.tcp) (get_tcp w p)
      × Serves (OfProtocol Protocol.udp) (get_udp w p)
unfolding get_with_ip_version get_with_protocol
shortcuts-Serves w p = (
  get_with_timeout-Ends w p,
  known_version-Serves w IpVersion.ipv4 (λ e. cc) p,
  known_version-Serves w IpVersion.ipv6 (λ e. cc) p,
  known_protocol-Serves w Protocol.tcp (λ e. cc) p,
  known_protocol-Serves w Protocol.udp (λ e. cc) p,
)
