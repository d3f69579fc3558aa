-- ===== src/Pool/Refused.antt =====
-- What a closed pool does with requests and with connections that come back.
use netconnpool.Prelude.{ℕ, ◌≡◌, refl, some, true, false, erase, ==_refl}
use netconnpool.Errors.{Error}
use netconnpool.Protocol.{Protocol}
use netconnpool.IpVersion.{IpVersion}
use netconnpool.Pool.State.{Pool, World, has_socket}
use netconnpool.Pool.Put.{put}
use netconnpool.Pool.Discard.{close_connection}
use netconnpool.Pool.Borrow.{failed}
use netconnpool.Pool.Get.{get_with_timeout}
use netconnpool.Pool.GetProtocol.{get_with_protocol, get_with_known_protocol}
use netconnpool.Pool.GetVersion.{get_with_ip_version, get_with_known_version}
use netconnpool.Pool.Core.Closings.{conn-close_connection, connections-close_connection}
use netconnpool.Pool.Lending.Steady.{Steady, close_connection-Steady}

module _ (w : World) (p : Pool) (shut : p.closed ≡ true) where
  timeout_refused : get_with_timeout w p ≡ (p, failed Error.pool_closed)
  unfolding get_with_timeout
  timeout_refused = simp shut

  protocol_refused : (k : Protocol) → get_with_protocol w k p ≡ (p, failed Error.pool_closed)
  unfolding get_with_protocol get_with_known_protocol
  protocol_refused Protocol.unknown = timeout_refused
  protocol_refused Protocol.tcp = simp shut
  protocol_refused Protocol.udp = simp shut

  version_refused : (v : IpVersion) → get_with_ip_version w v p ≡ (p, failed Error.pool_closed)
  unfolding get_with_ip_version get_with_known_version
  version_refused IpVersion.unknown = timeout_refused
  version_refused IpVersion.ipv4 = simp shut
  version_refused IpVersion.ipv6 = simp shut

  put_closes : (id : ℕ) → put w p (some id) ≡ close_connection w p id
  unfolding put
  put_closes id = simp shut

-- On a closed pool, each of the three Gets fails with ErrPoolClosed and leaves the pool as it is,
-- for every protocol and IP version; and a Put closes the socket of the connection and takes it out
-- of the map, without touching the idle channels, the waiters or their channels.
pub closed_refuses :
    (w : World) (p : Pool) (k : Protocol) (v : IpVersion) (id : ℕ)
    → p.closed ≡ true
    → (get_with_timeout w p ≡ (p, failed Error.pool_closed))
      × (get_with_protocol w k p ≡ (p, failed Error.pool_closed))
      × (get_with_ip_version w v p ≡ (p, failed Error.pool_closed))
      × (has_socket ((put w p (some id)).0.object id).conn ≡ false)
      × ((put w p (some id)).0.connections ≡ erase id p.connections)
      × Steady p (put w p (some id)).0
closed_refuses w p k v id shut = (
  timeout_refused w p shut,
  protocol_refused w p shut k,
  version_refused w p shut v,
  rw (put_closes w p shut id, conn-close_connection w p id id, ==_refl id) refl,
  rw (put_closes w p shut id) (connections-close_connection w p id),
  rw (put_closes w p shut id) (close_connection-Steady w p id),
)
