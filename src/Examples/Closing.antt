-- ===== src/Examples/Closing.antt =====
-- `Close` of a pool with a connection and a waiter.
use netconnpool.Prelude.{◌≡◌, false}
use netconnpool.Pool.Core.{Core}
use netconnpool.Pool.Core.Reached.{Reach-Core}
use netconnpool.Pool.Run.{start, next, gets}
use netconnpool.Pool.State.{tcp}
use netconnpool.Pool.Shutdown.{close}
use netconnpool.Pool.Wait.{pool_gone, panicked}
use netconnpool.Errors.{Error}
use netconnpool.Protocol.{Protocol}
use netconnpool.IpVersion.{IpVersion}
use netconnpool.Pool.Get.{get_with_timeout}
use netconnpool.Pool.GetProtocol.{get_with_protocol}
use netconnpool.Pool.GetVersion.{get_with_ip_version}
use netconnpool.Pool.Put.{put}
use netconnpool.Pool.Borrow.{failed}
use netconnpool.Pool.Lending.Steady.{Steady}
use netconnpool.Pool.Started.{closed-close}
use netconnpool.Pool.Refused.{closed_refuses}
use netconnpool.Prelude.{true, some, erase}
use netconnpool.Pool.Closing.{close-no_socket, close_panics}
use netconnpool.Examples.Lent.{lent_pool, lent_pool-AsLent, no_waiters}
use netconnpool.Pool.Run.{joins}
use netconnpool.Examples.Pools.{tcp_world, small_pool}
use netconnpool.Pool.State.{has_socket}

lent_pool-Core : Core lent_pool
lent_pool-Core = Reach-Core (next (next (start 5_000) (gets small_pool)) (joins tcp _ no_waiters))

close-no_socket_example : has_socket ((close tcp_world lent_pool).0.object 1).conn ≡ false
close-no_socket_example =
    close-no_socket tcp_world lent_pool 1 lent_pool-Core lent_pool-AsLent.open_

close_panics_example : pool_gone tcp 5_000 0 (close tcp_world lent_pool).0 ≡ panicked
close_panics_example =
    close_panics tcp_world lent_pool tcp 5_000 0 lent_pool-AsLent.open_ lent_pool-AsLent.waits

closed_pool : (close tcp_world lent_pool).0.closed ≡ true
closed_pool = closed-close tcp_world lent_pool

closed_refuses_example :
    (get_with_timeout tcp_world (close tcp_world lent_pool).0
      ≡ ((close tcp_world lent_pool).0, failed Error.pool_closed))
    × (get_with_protocol tcp_world Protocol.udp (close tcp_world lent_pool).0
        ≡ ((close tcp_world lent_pool).0, failed Error.pool_closed))
    × (get_with_ip_version tcp_world IpVersion.ipv6 (close tcp_world lent_pool).0
        ≡ ((close tcp_world lent_pool).0, failed Error.pool_closed))
    × (has_socket ((put tcp_world (close tcp_world lent_pool).0 (some 1)).0.object 1).conn ≡ false)
    × ((put tcp_world (close tcp_world lent_pool).0 (some 1)).0.connections
        ≡ erase 1 (close tcp_world lent_pool).0.connections)
    × Steady (close tcp_world lent_pool).0 (put tcp_world (close tcp_world lent_pool).0 (some 1)).0
closed_refuses_example =
    closed_refuses tcp_world (close tcp_world lent_pool).0 Protocol.udp IpVersion.ipv6 1 closed_pool
