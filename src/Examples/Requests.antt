-- ===== src/Examples/Requests.antt =====
-- The three kinds of `Get` on the small pool.
use netconnpool.Protocol.{Protocol}
use netconnpool.IpVersion.{ipv4}
use netconnpool.Pool.Get.{get_with_timeout}
use netconnpool.Pool.Lent.Timeout.{Handed, get_with_timeout-Ends}
use netconnpool.Pool.Lent.Kinds.{OfProtocol, OfVersion, known_protocol-Serves, known_version-Serves}
use netconnpool.Pool.Lent.Lends.{Ends, Serves}
use netconnpool.Pool.GetProtocol.{get_with_known_protocol}
use netconnpool.Pool.GetVersion.{get_with_known_version}
use netconnpool.Examples.Pools.{tcp_world, small_pool}

get_with_timeout-Ends_example : Ends (Handed tcp_world) (get_with_timeout tcp_world small_pool)
get_with_timeout-Ends_example = get_with_timeout-Ends tcp_world small_pool

known_protocol-Serves_example :
    Serves (OfProtocol Protocol.tcp) (get_with_known_protocol tcp_world Protocol.tcp small_pool)
known_protocol-Serves_example = known_protocol-Serves tcp_world Protocol.tcp (λ e. cc) small_pool

known_version-Serves_example :
    Serves (OfVersion ipv4) (get_with_known_version tcp_world ipv4 small_pool)
known_version-Serves_example = known_version-Serves tcp_world ipv4 (λ e. cc) small_pool
