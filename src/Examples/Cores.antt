-- ===== src/Examples/Cores.antt =====
-- The invariant of the map on concrete pools.
use netconnpool.Prelude.{some}
use netconnpool.Pool.Put.{put}
use netconnpool.Pool.Get.{get_with_timeout}
use netconnpool.Pool.Run.{gets, puts, warms, start, next}
use netconnpool.Pool.Core.{Core}
use netconnpool.Pool.Core.Reached.{Reach-Core}
use netconnpool.Pool.WarmUp.{warm_up}
use netconnpool.Examples.Pools.{tcp_world, small_pool}

-- Warmed up, one connection lent, and given back.
Reach-Core_example :
    Core (put tcp_world (get_with_timeout tcp_world (warm_up tcp_world small_pool)).0 (some 1)).0
Reach-Core_example =
    Reach-Core (next (next (next (start 5_000) (warms small_pool)) (gets _)) (puts (some 1) _))
