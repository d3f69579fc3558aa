-- ===== src/Pool/WarmUp.antt =====
-- pool.go: `warmUp`.
use netconnpool.Prelude.{ℕ, zero, suc, some}
use netconnpool.Prelude.Int.{pos_part}
use netconnpool.Errors.{Result, ok, err}
use netconnpool.Mode.{PoolMode, client, server, other}
use netconnpool.Stats.{increment_connection_errors}
use netconnpool.Pool.State.{Pool, World, asks, with_stats}
use netconnpool.Pool.Put.{put}
use netconnpool.Pool.Create.{create_connection}

-- One round of the loop, in which time passes before `Put`; `Put` closes the connection where it
-- fails.
unfoldable pub warm_one : World → Pool × Result ℕ → Pool
warm_one w (p, err e) = with_stats increment_connection_errors p
warm_one w (p, ok id) = (put w (asks w p) (some id)).0

unfoldable pub warm_loop : World → ℕ → Pool → Pool
warm_loop w zero p = p
warm_loop w (suc n) p = warm_loop w n (warm_one w (create_connection w p))

-- A MinConnections of 0 or less gives no round.
unfoldable pub warm_mode : World → PoolMode → Pool → Pool
warm_mode w server p = p
warm_mode w client p = warm_loop w (pos_part p.config.min_connections) p
warm_mode w (other n) p = warm_loop w (pos_part p.config.min_connections) p

unfoldable pub warm_up : World → Pool → Pool
warm_up w p = warm_mode w p.config.mode p
