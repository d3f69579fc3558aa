-- ===== src/Pool/Leak.antt =====
-- leak.go: `detectLeaks`, on the connections in the order of the model's map.
use netconnpool.Prelude.{ℕ, List, [], ◌∷◌, true, if◌then◌else◌, ◌&&◌}
use netconnpool.Connection.{is_leaked}
use netconnpool.Stats.{increment_leaked_connections}
use netconnpool.Pool.State.{Pool, with_stats, on_object}
use netconnpool.Prelude.{Bool}

-- The two tests of the loop.
abbrev pub leaks : Pool → ℕ → Bool
leaks p id = (p.object id).in_use && is_leaked p.config.connection_leak_timeout p.now (p.object id)

unfoldable pub detect_one : ℕ → Pool → Pool
detect_one id p =
    if leaks p id
    then with_stats increment_leaked_connections
        (on_object id (λ c. record c { leak_detected = true }) p)
    else p

unfoldable pub detect_all : List ℕ → Pool → Pool
detect_all [] p = p
detect_all (id ∷ ids) p = detect_all ids (detect_one id p)

unfoldable pub detect_leaks : Pool → Pool
detect_leaks p = detect_all p.connections p
