-- ===== src/Pool/Cleanup.antt =====
-- cleanup.go: `performCleanup` and `enforceMaxIdleConnections`, on the connections in the order of
-- the model's map.
use netconnpool.Prelude.{
  ℕ, zero, suc, ◌+◌, ◌-◌, ◌%◌, ◌^◌, Option, none, some, List, [], ◌∷◌, Bool, false, not, ◌&&◌, ◌||◌,
  length, ltb, erase, if◌then◌else◌,
}
use netconnpool.Prelude.Int.{ℤ, pos, pos_part, neg_part, leb_ℤ}
use netconnpool.Errors.{Error}
use netconnpool.Config.{Config}
use netconnpool.Connection.{Connection, is_expired, is_idle_too_long, get_idle_time, update_health}
use netconnpool.Stats.{increment_current_idle_connections}
use netconnpool.Pool.State.{Pool, World, with_stats, on_object}
use netconnpool.Pool.Discard.{close_connection}

abbrev pub should_close : Config → (now : ℕ) → Connection → Bool
should_close config now c =
    is_expired config.max_lifetime now c
    || is_idle_too_long config.idle_timeout now c
    || (config.enable_health_check && not c.is_healthy)

-- `removeFromIdlePool` marks the connection, and always answers false.
abbrev pub remove_from_idle_pool : ℕ → Pool → Pool
remove_from_idle_pool id p = on_object id (update_health false p.now) p

abbrev pub close_if_idle : World → ℕ → Pool → Pool
close_if_idle w id p = if (p.object id).in_use then p else (close_connection w p id).0

unfoldable pub sweep_one : World → ℕ → Pool → Pool
sweep_one w id p =
    if (p.object id).in_use
    then p
    else if should_close p.config p.now (p.object id)
    then close_if_idle w id (remove_from_idle_pool id p)
    else p

unfoldable pub sweep : World → List ℕ → Pool → Pool
sweep w [] p = p
sweep w (id ∷ ids) p = sweep w ids (sweep_one w id p)

unfoldable pub not_in_use : Pool → List ℕ → List ℕ
not_in_use p [] = []
not_in_use p (id ∷ ids) =
    let rest = not_in_use p ids in if (p.object id).in_use then rest else id ∷ rest

-- The first of the connections with the longest idle time.
unfoldable pub longest_idle : (idle_time : ℕ → ℕ) (best : ℕ) → List ℕ → ℕ
longest_idle idle_time best [] = best
longest_idle idle_time best (id ∷ ids) =
    longest_idle idle_time (if ltb (idle_time best) (idle_time id) then id else best) ids

-- The loop that moves `excess` connections to `toClose`.
unfoldable pub choose : (idle_time : ℕ → ℕ) (excess : ℕ) → List ℕ → List ℕ
choose idle_time zero ids = []
choose idle_time (suc excess) [] = []
choose idle_time (suc excess) (id ∷ ids) =
    let longest = longest_idle idle_time id ids in
    longest ∷ choose idle_time excess (erase longest (id ∷ ids))

-- The numbers of connections to close, of `count` idle ones.
abbrev pub excess_of : ℤ → (idle_count : ℕ) → ℕ
excess_of limit idle_count =
    let excess = (idle_count + neg_part limit) - pos_part limit in
    if ltb idle_count excess then idle_count else excess

abbrev pub count_if_closed : Option Error → ℕ → ℕ
count_if_closed none n = suc n
count_if_closed (some e) n = n

unfoldable pub close_one : World → ℕ → Pool × ℕ → Pool × ℕ
close_one w id (p, n) =
    if (p.object id).in_use
    then (p, n)
    else let (p1, e) = close_connection w (on_object id (update_health false p.now) p) id in
      (p1, count_if_closed e n)

-- The loop that closes them, with the count of those closed without an error.
unfoldable pub close_chosen : World → List ℕ → Pool × ℕ → Pool × ℕ
close_chosen w [] r = r
close_chosen w (id ∷ ids) r = close_chosen w ids (close_one w id r)

unfoldable pub count_closed_idle : Pool × ℕ → Pool
count_closed_idle (p, n) =
    if ltb 0 n
    then with_stats (increment_current_idle_connections ((2 ^ 64 - n % 2 ^ 64) % 2 ^ 64)) p
    else p

unfoldable pub close_excess : World → List ℕ → Pool → Pool
close_excess w idle p =
    if leb_ℤ (pos (length idle)) p.config.max_idle_connections
    then p
    else count_closed_idle (
        close_chosen w
          (choose (λ id. get_idle_time p.now (p.object id))
            (excess_of p.config.max_idle_connections (length idle)) idle)
          (p, 0))

unfoldable pub enforce_max_idle_connections : World → Pool → Pool
enforce_max_idle_connections w p = elim p.stats [
  | none ↦ p
  | some s ↦ close_excess w (not_in_use p p.connections) p
]

unfoldable pub perform_cleanup : World → Pool → Pool
perform_cleanup w p = enforce_max_idle_connections w (sweep w p.connections p)
