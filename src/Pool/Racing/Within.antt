-- ===== src/Pool/Racing/Within.antt =====
-- How far creations that overlap go over the limit.
use netconnpool.Prelude.{
  ℕ, suc, ◌+◌, ◌≤◌, ◌≡◌, ◌∙◌, refl, ap, Option, none, some, true, length, arith, if_cases,
  length-erase-le,
}
use netconnpool.Prelude.Int.{is_pos, pos_part}
use netconnpool.Errors.{Error, Result, ok, err}
use netconnpool.Net.Addr.{NetConn}
use netconnpool.Config.{Config}
use netconnpool.Pool.State.{Pool, World, asks}
use netconnpool.Pool.Create.{dialed, created, approved, register}
use netconnpool.Pool.Discard.{close_connection, connection_close, close_socket}
use netconnpool.Pool.Core.Created.{room_of}
use netconnpool.Pool.Racing.{Racing, Move, begins, ends, discards, Races, start, next}
use netconnpool.Pool.Lending.Steady.{close_connection-Steady}
use netconnpool.Prelude.{Option-cases}

-- The configuration stays, and the map grows by one connection at most.
record Grows (p q : Pool) : Type 0 where
  grows_config : q.config ≡ p.config
  grows_length : length q.connections ≤ suc (length p.connections)

register-Grows : (w : World) (socket : Option NetConn) (p : Pool) → Grows p (register w socket p).0
unfolding register
register-Grows w socket p = record { grows_config = ground arith; grows_length = ground arith }

approved-Grows :
    (w : World) (socket : Option NetConn) (e : Option Error) (p : Pool)
    → Grows p (approved w socket e p).0
unfolding approved
approved-Grows w socket none p =
    let g = register-Grows w socket (asks w p) in
    record { grows_config = g.grows_config; grows_length = g.grows_length }
approved-Grows w none (some e) p = record { grows_config = refl; grows_length = omega arith }
approved-Grows w (some socket) (some e) p = record {
  grows_config = refl;
  grows_length = omega arith;
}

dialed-Grows : (w : World) (r : Result (Option NetConn)) (p : Pool) → Grows p (dialed w r p).0
unfolding dialed created
dialed-Grows w (err e) p = record { grows_config = refl; grows_length = omega arith }
dialed-Grows w (ok socket) p =
    if_cases (λ (r : Pool × Result ℕ). Grows p r.0) p.config.on_created
      (λ _. approved-Grows w socket (w.on_created p.asked) p) (λ _. register-Grows w socket p)

length-close_connection :
    (w : World) (p : Pool) (id : ℕ)
    → length (close_connection w p id).0.connections ≤ length p.connections
unfolding close_connection connection_close close_socket
length-close_connection w p id =
    ground (arith, Option-cases (p.object id).conn, length-erase-le id p.connections)

record Bounded (config : Config) (r : Racing) : Type 0 where
  bounded_config : r.pool.config ≡ config
  bounded :
      is_pos config.max_connections ≡ true
      → length r.pool.connections + r.dialing ≤ pos_part config.max_connections + 4

Move-Bounded :
    {w : World} {config : Config} {r s : Racing} → Move w r s → Bounded config r → Bounded config s
Move-Bounded (begins r room t) b = record {
  bounded_config = b.bounded_config;
  bounded = λ h. omega (
    arith,
    room,
    room_of r.pool (ground (arith, t))
        (ap (λ (c : Config). is_pos c.max_connections) b.bounded_config ∙ h),
    ap (λ (c : Config). pos_part c.max_connections) b.bounded_config,
  );
}
Move-Bounded {w} (ends p n) b =
    let g = dialed-Grows w (w.dial p.asked) (asks w p) in
    record {
      bounded_config = g.grows_config ∙ b.bounded_config;
      bounded = λ h. omega (arith, g.grows_length, b.bounded h);
    }
Move-Bounded {w} (discards id r) b = record {
  bounded_config = (close_connection-Steady w r.pool id).same_config ∙ b.bounded_config;
  bounded = λ h. omega (arith, length-close_connection w r.pool id, b.bounded h);
}

Races-Bounded : {w : World} {config : Config} {r : Racing} → Races w config r → Bounded config r
Races-Bounded (start now) = record { bounded_config = refl; bounded = λ h. omega arith }
Races-Bounded (next t m) = Move-Bounded m (Races-Bounded t)

-- Where MaxConnections is limited, the connections in the map and the creations under way are
-- together at most four more than the limit, whatever goroutines create and close connections.
pub Races_within :
    {w : World} {config : Config} {r : Racing}
    → Races w config r
    → is_pos config.max_connections ≡ true
    → length r.pool.connections + r.dialing ≤ pos_part config.max_connections + 4
Races_within t h = (Races-Bounded t).bounded h
