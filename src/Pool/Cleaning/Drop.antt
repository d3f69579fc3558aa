-- ===== src/Pool/Cleaning/Drop.antt =====
-- One connection closed by the cleanup.
use netconnpool.Prelude.{
  ℕ, ◌≤◌, ◌≡◌, Bool, false, not, ◌&&◌, ◌==◌, if◌then◌else◌, erase, arith, Option-cases,
}
use netconnpool.Prelude.{==_refl}
use netconnpool.Connection.{update_health}
use netconnpool.Pool.State.{Pool, World, on_object}
use netconnpool.Pool.Discard.{close_connection, connection_close, close_socket}
use netconnpool.Pool.Cleanup.{should_close, sweep_one}
use netconnpool.Pool.Core.Closings.{connections-close_connection}

abbrev pub drop : World → ℕ → Pool → Pool
drop w id p = (close_connection w (on_object id (update_health false p.now) p) id).0

-- What a drop leaves alone.
pub object-drop :
    (w : World) (p : Pool) (id j : ℕ) → (id == j) ≡ false → (drop w id p).object j ≡ p.object j
unfolding close_connection connection_close close_socket
object-drop w p id j h = ground (arith, Option-cases (p.object id).conn)

pub drop_rest :
    (w : World) (p : Pool) (id : ℕ)
    → (p.now ≤ (drop w id p).now) × ((drop w id p).config ≡ p.config)
unfolding close_connection connection_close close_socket
drop_rest w p id = (
  ground (arith, Option-cases (p.object id).conn),
  ground (arith, Option-cases (p.object id).conn),
)

pub connections-drop :
    (w : World) (p : Pool) (id : ℕ) → (drop w id p).connections ≡ erase id p.connections
connections-drop w p id =
    connections-close_connection w (on_object id (update_health false p.now) p) id

abbrev pub doomed : Pool → ℕ → Bool
doomed p id = not (p.object id).in_use && should_close p.config p.now (p.object id)

pub sweep_one_lem :
    (w : World) (id : ℕ) (p : Pool) → sweep_one w id p ≡ (if doomed p id then drop w id p else p)
unfolding sweep_one
sweep_one_lem w id p = ground (arith, ==_refl id)
