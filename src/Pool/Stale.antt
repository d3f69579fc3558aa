-- ===== src/Pool/Stale.antt =====
-- An idle connection that is no longer valid, and the counters of idle connections.
use netconnpool.Prelude.{ℕ, ◌≡◌, ◌∙◌, ap, some, false, List, [], ◌∷◌, arith, Option-cases}
use netconnpool.Pool.State.{Pool, World, is_connection_valid}
use netconnpool.Pool.Discard.{close_connection, connection_close, close_socket}
use netconnpool.Pool.Borrow.{again, take_any, take_both}
use netconnpool.Pool.Get.{timeout_turn, timeout_pick}
use netconnpool.Pool.IdleCounts.{idle_tallies}
use netconnpool.Pool.Lending.Steady.{close_connection-Steady}
use netconnpool.Pool.State.{has_socket}
use netconnpool.Prelude.{==_refl, erase, refl}
use netconnpool.Pool.Core.Closings.{conn-close_connection, connections-close_connection}

tallies-close_connection_idle :
    (w : World) (p : Pool) (id : ℕ)
    → idle_tallies (close_connection w p id).0.stats ≡ idle_tallies p.stats
unfolding close_connection connection_close close_socket
tallies-close_connection_idle w p id = ground (arith, Option-cases (p.object id).conn)

module _ (w : World) (p : Pool) (id : ℕ) (rest : List ℕ) where
  abbrev shortened : Pool
  shortened = record p { idle_tcp = rest }

  take_any_tcp : p.idle_tcp ≡ id ∷ rest → p.idle_udp ≡ [] → take_any w p ≡ some (id, shortened)
  unfolding take_any take_both
  take_any_tcp a b =
      ap (λ xs. take_both w xs p.idle_udp p) a ∙ ap (λ ys. take_both w (id ∷ rest) ys p) b

  invalid_shortened : is_connection_valid p id ≡ false → is_connection_valid shortened id ≡ false
  unfolding is_connection_valid
  invalid_shortened v = v

  turn_picks : p.closed ≡ false → timeout_turn w p ≡ timeout_pick w (take_any w p) p
  unfolding timeout_turn
  turn_picks o = simp o

  pick_closes :
      is_connection_valid shortened id ≡ false
      → timeout_pick w (some (id, shortened)) p ≡ again (close_connection w shortened id).0
  unfolding timeout_pick
  pick_closes v = simp v

-- A round of the loop of GetWithTimeout in an open pool whose only idle connections are TCP ones, the
-- first of them no longer valid, takes it out of its channel and out of the map, closes its socket and goes
-- on; the counters of idle connections stay, so that they count one connection too many from then on.
pub timeout_turn_stale :
    (w : World) (p : Pool) (id : ℕ) (rest : List ℕ)
    → p.closed ≡ false
    → p.idle_tcp ≡ id ∷ rest
    → p.idle_udp ≡ []
    → is_connection_valid p id ≡ false
    → (q : Pool) × (timeout_turn w p ≡ again q)
      × (q.idle_tcp ≡ rest)
      × (q.idle_udp ≡ [])
      × (has_socket (q.object id).conn ≡ false)
      × (q.connections ≡ erase id p.connections)
      × (idle_tallies q.stats ≡ idle_tallies p.stats)
timeout_turn_stale w p id rest o a b v =
    let q = shortened w p id rest in
    let t = close_connection-Steady w q id in
    (
      (close_connection w q id).0,
      turn_picks w p id rest o
          ∙ ap (λ x. timeout_pick w x p) (take_any_tcp w p id rest a b)
          ∙ pick_closes w p id rest (invalid_shortened w p id rest v),
      t.same_tcp,
      t.same_udp ∙ b,
      rw (conn-close_connection w q id id, ==_refl id) refl,
      connections-close_connection w q id,
      tallies-close_connection_idle w q id,
    )
