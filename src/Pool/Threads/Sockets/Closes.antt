-- ===== src/Pool/Threads/Sockets/Closes.antt =====
-- The accesses of `Close`.
use netconnpool.Prelude.{
  ℕ, refl, Option, none, Bool, true, false, ◌==◌, inl, inr, List, ◌∷◌, member, arith, Bool-cases,
  if◌then◌else◌,
}
use netconnpool.Errors.{Error}
use netconnpool.Stats.{increment_total_connections_closed}
use netconnpool.Pool.State.{World, Queue}
use netconnpool.Pool.Core.Unchanged.{elsewhere-Keeps}
use netconnpool.Pool.Core.Closings.{connection_close-connections}
use netconnpool.Pool.Discard.{connection_close}
use netconnpool.Pool.Shutdown.{first_error}
use netconnpool.Pool.Threads.Act.{shut_act}
use netconnpool.Pool.Threads.Owned.{
  owns, InsertsBelow, Handles, Keeps-SameMap, SameMap-refl, passes-Handles, calm, if-Handles,
}
use netconnpool.Pool.Threads.Defs.{
  Shared, Shutting, shuts, returned, shut_starts, shut_snapshots, shut_closes, shut_drains,
  shut_idle_tcp, shut_idle_udp, with_pool, drained, idle_tcp_drained, idle_udp_drained,
}
use netconnpool.Pool.State.{with_stats}
use netconnpool.Pool.Threads.Sockets.Same.{
  begins-SameMap, connection_close-next_id, closed_socket, other_socket, still,
}
use netconnpool.Prelude.{[]}

module _ {s : Shared} where
  drained-Handles :
      (q : Queue) (qs : List Queue) (e : Option Error) (chans : List ℕ)
      → Handles s (shuts (shut_drains (q ∷ qs) e)) (drained s q qs e chans)
  drained-Handles q qs e [] = calm (SameMap-refl s.pool) refl refl
  drained-Handles q qs e (ch ∷ rest) = calm (Keeps-SameMap (elsewhere-Keeps s.pool)) refl refl

  idle_tcp_drained-Handles :
      (e : Option Error) (ids : List ℕ)
      → Handles s (shuts (shut_idle_tcp e)) (idle_tcp_drained s e ids)
  idle_tcp_drained-Handles e [] = calm (SameMap-refl s.pool) refl refl
  idle_tcp_drained-Handles e (id ∷ ids) = calm (Keeps-SameMap (elsewhere-Keeps s.pool)) refl refl

  idle_udp_drained-Handles :
      (e : Option Error) (ids : List ℕ)
      → Handles s (shuts (shut_idle_udp e)) (idle_udp_drained s e ids)
  idle_udp_drained-Handles e [] = calm (SameMap-refl s.pool) refl refl
  idle_udp_drained-Handles e (id ∷ ids) = calm (Keeps-SameMap (elsewhere-Keeps s.pool)) refl refl

  -- `Close` takes the map, and then closes its connections.
  snapshots-Handles : Handles s (shuts shut_snapshots) (
    with_pool s (record s.pool { connections = [] }),
    shuts (shut_closes s.pool.connections none),
  )
  unfolding member owns InsertsBelow
  snapshots-Handles = record {
    distinct = λ d. tt;
    grows = omega arith;
    allocated = λ a b. (λ j m. cc, tt);
    placed = λ j h. elim (Bool-cases (member j s.pool.connections)) [
      | inl m ↦ inl m
      | inr m ↦ inr (inr (h, m, refl))
    ];
  }

  closes_one-Handles :
      (w : World) (id : ℕ) (ids : List ℕ) (e : Option Error)
      → Handles s (shuts (shut_closes (id ∷ ids) e)) (
        with_pool s
            (with_stats increment_total_connections_closed (connection_close w s.pool id).0),
        shuts (shut_closes ids (first_error e (connection_close w s.pool id).1)),
      )
  unfolding member owns InsertsBelow
  closes_one-Handles w id ids e = record {
    distinct = λ d. rw (connection_close-connections w s.pool id) d;
    grows = omega (arith, connection_close-next_id w s.pool id);
    allocated = λ al b. (
      rw (connection_close-connections w s.pool id, connection_close-next_id w s.pool id) al,
      tt,
    );
    placed = λ j h. elim (Bool-cases (id == j)) [
      | inl e ↦ cc (closed_socket w s.pool id j e)
      | inr e ↦ elim (Bool-cases (member j ids)) [
        | inl m ↦ inl m
        | inr m ↦ elim (Bool-cases (member j s.pool.connections)) [
          | inl k ↦ inr (inl (rw (connection_close-connections w s.pool id) k))
          | inr k ↦ inr (inr (other_socket w s.pool id j e h, k, rw (e, m) refl))
        ]
      ]
    ];
  }

  starts-Handles :
      (b : Bool) → Handles s (shuts shut_starts) (s, if b then returned none else shuts shut_starts)
  starts-Handles true = still refl refl
  starts-Handles false = still refl refl

  pub shut_act-Handles : (w : World) (t : Shutting) → Handles s (shuts t) (shut_act w s t)
  unfolding member owns InsertsBelow
  shut_act-Handles w shut_starts =
      if-Handles s.once (starts-Handles s.udp_shut) (calm (begins-SameMap s.pool) refl refl)
  shut_act-Handles w shut_snapshots = snapshots-Handles
  shut_act-Handles w (shut_closes [] e) =
      passes-Handles (SameMap-refl s.pool) (λ j o. cc) (λ n b. tt)
  shut_act-Handles w (shut_closes (id ∷ ids) e) = closes_one-Handles w id ids e
  shut_act-Handles w (shut_drains [] e) = still refl refl
  shut_act-Handles w (shut_drains (q ∷ qs) e) = drained-Handles q qs e (s.pool.queue q)
  shut_act-Handles w (shut_idle_tcp e) = idle_tcp_drained-Handles e s.pool.idle_tcp
  shut_act-Handles w (shut_idle_udp e) = idle_udp_drained-Handles e s.pool.idle_udp
