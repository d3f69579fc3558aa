-- ===== src/Pool/Threads/Sockets/Discards.antt =====
-- The accesses of `closeConnection`.
use netconnpool.Prelude.{
  ℕ, ◌≡◌, refl, Option, Bool, ◌==◌, inl, inr, member, erase, erase-Distinct, member_of_member-erase,
  member-erase_ne, arith, Bool-cases, if◌then◌else◌,
}
use netconnpool.Errors.{Error}
use netconnpool.Pool.State.{Pool, World}
use netconnpool.Pool.Core.Closings.{connection_close-connections}
use netconnpool.Pool.Discard.{connection_close, count_closed}
use netconnpool.Pool.Threads.Act.{delete, discard_act}
use netconnpool.Pool.Threads.Owned.{owns, InsertsBelow, Handles, calm}
use netconnpool.Pool.Threads.Defs.{
  Shared, After, Discarding, discards, discard_marks, discard_deletes, discard_closes,
  discard_counts, next_round, returns_error, returns_nothing, with_pool, after,
}
use netconnpool.Pool.Threads.Sockets.Same.{
  counts_closed-SameMap, marks-SameMap, connection_close-next_id, closed_socket, other_socket,
  deleted,
}

module _ {s : Shared} where
  -- Deleting an ID from the map, which the thread then owns.
  deletes-Handles :
      (id : ℕ) (exists : Bool) (a : After) (p : Pool)
      → p.next_id ≡ s.pool.next_id
      → p.connections ≡ erase id s.pool.connections
      → ((j : ℕ) → (p.object j).conn ≡ (s.pool.object j).conn)
      → Handles s
          (discards (discard_deletes id) a)
          (with_pool s p, discards (discard_closes id exists) a)
  unfolding owns InsertsBelow
  deletes-Handles id exists a p n c o = record {
    distinct = λ d. rw c (erase-Distinct id s.pool.connections d);
    grows = omega (arith, n);
    allocated = λ al b. (
      λ j m. omega (arith, n, al j (member_of_member-erase j id s.pool.connections (rw c at m))),
      tt,
    );
    placed = λ j h. elim (Bool-cases (id == j)) [
      | inl e ↦ inl e
      | inr e ↦ elim (Bool-cases (member j s.pool.connections)) [
        | inl m ↦ inr (inl (rw (c, member-erase_ne j id s.pool.connections e) m))
        | inr m ↦ inr (inr (rw (o j) at h, m, refl))
      ]
    ];
  }

  closes-Handles :
      (w : World) (id : ℕ) (exists : Bool) (a : After)
      → Handles s (discards (discard_closes id exists) a) (
        with_pool s (connection_close w s.pool id).0,
        discards (discard_counts id exists (connection_close w s.pool id).1) a,
      )
  unfolding owns InsertsBelow
  closes-Handles w id exists a = record {
    distinct = λ d. rw (connection_close-connections w s.pool id) d;
    grows = omega (arith, connection_close-next_id w s.pool id);
    allocated = λ al b. (
      rw (connection_close-connections w s.pool id, connection_close-next_id w s.pool id) al,
      tt,
    );
    placed = λ j h. elim (Bool-cases (id == j)) [
      | inl e ↦ cc (closed_socket w s.pool id j e)
      | inr e ↦ elim (Bool-cases (member j s.pool.connections)) [
        | inl m ↦ inr (inl (rw (connection_close-connections w s.pool id) m))
        | inr m ↦ inr (inr (other_socket w s.pool id j e h, m, e))
      ]
    ];
  }

  after-Handles :
      (id : ℕ) (exists : Bool) (e : Option Error) (a : After)
      → Handles s (discards (discard_counts id exists e) a) (
        with_pool s (if exists then count_closed (s.pool.object id) s.pool else s.pool),
        after a e,
      )
  after-Handles id exists e (next_round started) =
      calm (counts_closed-SameMap id exists s.pool) refl refl
  after-Handles id exists e returns_error = calm (counts_closed-SameMap id exists s.pool) refl refl
  after-Handles id exists e returns_nothing =
      calm (counts_closed-SameMap id exists s.pool) refl refl

  pub discard_act-Handles :
      (w : World) (a : After) (t : Discarding) → Handles s (discards t a) (discard_act w a s t)
  discard_act-Handles w a (discard_marks id) = calm (marks-SameMap id s.pool) refl refl
  discard_act-Handles w a (discard_deletes id) =
      deletes-Handles id (member id s.pool.connections) a (delete id s.pool) (ground arith)
        (deleted id s.pool) (λ j. ground arith)
  discard_act-Handles w a (discard_closes id exists) = closes-Handles w id exists a
  discard_act-Handles w a (discard_counts id exists e) = after-Handles id exists e a
