-- ===== src/Pool/Threads/Sockets/Gets.antt =====
-- The accesses of `GetWithTimeout` and `createConnection`.
use netconnpool.Prelude.{
  ℕ, suc, ◌≡◌, refl, Option, none, some, true, false, ◌&&◌, ◌==◌, inl, inr, member, ltb, arith,
  Bool-cases, eq_of_==,
}
use netconnpool.Errors.{Error, Result, ok, err}
use netconnpool.Stats.{increment_total_get_requests}
use netconnpool.Net.Addr.{NetConn}
use netconnpool.Pool.State.{Pool, World, at_limit, is_connection_valid, asks}
use netconnpool.Pool.Borrow.{take_any}
use netconnpool.Pool.Core.Unchanged.{elsewhere-Keeps}
use netconnpool.Pool.Core.Kept.{lend_idle-Keeps, lend_new-Keeps, clear_udp-Keeps}
use netconnpool.Pool.Create.{allocate, insert_connection}
use netconnpool.Pool.Put.{clear_udp}
use netconnpool.Pool.Racing.{permits}
use netconnpool.Pool.Threads.Act.{get_act, create_act}
use netconnpool.Pool.Threads.Owned.{
  owns, InsertsBelow, Handles, SameMap, Keeps-SameMap, SameMap-refl, calm, with_stats-SameMap,
  if-Handles,
}
use netconnpool.Pool.Threads.Defs.{
  Shared, Getting, Creating, gets, creates, get_starts, get_tests, get_takes, get_measures,
  get_checks, get_reuses, get_lends, create_acquires, create_tests, create_measures, create_dials,
  create_asks, create_makes, create_inserts, create_counts, create_ends, with_pool, taken,
  select_idle, dial_answered, hook_answered, creation_ended,
}
use netconnpool.Pool.Create.{lacks_source}
use netconnpool.Pool.Threads.Defs.{get_ends}
use netconnpool.Pool.Threads.Sockets.Same.{
  finishes-SameMap, Taken, take_any-Taken, count_error-SameMap, insert-member, insert-Distinct,
  insert-fields, counts_created-SameMap, still,
}

module _ {s : Shared} where
  taken-Handles :
      (started : ℕ) (o : Option (ℕ × Pool))
      → Taken s.pool o
      → Handles s (gets started get_takes) (taken started s o)
  taken-Handles started none h = still refl refl
  taken-Handles started (some (id, p)) h = calm h refl refl

  select_idle-Handles :
      (started : ℕ) (w : World) → Handles s (gets started get_takes) (select_idle started w s)
  select_idle-Handles started w =
      if-Handles (s.tcp_shut && w.prefers_tcp s.pool.asked)
        (calm (Keeps-SameMap (elsewhere-Keeps s.pool)) refl refl)
        (taken-Handles started (take_any w s.pool) (take_any-Taken w s.pool))

  pub get_act-Handles :
      (started : ℕ) (w : World) (t : Getting) → Handles s (gets started t) (get_act w started s t)
  get_act-Handles started w get_starts =
      if-Handles s.pool.closed (still refl refl)
        (calm (with_stats-SameMap increment_total_get_requests s.pool) refl refl)
  get_act-Handles started w get_tests = if-Handles s.pool.closed (still refl refl) (still refl refl)
  get_act-Handles started w get_takes = select_idle-Handles started w
  get_act-Handles started w get_measures =
      if-Handles (at_limit s.pool) (still refl refl) (still refl refl)
  get_act-Handles started w (get_checks id) =
      if-Handles (is_connection_valid s.pool id) (still refl refl) (still refl refl)
  get_act-Handles started w (get_reuses id) =
      calm (Keeps-SameMap (lend_idle-Keeps id s.pool)) refl refl
  get_act-Handles started w (get_lends id) =
      calm (Keeps-SameMap (lend_new-Keeps id s.pool)) refl refl
  get_act-Handles started w (get_ends o) = calm (finishes-SameMap started s.pool o) refl refl

  dial_answered-Handles :
      (started : ℕ) (p : Pool)
      → SameMap s.pool p
      → (o : Result (Option NetConn))
      → Handles s (creates started create_dials) (dial_answered started (with_pool s p) o)
  dial_answered-Handles started p k (err e) = calm k refl refl
  dial_answered-Handles started p k (ok socket) =
      if-Handles p.config.on_created (calm k refl refl) (calm k refl refl)

  hook_answered-Handles :
      (started : ℕ) (w : World) (socket : Option NetConn) (o : Option Error)
      → Handles s (creates started (create_asks socket)) (hook_answered started w s socket o)
  hook_answered-Handles started w socket none =
      calm (Keeps-SameMap (elsewhere-Keeps s.pool)) refl refl
  hook_answered-Handles started w none (some e) =
      calm (Keeps-SameMap (elsewhere-Keeps s.pool)) refl refl
  hook_answered-Handles started w (some socket) (some e) =
      calm (Keeps-SameMap (elsewhere-Keeps s.pool)) refl refl

  creation_ended-Handles :
      (started : ℕ) (r : Result ℕ)
      → Handles s (creates started (create_ends r)) (creation_ended started s r)
  creation_ended-Handles started (ok id) = calm (SameMap-refl s.pool) refl refl
  creation_ended-Handles started (err Error.max_connections_reached) =
      calm (count_error-SameMap s.pool) refl refl
  creation_ended-Handles started (err e) = calm (count_error-SameMap s.pool) refl refl

  makes-Handles :
      (started : ℕ) (w : World) (socket : Option NetConn)
      → Handles s (creates started (create_makes socket)) (
        with_pool s (allocate w socket s.pool),
        creates started (create_inserts (suc s.pool.next_id)),
      )
  unfolding owns InsertsBelow
  makes-Handles started w socket = record {
    distinct = λ d. d;
    grows = omega arith;
    allocated = λ a b. (λ id m. omega (arith, a id m), omega arith);
    placed = λ j h. elim (Bool-cases (suc s.pool.next_id == j)) [
      | inl e ↦ inl e
      | inr e ↦ elim (Bool-cases (member j s.pool.connections)) [
        | inl m ↦ inr (inl m)
        | inr m ↦ inr (inr (ground arith, m, refl))
      ]
    ];
  }

  inserts-Handles :
      (started : ℕ) (id : ℕ) (p : Pool)
      → SameMap s.pool p
      → Handles s
          (creates started (create_inserts id))
          (with_pool s (insert_connection id p), creates started (create_counts id))
  unfolding owns InsertsBelow
  inserts-Handles started id p k = record {
    distinct = λ d. insert-Distinct id p (rw k.map_connections d);
    grows = omega (arith, (insert-fields id p).0, k.map_next_id);
    allocated = λ a b. (
      λ j m. elim (Bool-cases (id == j)) [
        | inl e ↦ omega (arith, eq_of_== id j e, (insert-fields id p).0, k.map_next_id)
        | inr e ↦ omega (arith, a j (inserted j e m), (insert-fields id p).0, k.map_next_id)
      ],
      tt,
    );
    placed = λ j h. elim (Bool-cases (id == j)) [
      | inl e ↦ inr (inl (rw (insert-member id j p, e)))
      | inr e ↦ elim (Bool-cases (member j s.pool.connections)) [
        | inl m ↦ inr (inl (rw (insert-member id j p, k.map_connections, m, e) refl))
        | inr m ↦ inr (inr (rw ((insert-fields id p).1 j, k.map_conn j) at h, m, e))
      ]
    ];
  }
    where
      inserted :
          (j : ℕ)
          → (id == j) ≡ false
          → member j (insert_connection id p).connections ≡ true
          → member j s.pool.connections ≡ true
      inserted j e m = rw (insert-member id j p, e, k.map_connections) at m

  pub create_act-Handles :
      (started : ℕ) (w : World) (t : Creating)
      → Handles s (creates started t) (create_act w started s t)
  create_act-Handles started w create_acquires =
      if-Handles (w.done s.pool.asked) (calm (count_error-SameMap s.pool) refl refl) (
        if-Handles (ltb s.permits permits) (calm (SameMap-refl s.pool) refl refl) (still refl refl))
  create_act-Handles started w create_tests =
      if-Handles s.pool.closed (still refl refl) (still refl refl)
  create_act-Handles started w create_measures =
      if-Handles (at_limit s.pool) (still refl refl) (still refl refl)
  create_act-Handles started w create_dials =
      if-Handles (lacks_source s.pool.config.mode s.pool.config) (still refl refl) (
        dial_answered-Handles started (asks w s.pool) (Keeps-SameMap (elsewhere-Keeps s.pool))
          (w.dial s.pool.asked))
  create_act-Handles started w (create_asks socket) =
      hook_answered-Handles started w socket (w.on_created s.pool.asked)
  create_act-Handles started w (create_makes socket) = makes-Handles started w socket
  create_act-Handles started w (create_inserts id) =
      inserts-Handles started id (clear_udp id s.pool) (Keeps-SameMap (clear_udp-Keeps id s.pool))
  create_act-Handles started w (create_counts id) =
      calm (counts_created-SameMap id s.pool) refl refl
  create_act-Handles started w (create_ends r) = creation_ended-Handles started r
