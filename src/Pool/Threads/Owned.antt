-- ===== src/Pool/Threads/Owned.antt =====
-- Which thread has the connection in its hands, that is not in the map though its socket is open.
use netconnpool.Prelude.{
  ℕ, ◌≤◌, ◌≡◌, refl, Bool, true, false, ◌==◌, ◌⊎◌, inl, inr, member, Distinct, arith, Bool-cases,
  if◌then◌else◌,
}
use netconnpool.Pool.State.{Pool, has_socket, with_stats}
use netconnpool.Stats.{Stats}
use netconnpool.Pool.Core.{Keeps}
use netconnpool.Pool.Threads.Defs.{
  Shared, Thread, creates, discards, shuts, create_inserts, discard_closes, shut_closes,
}

-- Connections that a thread is about to put into the map, or to close after it has taken them out.
unfoldable pub owns : Thread → ℕ → Bool
owns (creates started (create_inserts id)) j = id == j
owns (discards (discard_closes id exists) a) j = id == j
owns (shuts (shut_closes ids e)) j = member j ids
owns _ j = false

-- The connection that a thread is about to put into the map was given its ID.
unfoldable pub InsertsBelow : ℕ → Thread → Type 0
InsertsBelow n (creates started (create_inserts id)) = id ≤ n
InsertsBelow n _ = Unit {0}

-- Neither of these concerns the thread.
abbrev pub empty_handed : Thread → Bool
empty_handed (creates started (create_inserts id)) = false
empty_handed (discards (discard_closes id exists) a) = false
empty_handed (shuts (shut_closes ids e)) = false
empty_handed _ = true

abbrev pub Allocated : Pool → Type 0
Allocated p = (id : ℕ) → member id p.connections ≡ true → id ≤ p.next_id

abbrev pub opened : Pool → ℕ → Bool
opened p j = has_socket (p.object j).conn

-- A connection with an open socket is in the map or in the hands of a thread, or it was the business
-- of other threads and still is.
abbrev pub Placed : Shared → Thread → Shared × Thread → ℕ → Type 0
Placed s t r j =
    (owns r.1 j ≡ true)
    ⊎ ((member j r.0.pool.connections ≡ true)
        ⊎ ((opened s.pool j ≡ true) × (member j s.pool.connections ≡ false) × (owns t j ≡ false)))

-- What an access of a thread does to the map.
pub record Handles (s : Shared) (t : Thread) (r : Shared × Thread) : Type 0 where
  pub distinct : Distinct s.pool.connections → Distinct r.0.pool.connections
  pub grows : s.pool.next_id ≤ r.0.pool.next_id
  pub allocated :
      Allocated s.pool
      → InsertsBelow s.pool.next_id t
      → Allocated r.0.pool × InsertsBelow r.0.pool.next_id r.1
  pub placed : (j : ℕ) → opened r.0.pool j ≡ true → Placed s t r j

-- The same map, IDs and sockets.
pub record SameMap (p q : Pool) : Type 0 where
  pub map_next_id : q.next_id ≡ p.next_id
  pub map_connections : q.connections ≡ p.connections
  pub map_conn : (j : ℕ) → (q.object j).conn ≡ (p.object j).conn

pub Keeps-SameMap : {p q : Pool} → Keeps p q → SameMap p q
Keeps-SameMap k = record {
  map_next_id = k.same_next_id;
  map_connections = k.same_connections;
  map_conn = k.same_conn;
}

pub SameMap-refl : (p : Pool) → SameMap p p
SameMap-refl p = record { map_next_id = refl; map_connections = refl; map_conn = λ j. refl }

-- An access that leaves the map alone, by a thread that keeps what it owns.
module _ {s : Shared} {t : Thread} {r : Shared × Thread} (k : SameMap s.pool r.0.pool) where
  pub passes-Handles :
      ((j : ℕ) → owns t j ≡ true → owns r.1 j ≡ true)
      → ((n : ℕ) → InsertsBelow n t → InsertsBelow n r.1)
      → Handles s t r
  passes-Handles f g = record {
    distinct = λ d. rw k.map_connections d;
    grows = omega (arith, k.map_next_id);
    allocated =
        λ a b. (rw (k.map_connections, k.map_next_id) a, rw k.map_next_id (g s.pool.next_id b));
    placed = λ j h. elim (Bool-cases (owns t j)) [
      | inl o ↦ inl (f j o)
      | inr o ↦ elim (Bool-cases (member j s.pool.connections)) [
        | inl m ↦ inr (inl (rw k.map_connections m))
        | inr m ↦ inr (inr (rw (k.map_conn j) at h, m, o))
      ]
    ];
  }

pub owns_nothing : (t : Thread) → empty_handed t ≡ true → (j : ℕ) → owns t j ≡ false
unfolding owns
owns_nothing (creates started (create_inserts id)) e j = cc
owns_nothing (discards (discard_closes id exists) a) e j = cc
owns_nothing (shuts (shut_closes ids e')) e j = cc
owns_nothing _ e j = refl

inserts_nothing : (n : ℕ) (t : Thread) → empty_handed t ≡ true → InsertsBelow n t
unfolding InsertsBelow
inserts_nothing n (creates started (create_inserts id)) e = cc
inserts_nothing n (discards (discard_closes id exists) a) e = tt
inserts_nothing n (shuts (shut_closes ids e')) e = tt
inserts_nothing n _ e = tt

-- An access that leaves the map alone, by a thread that owns nothing before and after.
pub calm :
    {s : Shared} {t : Thread} {r : Shared × Thread}
    → SameMap s.pool r.0.pool
    → empty_handed t ≡ true
    → empty_handed r.1 ≡ true
    → Handles s t r
calm {s} {t} {r} k e f =
    passes-Handles k (λ j o. cc (owns_nothing t e j)) (λ n b. inserts_nothing n r.1 f)

pub if-Handles :
    {s : Shared} {t : Thread} (b : Bool) {x y : Shared × Thread}
    → Handles s t x
    → Handles s t y
    → Handles s t (if b then x else y)
if-Handles true h k = h
if-Handles false h k = k

pub with_stats-SameMap : (f : ℕ → Stats → Stats) (p : Pool) → SameMap p (with_stats f p)
with_stats-SameMap f p = record { map_next_id = refl; map_connections = refl; map_conn = λ j. refl }
