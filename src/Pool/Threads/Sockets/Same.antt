-- ===== src/Pool/Threads/Sockets/Same.antt =====
-- What the steps leave alone that touch neither the map nor a socket.
use netconnpool.Prelude.{[]}
use netconnpool.Prelude.{
  ℕ, ◌-◌, ◌≡◌, refl, Option, none, some, Bool, true, false, ◌||◌, ◌==◌, List, ◌∷◌, member, erase,
  erase_absent, Distinct, arith, if_cases, if◌then◌else◌,
}
use netconnpool.Stats.{record_get_time}
use netconnpool.Connection.{update_health}
use netconnpool.Pool.State.{Pool, World}
use netconnpool.Pool.Borrow.{
  Outcome, got, failed, waits, stuck, take_any, take_both, count_connection_error,
}
use netconnpool.Pool.Core.Unchanged.{elsewhere-Keeps, on_object-Keeps}
use netconnpool.Pool.Core.Closings.{connection_close-conn}
use netconnpool.Pool.Create.{insert_connection}
use netconnpool.Pool.Get.{finish_get}
use netconnpool.Pool.Discard.{connection_close, count_closed}
use netconnpool.Pool.Shutdown.{begin_close}
use netconnpool.Pool.Threads.Act.{delete}
use netconnpool.Pool.Threads.Owned.{
  opened, Handles, SameMap, Keeps-SameMap, SameMap-refl, calm, with_stats-SameMap, empty_handed,
}
use netconnpool.Pool.Threads.Defs.{Shared, Thread}
use netconnpool.Pool.State.{on_object}
use netconnpool.Pool.Put.{send_idle}
use netconnpool.Pool.Put.{count_idle}
use netconnpool.Pool.Create.{count_created}
use netconnpool.Pool.Put.{is_tcp_connection}

pub finishes-SameMap :
    (started : ℕ) (p : Pool) (o : Outcome) → SameMap p (finish_get started (p, o)).0
finishes-SameMap started p (got id) =
    with_stats-SameMap (λ now. record_get_time (now - started) now) p
finishes-SameMap started p (failed e) =
    with_stats-SameMap (λ now. record_get_time (now - started) now) p
finishes-SameMap started p (waits q) = SameMap-refl p
finishes-SameMap started p stuck = with_stats-SameMap (λ now. record_get_time (now - started) now) p

-- Taking an idle connection.
abbrev pub Taken : Pool → Option (ℕ × Pool) → Type 0
Taken p none = Unit {0}
Taken p (some (id, q)) = SameMap p q

pub take_both-Taken : (w : World) (xs ys : List ℕ) (p : Pool) → Taken p (take_both w xs ys p)
unfolding take_both
take_both-Taken w [] [] p = tt
take_both-Taken w (x ∷ xs) [] p = Keeps-SameMap (elsewhere-Keeps p)
take_both-Taken w [] (y ∷ ys) p = Keeps-SameMap (elsewhere-Keeps p)
take_both-Taken w (x ∷ xs) (y ∷ ys) p =
    if_cases (λ (r : ℕ × Pool). SameMap p r.1) (w.prefers_tcp p.asked)
      (λ h. Keeps-SameMap (elsewhere-Keeps p)) (λ h. Keeps-SameMap (elsewhere-Keeps p))

pub take_any-Taken : (w : World) (p : Pool) → Taken p (take_any w p)
unfolding take_any
take_any-Taken w p = take_both-Taken w p.idle_tcp p.idle_udp p

pub count_error-SameMap : (p : Pool) → SameMap p (count_connection_error p)
count_error-SameMap p = record { map_next_id = refl; map_connections = refl; map_conn = λ j. refl }

pub insert-member :
    (id j : ℕ) (p : Pool)
    → member j (insert_connection id p).connections ≡ ((id == j) || member j p.connections)
unfolding member
insert-member id j p = ground arith

pub insert-Distinct :
    (id : ℕ) (p : Pool) → Distinct p.connections → Distinct (insert_connection id p).connections
insert-Distinct id p d =
    if_cases (λ (q : Pool). Distinct q.connections) (member id p.connections) (λ m. d) (λ m. (m, d))

pub insert-fields :
    (id : ℕ) (p : Pool)
    → ((insert_connection id p).next_id ≡ p.next_id)
      × ((j : ℕ) → ((insert_connection id p).object j).conn ≡ (p.object j).conn)
insert-fields id p = (ground arith, λ j. ground arith)

-- What the other steps leave alone.
pub counts_created-SameMap : (id : ℕ) (p : Pool) → SameMap p (count_created (p.object id) p)
counts_created-SameMap id p = record {
  map_next_id = refl;
  map_connections = refl;
  map_conn = λ j. refl;
}

pub counts_closed-SameMap :
    (id : ℕ) (exists : Bool) (p : Pool)
    → SameMap p (if exists then count_closed (p.object id) p else p)
counts_closed-SameMap id true p = record {
  map_next_id = refl;
  map_connections = refl;
  map_conn = λ j. refl;
}
counts_closed-SameMap id false p = SameMap-refl p

pub counts_idle-SameMap : (id : ℕ) (p : Pool) → SameMap p (count_idle 1 (p.object id) p)
counts_idle-SameMap id p = record {
  map_next_id = refl;
  map_connections = refl;
  map_conn = λ j. refl;
}

pub marks-SameMap : (id : ℕ) (p : Pool) → SameMap p (on_object id (update_health false p.now) p)
marks-SameMap id p = Keeps-SameMap (on_object-Keeps id (update_health false p.now) p refl refl refl)

pub sends-SameMap : (id : ℕ) (p : Pool) → SameMap p (send_idle id p)
sends-SameMap id p =
    if_cases (SameMap p) (is_tcp_connection p id) (λ h. Keeps-SameMap (elsewhere-Keeps p))
      (λ h. Keeps-SameMap (elsewhere-Keeps p))

pub begins-SameMap : (p : Pool) → SameMap p (begin_close p)
unfolding begin_close
begins-SameMap p = record { map_next_id = refl; map_connections = refl; map_conn = λ j. refl }

pub connection_close-next_id :
    (w : World) (p : Pool) (id : ℕ) → (connection_close w p id).0.next_id ≡ p.next_id
unfolding connection_close
connection_close-next_id w p id = ground arith

pub closed_socket :
    (w : World) (p : Pool) (id j : ℕ)
    → (id == j) ≡ true
    → opened (connection_close w p id).0 j ≡ false
closed_socket w p id j e = rw (connection_close-conn w p id j, e) refl

pub other_socket :
    (w : World) (p : Pool) (id j : ℕ)
    → (id == j) ≡ false
    → opened (connection_close w p id).0 j ≡ true
    → opened p j ≡ true
other_socket w p id j e h = rw (connection_close-conn w p id j, e) at h

pub deleted : (id : ℕ) (p : Pool) → (delete id p).connections ≡ erase id p.connections
deleted id p = ground (arith, erase_absent id p.connections)

module _ {s : Shared} where
  pub still : {t u : Thread} → empty_handed t ≡ true → empty_handed u ≡ true → Handles s t (s, u)
  still e f = calm (SameMap-refl s.pool) e f
