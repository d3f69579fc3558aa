-- ===== src/Pool/Core/Closed.antt =====
-- `Close` keeps the invariant of the map, which it leaves empty with every socket closed.
use netconnpool.Prelude.{
  ℕ, ◌+◌, ◌-◌, ◌%◌, ◌^◌, ◌≡◌, refl, ◌∙◌, Option, none, some, true, false, inl, inr, ◌⊎◌,
  if◌then◌else◌, List, [], ◌∷◌, length, member, ltb, arith, Bool-cases,
}
use netconnpool.Prelude.Word.{add64, minus_one}
use netconnpool.Errors.{Error}
use netconnpool.Stats.{Stats, increment_total_connections_closed}
use netconnpool.Pool.State.{Pool, World, Queue, has_socket, with_stats}
use netconnpool.Pool.Discard.{connection_close}
use netconnpool.Pool.Shutdown.{
  begin_close, close_all, close_connections, close_wait_queues, close_wait_queue, close_idle,
  first_error,
}
use netconnpool.Pool.Core.Defs.{Core, Keeps, Tally, tallies, Agrees}
use netconnpool.Pool.Core.Unchanged.{elsewhere-Keeps}
use netconnpool.Pool.Core.Closings.{connection_close-conn, connection_close-connections}

pub begin_close-Core : (p : Pool) → Core p → Core (begin_close p)
unfolding begin_close
begin_close-Core p c = record {
  distinct = c.distinct;
  allocated = c.allocated;
  listed = c.listed;
  within = c.within;
  agrees = go (tallies p.stats) c.agrees;
}
  where
    go : (o : Option Tally) → Agrees o p → Agrees o (record p { closed = true })
    go none a = tt
    go (some t) a = record {
      current_count = a.current_count;
      balance = a.balance;
      kinds = λ open_. cc;
    }

-- After the loop, the sockets of its connections are closed and the others are as before.
close_all-conn :
    (w : World) (ids : List ℕ) (e : Option Error) (p : Pool) (j : ℕ)
    → ((close_all w ids e p).0.object j).conn ≡ (if member j ids then none else (p.object j).conn)
unfolding close_all member
close_all-conn w [] e p j = refl
close_all-conn w (id ∷ ids) e p j = ground (
  arith,
  close_all-conn w ids (first_error e (connection_close w p id).1)
      (with_stats increment_total_connections_closed (connection_close w p id).0) j,
  connection_close-conn w p id j,
)

-- The connections left to close, and the counters.
abbrev Closing : List ℕ → Option Tally → Type 0
Closing ids none = Unit {0}
Closing ids (some t) = (t.current ≡ length ids % 2 ^ 64) × (t.created ≡ add64 t.discarded t.current)

closing_step :
    (t d c n : ℕ)
    → (t ≡ (n + 1) % 2 ^ 64) × (c ≡ add64 d t)
    → (add64 t minus_one ≡ n % 2 ^ 64) × (c ≡ add64 (add64 d 1) (add64 t minus_one))
unfolding add64
closing_step t d c n h = (omega arith, omega arith)

Closing-stats :
    (id : ℕ) (ids : List ℕ) (now : ℕ) (o : Option Stats)
    → Closing (id ∷ ids) (tallies o)
    → Closing ids (
        tallies (elim o [ none ↦ none | some s ↦ some (increment_total_connections_closed now s) ]))
Closing-stats id ids now none h = tt
Closing-stats id ids now (some s) h =
    elim (Bool-cases (ltb (now - s.last_update_time) 100_000_000)) [
      | inl e ↦ rw e (
          closing_step s.current_connections s.total_connections_closed s.total_connections_created
            (length ids) (omega arith))
      | inr e ↦ rw e (
          closing_step s.current_connections s.total_connections_closed s.total_connections_created
            (length ids) (omega arith))
    ]

connection_close-stats :
    (w : World) (p : Pool) (id : ℕ) → (connection_close w p id).0.stats ≡ p.stats
unfolding connection_close
connection_close-stats w p id = ground arith

close_all-Closing :
    (w : World) (ids : List ℕ) (e : Option Error) (p : Pool)
    → Closing ids (tallies p.stats)
    → Closing [] (tallies (close_all w ids e p).0.stats)
unfolding close_all
close_all-Closing w [] e p h = h
close_all-Closing w (id ∷ ids) e p h = close_all-Closing w ids _ _ (
    Closing-stats id ids _ (connection_close w p id).0.stats (rw (connection_close-stats w p id) h))

-- The loop leaves the map, the IDs, `closed` and the configuration alone.
module _ (w : World) where
  close_all-connections :
      (ids : List ℕ) (e : Option Error) (p : Pool)
      → (close_all w ids e p).0.connections ≡ p.connections
  unfolding close_all
  close_all-connections [] e p = refl
  close_all-connections (id ∷ ids) e p =
      close_all-connections ids _ _ ∙ connection_close-connections w p id

  connection_close-closed : (p : Pool) (id : ℕ) → (connection_close w p id).0.closed ≡ p.closed
  unfolding connection_close
  connection_close-closed p id = ground arith

  close_all-closed :
      (ids : List ℕ) (e : Option Error) (p : Pool) → (close_all w ids e p).0.closed ≡ p.closed
  unfolding close_all
  close_all-closed [] e p = refl
  close_all-closed (id ∷ ids) e p = close_all-closed ids _ _ ∙ connection_close-closed p id

module _ (w : World) (p : Pool) (c : Core p) (shut : p.closed ≡ true) where
  abbrev after_close : Pool
  after_close = (close_connections w p).0

  after_close-connections : after_close.connections ≡ []
  unfolding close_connections
  after_close-connections =
      close_all-connections w p.connections none (record p { connections = [] })

  after_close-closed : (close_connections w p).0.closed ≡ true
  unfolding close_connections
  after_close-closed = close_all-closed w p.connections none (record p { connections = [] }) ∙ shut

  -- After `Close` no connection, in the map or not, has an open socket.
  pub close_connections-no_socket : (j : ℕ) → has_socket (after_close.object j).conn ≡ false
  unfolding close_connections
  close_connections-no_socket j =
      rw (close_all-conn w p.connections none (record p { connections = [] }) j)
        (elim (Bool-cases (member j p.connections)) [
          | inl m ↦ rw m
          | inr m ↦ rw m (unlisted m (Bool-cases (has_socket (p.object j).conn)))
        ])
    where
      unlisted :
          member j p.connections ≡ false
          → (has_socket (p.object j).conn ≡ true) ⊎ (has_socket (p.object j).conn ≡ false)
          → has_socket (p.object j).conn ≡ false
      unlisted m (inl h) = cc (c.listed j h)
      unlisted m (inr h) = h

  after_close-Agrees : (o : Option Tally) → Closing [] o → Agrees o after_close
  after_close-Agrees none h = tt
  after_close-Agrees (some t) h = record {
    current_count = rw after_close-connections h.0;
    balance = h.1;
    kinds = λ open_. absurd (no_open open_);
  }
    where
      no_open : (close_connections w p).0.closed ≡ false → ⊥
      no_open e = cc after_close-closed

  to_Closing : (o : Option Tally) → Agrees o p → Closing p.connections o
  to_Closing none a = tt
  to_Closing (some t) a = (a.current_count, a.balance)

  pub close_connections-Core : Core after_close
  unfolding close_connections member
  close_connections-Core = record {
    distinct = rw after_close-connections tt;
    allocated = rw after_close-connections (λ j m. cc);
    listed = λ j h. cc (close_connections-no_socket j);
    within = rw after_close-connections (λ h. omega arith);
    agrees = after_close-Agrees _ (
        close_all-Closing w p.connections none (record p { connections = [] })
          (to_Closing (tallies p.stats) c.agrees));
  }

close_wait_queue-Keeps : (q : Queue) (p : Pool) → Keeps p (close_wait_queue q p)
unfolding close_wait_queue
close_wait_queue-Keeps q p = elsewhere-Keeps p

pub close_wait_queues-Keeps : (p : Pool) → Keeps p (close_wait_queues p)
unfolding close_wait_queues close_wait_queue
close_wait_queues-Keeps p = elsewhere-Keeps p

pub close_idle-Keeps : (p : Pool) → Keeps p (close_idle p)
unfolding close_idle
close_idle-Keeps p = elsewhere-Keeps p
