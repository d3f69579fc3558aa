-- ===== src/Pool/Core/Unchanged.antt =====
-- Changes of the statistics and of the objects that leave the map alone.
use netconnpool.Prelude.{ℕ, ◌≡◌, refl, Option, none, some, List, arith, ap}
use netconnpool.Connection.{Connection}
use netconnpool.Stats.{Stats}
use netconnpool.Pool.State.{Pool, Queue, WaitChan, Effect, with_stats, on_object}
use netconnpool.Pool.Core.Defs.{Keeps, tallies, tally}
use netconnpool.Prelude.{Bool}

-- Statistics that are not the mirroring counters.
pub with_stats-Keeps :
    (f : ℕ → Stats → Stats) (p : Pool)
    → ((s : Stats) → tally (f p.now s) ≡ tally s)
    → Keeps p (with_stats f p)
with_stats-Keeps f p h = record {
  same_config = refl;
  same_next_id = refl;
  same_connections = refl;
  same_closed = refl;
  same_conn = λ id. refl;
  same_protocol = λ id. refl;
  same_version = λ id. refl;
  same_tally = kept p.stats;
}
  where
    kept :
        (o : Option Stats)
        → tallies (elim o [ none ↦ none | some s ↦ some (f p.now s) ]) ≡ tallies o
    kept none = refl
    kept (some s) = ap some (h s)

-- A method that changes neither the socket nor the kinds of its connection.
pub on_object-Keeps :
    (id : ℕ) (f : Connection → Connection) (p : Pool)
    → (f (p.object id)).conn ≡ (p.object id).conn
    → (f (p.object id)).protocol ≡ (p.object id).protocol
    → (f (p.object id)).ip_version ≡ (p.object id).ip_version
    → Keeps p (on_object id f p)
on_object-Keeps id f p a b c = record {
  same_config = refl;
  same_next_id = refl;
  same_connections = refl;
  same_closed = refl;
  same_conn = λ j. ground arith;
  same_protocol = λ j. ground arith;
  same_version = λ j. ground arith;
  same_tally = refl;
}

-- A change of the channels, the queues, the clock and the effects only.
pub elsewhere-Keeps :
    (p : Pool) {a b : List ℕ} {q : Queue → List ℕ} {c : ℕ → WaitChan} {n t k : ℕ} {es : List Effect}
    {crash : Bool}
    → Keeps p (record p {
      idle_tcp = a;
      idle_udp = b;
      queue = q;
      chan = c;
      next_chan = n;
      now = t;
      asked = k;
      effects = es;
      crashed = crash;
    })
elsewhere-Keeps p = record {
  same_config = refl;
  same_next_id = refl;
  same_connections = refl;
  same_closed = refl;
  same_conn = λ id. refl;
  same_protocol = λ id. refl;
  same_version = λ id. refl;
  same_tally = refl;
}
