-- ===== src/Pool/Lending/Steady.antt =====
-- The steps that change neither the channels, the waiters, nor which connections are in use.
use netconnpool.Prelude.{ℕ, ◌≡◌, ◌∙◌, Bool, arith, Option-cases}
use netconnpool.Connection.{update_health}
use netconnpool.Stats.{Stats}
use netconnpool.Pool.State.{Pool, World, with_stats, on_object}
use netconnpool.Pool.Discard.{close_connection, connection_close, close_socket}
use netconnpool.Pool.Put.{clear_udp}

pub record Steady (p q : Pool) : Type 0 where
  pub same_config : q.config ≡ p.config
  pub same_closed : q.closed ≡ p.closed
  pub same_next_id : q.next_id ≡ p.next_id
  pub same_tcp : q.idle_tcp ≡ p.idle_tcp
  pub same_udp : q.idle_udp ≡ p.idle_udp
  pub same_queue : q.queue ≡ p.queue
  pub same_chan : q.chan ≡ p.chan
  pub same_next_chan : q.next_chan ≡ p.next_chan
  pub same_use : (id : ℕ) → (q.object id).in_use ≡ (p.object id).in_use

pub Steady-refl : (p : Pool) → Steady p p
Steady-refl p = ground arith

pub Steady-trans : {p q r : Pool} → Steady p q → Steady q r → Steady p r
Steady-trans s t = record {
  same_config = t.same_config ∙ s.same_config;
  same_closed = t.same_closed ∙ s.same_closed;
  same_next_id = t.same_next_id ∙ s.same_next_id;
  same_tcp = t.same_tcp ∙ s.same_tcp;
  same_udp = t.same_udp ∙ s.same_udp;
  same_queue = t.same_queue ∙ s.same_queue;
  same_chan = t.same_chan ∙ s.same_chan;
  same_next_chan = t.same_next_chan ∙ s.same_next_chan;
  same_use = λ id. t.same_use id ∙ s.same_use id;
}

pub with_stats-Steady : (f : ℕ → Stats → Stats) (p : Pool) → Steady p (with_stats f p)
with_stats-Steady f p = ground arith

pub clear_udp-Steady : (id : ℕ) (p : Pool) → Steady p (clear_udp id p)
clear_udp-Steady id p = ground arith

pub update_health-Steady :
    (id now : ℕ) (h : Bool) (p : Pool) → Steady p (on_object id (update_health h now) p)
update_health-Steady id now h p = ground arith

pub close_connection-Steady : (w : World) (p : Pool) (id : ℕ) → Steady p (close_connection w p id).0
unfolding close_connection connection_close close_socket
close_connection-Steady w p id = ground (arith, Option-cases (p.object id).conn)
