-- ===== src/Pool/Closing.antt =====
-- What `Close` leaves behind, and what it does to the waiters.
use netconnpool.Prelude.{
  ℕ, ◌≡◌, refl, ◌∙◌, ap, Option, none, Bool, true, false, ◌==◌, List, [], ◌∷◌, member, arith,
  Bool-cases, inl, inr,
}
use netconnpool.Errors.{Error}
use netconnpool.Pool.State.{Pool, World, Queue, any, v4, v6, tcp, udp, WaitChan, has_socket}
use netconnpool.Pool.Shutdown.{
  close, begin_close, close_connections, close_wait_queues, close_wait_queue, close_idle,
  close_chans, close_all,
}
use netconnpool.Pool.Discard.{connection_close}
use netconnpool.Pool.Wait.{panicked, pool_gone, leave, drain, empty_buffer}
use netconnpool.Pool.Core.{Core}
use netconnpool.Pool.Core.Closed.{begin_close-Core, close_connections-no_socket}

-- After `Close` of an open pool in which the invariant holds, no connection ever made has an open
-- socket.
pub close-no_socket :
    (w : World) (p : Pool) (j : ℕ)
    → Core p
    → p.closed ≡ false
    → has_socket ((close w p).0.object j).conn ≡ false
unfolding close close_idle close_wait_queues close_wait_queue begin_close
close-no_socket w p j c o =
    rw o (close_connections-no_socket w (begin_close p) (begin_close-Core p c) refl j)

closed_chan : ℕ → (ℕ → WaitChan) → List ℕ → Bool
closed_chan ch chan ids = (close_chans ids chan ch).is_closed

-- A channel that is closed stays so.
close_chans_closed :
    (ids : List ℕ) (chan : ℕ → WaitChan) (ch : ℕ)
    → (chan ch).is_closed ≡ true
    → (close_chans ids chan ch).is_closed ≡ true
unfolding close_chans
close_chans_closed [] chan ch h = h
close_chans_closed (i ∷ ids) chan ch h = close_chans_closed ids _ ch (ground arith)

close_chans-member :
    (ids : List ℕ) (chan : ℕ → WaitChan) (ch : ℕ)
    → member ch ids ≡ true
    → (close_chans ids chan ch).is_closed ≡ true
unfolding close_chans member
close_chans-member [] chan ch h = cc
close_chans-member (i ∷ ids) chan ch h = elim (Bool-cases (i == ch)) [
  | inl e ↦ close_chans_closed ids _ ch (ground arith)
  | inr e ↦ close_chans-member ids _ ch (ground arith)
]

close_wait_queues-closed :
    (p : Pool) (q : Queue) (ch : ℕ)
    → member ch (p.queue q) ≡ true
    → ((close_wait_queues p).chan ch).is_closed ≡ true
unfolding close_wait_queues close_wait_queue
close_wait_queues-closed p udp ch m = close_chans-member (p.queue udp) _ ch m
close_wait_queues-closed p tcp ch m =
    close_chans_closed (p.queue udp) _ ch (close_chans-member (p.queue tcp) _ ch m)
close_wait_queues-closed p v6 ch m =
    close_chans_closed (p.queue udp) _ ch
      (close_chans_closed (p.queue tcp) _ ch (close_chans-member (p.queue v6) _ ch m))
close_wait_queues-closed p v4 ch m = close_chans_closed (p.queue udp) _ ch (
    close_chans_closed (p.queue tcp) _ ch
      (close_chans_closed (p.queue v6) _ ch (close_chans-member (p.queue v4) _ ch m)))
close_wait_queues-closed p any ch m = close_chans_closed (p.queue udp) _ ch (
    close_chans_closed (p.queue tcp) _ ch (
      close_chans_closed (p.queue v6) _ ch
        (close_chans_closed (p.queue v4) _ ch (close_chans-member (p.queue any) _ ch m))))

-- A waiter that leaves through a closed channel panics, whichever queue it joined.
leave_closed :
    (q : Queue) (started ch : ℕ) (p : Pool)
    → (p.chan ch).is_closed ≡ true
    → pool_gone q started ch p ≡ panicked
unfolding pool_gone leave drain empty_buffer
leave_closed any started ch p h = ground arith
leave_closed v4 started ch p h = ground arith
leave_closed v6 started ch p h = ground arith
leave_closed tcp started ch p h = ground arith
leave_closed udp started ch p h = ground arith

pub connection_close-queue :
    (w : World) (p : Pool) (id : ℕ) → (connection_close w p id).0.queue ≡ p.queue
unfolding connection_close
connection_close-queue w p id = ground arith

close_all-queue :
    (w : World) (ids : List ℕ) (e : Option Error) (p : Pool)
    → (close_all w ids e p).0.queue ≡ p.queue
unfolding close_all
close_all-queue w [] e p = refl
close_all-queue w (id ∷ ids) e p = close_all-queue w ids _ _ ∙ connection_close-queue w p id

-- `Close` of an open pool closes the channel of every waiter in a queue. A waiter that `Close` finds
-- in its queue, and that wakes only afterwards, therefore panics: it closes the channel again.
pub close_panics :
    (w : World) (p : Pool) (q : Queue) (started ch : ℕ)
    → p.closed ≡ false
    → member ch (p.queue q) ≡ true
    → pool_gone q started ch (close w p).0 ≡ panicked
unfolding close close_connections close_idle begin_close
close_panics w p q started ch o m = rw o (
    leave_closed q started ch _ (
      close_wait_queues-closed (close_connections w (begin_close p)).0 q ch (
        ap (λ (f : Queue → List ℕ). member ch (f q)) (close_all-queue w p.connections none _) ∙ m)))
