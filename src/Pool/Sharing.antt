-- ===== src/Pool/Sharing.antt =====
-- A connection that `Put` hands to a waiter also stays in its idle channel.
use netconnpool.Prelude.{
  ℕ, ◌-◌, ◌<◌, ◌≡◌, ap, ◌∙◌, Option, none, some, true, false, List, [], ◌∷◌, ◌++◌, length, ltb,
  arith,
}
use netconnpool.Errors.{Error}
use netconnpool.Protocol.{Protocol}
use netconnpool.Pool.State.{
  Pool, World, tcp, WaitChan, is_connection_valid, set_queue, update_at, with_stats,
}
use netconnpool.Pool.Notify.{
  can_send, offer, notify_specific_wait_queue, try_queue, notify_wait_queue,
}
use netconnpool.Pool.Put.{put, to_idle, hand_back, idle_capacity, idle_chan, count_idle, send_idle}
use netconnpool.Pool.Borrow.{got, take_any, take_both}
use netconnpool.Pool.Get.{get_with_timeout, timeout_loop, timeout_turn, timeout_pick}
use netconnpool.Stats.{record_get_time}
use netconnpool.Pool.Wait.{
  returned, receive, delivered, empty_buffer, accept, leave, count_delivery,
}

-- A TCP connection in good order, an idle channel with room for it, and a waiter for a TCP
-- connection at the head of its queue.
pub record Awaited (p : Pool) (id ch : ℕ) (rest : List ℕ) : Type 0 where
  pub open_ : p.closed ≡ false
  pub valid : is_connection_valid p id ≡ true
  pub is_tcp : (p.object id).protocol ≡ Protocol.tcp
  pub room : length p.idle_tcp < idle_capacity p
  pub waiter : p.queue tcp ≡ ch ∷ rest
  pub ready : can_send (p.chan ch) ≡ true

-- What a notification of the first TCP waiter changes.
abbrev notified : ℕ → ℕ → List ℕ → Pool → Pool
notified id ch rest s =
    set_queue tcp rest
      (record s { chan = update_at s.chan ch (record { buffer = some id; is_closed = false }) })

offer_ready :
    (chan : ℕ → WaitChan) (id ch : ℕ) (rest : List ℕ)
    → can_send (chan ch) ≡ true
    → offer chan id (ch ∷ rest)
      ≡ (rest, update_at chan ch (record { buffer = some id; is_closed = false }), true)
unfolding offer
offer_ready chan id ch rest r = ground arith

notify_tcp :
    (s : Pool) (id ch : ℕ) (rest : List ℕ)
    → (s.object id).protocol ≡ Protocol.tcp
    → s.queue tcp ≡ ch ∷ rest
    → can_send (s.chan ch) ≡ true
    → notify_wait_queue id s ≡ notified id ch rest s
unfolding notify_wait_queue try_queue notify_specific_wait_queue
notify_tcp s id ch rest k e r = simp (k, e, offer_ready s.chan id ch rest r)

module _ (p : Pool) (id : ℕ) where
  pub hand_back_channels :
      ((hand_back id p).idle_tcp ≡ p.idle_tcp)
      × ((hand_back id p).idle_udp ≡ p.idle_udp)
      × ((hand_back id p).queue ≡ p.queue)
      × ((hand_back id p).chan ≡ p.chan)
  unfolding hand_back
  hand_back_channels = (ground arith, ground arith, ground arith, ground arith)

  pub hand_back_kept :
      (((hand_back id p).object id).protocol ≡ (p.object id).protocol)
      × ((hand_back id p).config ≡ p.config)
      × ((hand_back id p).closed ≡ p.closed)
      × (is_connection_valid (hand_back id p) id ≡ is_connection_valid p id)
  unfolding hand_back is_connection_valid
  hand_back_kept = (ground arith, ground arith, ground arith, ground arith)

send_idle_tcp :
    (id : ℕ) (s : Pool)
    → (s.object id).protocol ≡ Protocol.tcp
    → send_idle id s ≡ record s { idle_tcp = s.idle_tcp ++ id ∷ [] }
send_idle_tcp id s k = simp k

idle_room :
    (id : ℕ) (s : Pool)
    → (s.object id).protocol ≡ Protocol.tcp
    → length s.idle_tcp < idle_capacity s
    → ltb (length (idle_chan id s)) (idle_capacity s) ≡ true
idle_room id s k room = simp k (ground arith)

-- The `select` of `Put`, where a TCP waiter is notified.
abbrev handed_over : ℕ → ℕ → List ℕ → Pool → Pool
handed_over id ch rest s =
    notified id ch rest (count_idle 1 (s.object id) (record s { idle_tcp = s.idle_tcp ++ id ∷ [] }))

to_idle_notifies :
    (w : World) (s : Pool) (id ch : ℕ) (rest : List ℕ)
    → (s.object id).protocol ≡ Protocol.tcp
    → length s.idle_tcp < idle_capacity s
    → s.queue tcp ≡ ch ∷ rest
    → can_send (s.chan ch) ≡ true
    → to_idle w id s ≡ (handed_over id ch rest s, none)
unfolding to_idle
to_idle_notifies w s id ch rest k room e r = simp (idle_room id s k room) (
    ap (λ u. (u, none))
      (ap (λ u. notify_wait_queue id (count_idle 1 (s.object id) u)) (send_idle_tcp id s k)
        ∙ notify_tcp (count_idle 1 (s.object id) (record s { idle_tcp = s.idle_tcp ++ id ∷ [] })) id
            ch rest k e r))

put_notifies :
    (w : World) (p : Pool) (id ch : ℕ) (rest : List ℕ)
    → Awaited p id ch rest
    → put w p (some id) ≡ (handed_over id ch rest (hand_back id p), none)
unfolding put
put_notifies w p id ch rest a =
    simp (a.open_, a.valid)
      (to_idle_notifies w (hand_back id p) id ch rest (rw (hand_back_kept p id).0 a.is_tcp)
        (rw ((hand_back_channels p id).0, (hand_back_kept p id).1) a.room)
        (rw (hand_back_channels p id).2 a.waiter) (rw (hand_back_channels p id).3 a.ready))

-- A waiter for a TCP connection finds one in its channel, in good order.
delivered_tcp :
    (w : World) (q : Pool) (started ch id : ℕ)
    → (q.chan ch) ≡ record { buffer = some id; is_closed = false }
    → (q.object id).protocol ≡ Protocol.tcp
    → is_connection_valid q id ≡ true
    → (r : Pool) × (receive w tcp started ch q ≡ returned r (got id))
      × (r.idle_tcp ≡ q.idle_tcp)
      × (r.idle_udp ≡ q.idle_udp)
      × (r.closed ≡ q.closed)
      × (is_connection_valid r id ≡ true)
unfolding receive delivered empty_buffer accept leave count_delivery is_connection_valid
delivered_tcp w q started ch id e k v = (
  with_stats (λ now. record_get_time (now - started) now)
      (record (accept tcp id (empty_buffer ch q)) {
        chan = update_at (empty_buffer ch q).chan ch (record { buffer = none; is_closed = true });
      }),
  ground arith,
  ground arith,
  ground arith,
  ground arith,
  ground arith,
)

get_takes_tcp :
    (w : World) (r : Pool) (id : ℕ)
    → r.closed ≡ false
    → r.idle_tcp ≡ id ∷ []
    → r.idle_udp ≡ []
    → is_connection_valid r id ≡ true
    → (get_with_timeout w r).1 ≡ got id
unfolding get_with_timeout timeout_loop timeout_turn timeout_pick take_any take_both
    is_connection_valid
get_takes_tcp w r id o t u v = ground arith

module _ (w : World) (p : Pool) (id ch : ℕ) (rest : List ℕ) (a : Awaited p id ch rest) where
  handed : Pool
  handed = (put w p (some id)).0

  handed_lem : handed ≡ handed_over id ch rest (hand_back id p)
  unfolding handed
  handed_lem = ap (λ (x : Pool × Option Error). x.0) (put_notifies w p id ch rest a)

  handed_valid : is_connection_valid (handed_over id ch rest (hand_back id p)) id ≡ true
  unfolding is_connection_valid
  handed_valid = unfold is_connection_valid in (hand_back_kept p id).3 ∙ a.valid

  -- `Put` of a TCP connection in good order, in an open pool with room in the idle channel and a
  -- waiter for a TCP connection: the waiter's channel holds the connection, and so does the idle
  -- channel, at its end.
  pub put-shares :
      (((put w p (some id)).0.chan ch).buffer ≡ some id)
      × ((put w p (some id)).0.idle_tcp ≡ p.idle_tcp ++ id ∷ [])
  unfolding handed
  put-shares = rw handed_lem (ground (arith, hand_back_channels p id))

  -- When no other connection was idle, the waiter gets the connection, and the next `GetWithTimeout`
  -- gets the same one while the waiter has it.
  pub put-lends_twice :
      (started : ℕ)
      → p.idle_tcp ≡ []
      → p.idle_udp ≡ []
      → (r : Pool) × (receive w tcp started ch (put w p (some id)).0 ≡ returned r (got id))
        × ((get_with_timeout w r).1 ≡ got id)
  unfolding handed
  put-lends_twice started t u =
      let (r, e, f, g, h, v) =
        delivered_tcp w (handed_over id ch rest (hand_back id p)) started ch id (ground arith)
          ((hand_back_kept p id).0 ∙ a.is_tcp) handed_valid in
      (
        r,
        rw handed_lem e,
        get_takes_tcp w r id (h ∙ (hand_back_kept p id).2 ∙ a.open_)
            (f ∙ ap (λ xs. xs ++ id ∷ []) ((hand_back_channels p id).0 ∙ t))
            (g ∙ (hand_back_channels p id).1 ∙ u) v,
      )
