-- ===== src/Pool/Active.antt =====
-- CurrentActiveConnections under the parts of the warm-up.
use netconnpool.Prelude.{
  ℕ, suc, ◌≡◌, refl, ap, ◌∙◌, Option, none, some, true, false, if_cases, length, ltb, arith,
  Option-cases, ==_refl,
}
use netconnpool.Prelude.Word.{add64, minus_one}
use netconnpool.Errors.{Error, Result, ok, err}
use netconnpool.Net.Addr.{NetConn}
use netconnpool.Prelude.{◌≤◌, ◌≢◌}
use netconnpool.Prelude.Int.{is_pos, pos_part}
use netconnpool.Config.{Config}
use netconnpool.Stats.{Stats, increment_connection_errors}
use netconnpool.Pool.State.{Pool, World, Queue, asks, at_limit, with_stats, is_connection_valid}
use netconnpool.Pool.Discard.{close_connection, connection_close, close_socket}
use netconnpool.Pool.Notify.{
  notify_wait_queue, try_queue, notify_specific_wait_queue, protocol_queue, version_queue,
}
use netconnpool.Pool.Put.{put, to_idle, hand_back, idle_chan, idle_capacity, count_idle, send_idle}
use netconnpool.Pool.Create.{create_connection, dialed, created, approved, register, lacks_source}
use netconnpool.Pool.Core.Registered.{newcomer, register-object, register-fields}

abbrev pub active : Option Stats → Option ℕ
active none = none
active (some s) = some s.current_active_connections

abbrev pub lowered : Option ℕ → Option ℕ
lowered none = none
lowered (some a) = some (add64 a minus_one)

active-close_connection :
    (w : World) (p : Pool) (id : ℕ) → active (close_connection w p id).0.stats ≡ active p.stats
unfolding close_connection connection_close close_socket
active-close_connection w p id = ground (arith, Option-cases (p.object id).conn)

pub active-hand_back :
    (id : ℕ) (p : Pool) → active (hand_back id p).stats ≡ lowered (active p.stats)
unfolding hand_back
active-hand_back id p = ground arith

stats-try_queue : (q : Option Queue) (id : ℕ) (p : Pool) → (try_queue q id p).0.stats ≡ p.stats
unfolding try_queue notify_specific_wait_queue
stats-try_queue none id p = refl
stats-try_queue (some q) id p = refl

stats-notify_wait_queue : (id : ℕ) (p : Pool) → (notify_wait_queue id p).stats ≡ p.stats
unfolding notify_wait_queue notify_specific_wait_queue
stats-notify_wait_queue id p =
    let first = try_queue (protocol_queue (p.object id).protocol) id p in
    let second = try_queue (version_queue (p.object id).ip_version) id first.0 in
    let k = stats-try_queue (protocol_queue (p.object id).protocol) id p in
    let l = stats-try_queue (version_queue (p.object id).ip_version) id first.0 in
    if_cases (λ (q : Pool). q.stats ≡ p.stats) first.1 (λ _. k)
      λ _. if_cases (λ (q : Pool). q.stats ≡ p.stats) second.1 (λ _. l ∙ k) λ _. l ∙ k

pub active-warm_error :
    (p : Pool) → active (with_stats increment_connection_errors p).stats ≡ active p.stats
active-warm_error p = ground arith

active-send :
    (id : ℕ) (p : Pool)
    → active (count_idle 1 (p.object id) (send_idle id p)).stats ≡ active p.stats
active-send id p = ground arith

pub active-to_idle :
    (w : World) (id : ℕ) (p : Pool) → active (to_idle w id p).0.stats ≡ active p.stats
unfolding to_idle
active-to_idle w id p =
    if_cases (λ (r : Pool × Option Error). active r.0.stats ≡ active p.stats)
      (ltb (length (idle_chan id p)) (idle_capacity p))
      (λ _. ap active (stats-notify_wait_queue id _) ∙ active-send id p)
      (λ _. active-close_connection w p id)

pub put_valid :
    (w : World) (id : ℕ) (p : Pool)
    → p.closed ≡ false
    → is_connection_valid p id ≡ true
    → put w p (some id) ≡ to_idle w id (hand_back id p)
unfolding put
put_valid w id p o v = simp (o, v)

-- Dialer and Acceptor answer with a socket or an error.
abbrev pub SocketsOnly : World → Type 0
SocketsOnly w = (n : ℕ) → w.dial n ≢ ok none

-- No question takes longer than a connection lives, where that is limited.
abbrev pub Prompt : World → Config → Type 0
Prompt w c = is_pos c.max_lifetime ≡ true → (n : ℕ) → w.takes n ≤ pos_part c.max_lifetime

-- A new connection is valid when it comes to `Put`, and its creation leaves the counter alone.
abbrev pub Fresh : World → Pool → Pool × Result ℕ → Type 0
Fresh w p (q, err e) = active q.stats ≡ active p.stats
Fresh w p (q, ok id) =
    (active q.stats ≡ active p.stats) × (is_connection_valid (asks w q) id ≡ true)

now-register :
    (w : World) (socket : Option NetConn) (p : Pool) → (register w socket p).0.now ≡ p.now
unfolding register
now-register w socket p = ground arith

object-register :
    (w : World) (socket : Option NetConn) (p : Pool)
    → (register w socket p).0.object (suc p.next_id) ≡ newcomer w socket p
object-register w socket p =
    register-object w socket p (suc p.next_id) ∙ simp (==_refl (suc p.next_id))

-- The connection has its socket, is healthy and was made a question ago.
register_valid :
    (w : World) (socket : NetConn) (p : Pool)
    → Prompt w p.config
    → is_connection_valid (asks w (register w (some socket) p).0) (suc p.next_id) ≡ true
unfolding is_connection_valid
register_valid w socket p h =
    let q = (register w (some socket) p).0 in
    let k = λ (e : is_pos p.config.max_lifetime ≡ true). h e q.asked in
    simp
      (
        (register-fields w (some socket) p).0,
        object-register w (some socket) p,
        now-register w (some socket) p,
      )
      (ground (arith, k))

module _ (w : World) where
  register-Fresh :
      (socket : NetConn) (p : Pool) → Prompt w p.config → Fresh w p (register w (some socket) p)
  unfolding register
  register-Fresh socket p h = (ground arith, register_valid w socket p h)

  approved-Fresh :
      (socket : NetConn) (o : Option Error) (p : Pool)
      → Prompt w p.config
      → Fresh w p (approved w (some socket) o p)
  unfolding approved
  approved-Fresh socket (some e) p h = refl
  approved-Fresh socket none p h = register-Fresh socket (asks w p) h

  dialed-Fresh :
      (r : Result (Option NetConn)) (p : Pool)
      → r ≢ ok none
      → Prompt w p.config
      → Fresh w p (dialed w r p)
  unfolding dialed created
  dialed-Fresh (err e) p n h = refl
  dialed-Fresh (ok none) p n h = absurd (n refl)
  dialed-Fresh (ok (some socket)) p n h =
      if_cases (Fresh w p) p.config.on_created
        (λ _. approved-Fresh socket (w.on_created p.asked) p h) (λ _. register-Fresh socket p h)

  pub create_connection-Fresh :
      SocketsOnly w → (p : Pool) → Prompt w p.config → Fresh w p (create_connection w p)
  unfolding create_connection
  create_connection-Fresh n p h =
      if_cases (Fresh w p) (w.done p.asked) (λ _. refl)
        λ _.
          if_cases (Fresh w p) p.closed (λ _. refl)
            λ _.
              if_cases (Fresh w p) (at_limit p) (λ _. refl)
                λ _.
                  if_cases (Fresh w p) (lacks_source p.config.mode p.config) (λ _. refl)
                    λ _. dialed-Fresh (w.dial p.asked) (asks w p) (n p.asked) h
