-- ===== src/Pool/Uncrashed.antt =====
-- pool.go: what `warmUp` calls where Dialer and Acceptor answer with a socket or an error. No method
-- of a nil socket is called.
use netconnpool.Prelude.{
  ℕ, zero, suc, ◌≡◌, ◌≢◌, refl, ◌∙◌, Option, none, some, if_cases, length, ltb, not, arith,
  Option-cases,
}
use netconnpool.Errors.{Error, Result, ok, err}
use netconnpool.Net.Addr.{NetConn}
use netconnpool.Mode.{PoolMode, client, server, other}
use netconnpool.Pool.State.{Pool, World, Queue, asks, at_limit, is_connection_valid}
use netconnpool.Pool.Discard.{close_connection, connection_close, close_socket}
use netconnpool.Pool.Notify.{
  notify_wait_queue, try_queue, notify_specific_wait_queue, protocol_queue, version_queue,
}
use netconnpool.Pool.Put.{put, to_idle, hand_back, idle_chan, idle_capacity}
use netconnpool.Pool.Create.{create_connection, dialed, created, approved, register, lacks_source}
use netconnpool.Pool.WarmUp.{warm_one, warm_loop, warm_mode, warm_up}
use netconnpool.Pool.Active.{SocketsOnly}

-- The flag stays.
abbrev Same : Pool → Pool → Type 0
Same p q = q.crashed ≡ p.crashed

abbrev SameFirst {ℓ} : {A : Type ℓ} → Pool → Pool × A → Type 0
SameFirst p r = Same p r.0

close_connection-Same : (w : World) (p : Pool) (id : ℕ) → Same p (close_connection w p id).0
unfolding close_connection connection_close close_socket
close_connection-Same w p id = ground (arith, Option-cases (p.object id).conn)

hand_back-Same : (id : ℕ) (p : Pool) → Same p (hand_back id p)
unfolding hand_back
hand_back-Same id p = ground arith

try_queue-Same : (q : Option Queue) (id : ℕ) (p : Pool) → Same p (try_queue q id p).0
unfolding try_queue notify_specific_wait_queue
try_queue-Same none id p = refl
try_queue-Same (some q) id p = refl

notify_wait_queue-Same : (id : ℕ) (p : Pool) → Same p (notify_wait_queue id p)
unfolding notify_wait_queue notify_specific_wait_queue
notify_wait_queue-Same id p =
    let first = try_queue (protocol_queue (p.object id).protocol) id p in
    let second = try_queue (version_queue (p.object id).ip_version) id first.0 in
    let k = try_queue-Same (protocol_queue (p.object id).protocol) id p in
    let l = try_queue-Same (version_queue (p.object id).ip_version) id first.0 in
    if_cases (Same p) first.1 (λ _. k) λ _. if_cases (Same p) second.1 (λ _. l ∙ k) λ _. l ∙ k

to_idle-Same : (w : World) (id : ℕ) (p : Pool) → Same p (to_idle w id p).0
unfolding to_idle
to_idle-Same w id p =
    if_cases (SameFirst p) (ltb (length (idle_chan id p)) (idle_capacity p))
      (λ _. notify_wait_queue-Same id _ ∙ ground arith) (λ _. close_connection-Same w p id)

put-Same : (w : World) (p : Pool) (id : ℕ) → Same p (put w p (some id)).0
unfolding put
put-Same w p id =
    if_cases (SameFirst p) p.closed (λ _. close_connection-Same w p id)
      λ _.
        if_cases (SameFirst p) (not (is_connection_valid p id)) (λ _. close_connection-Same w p id)
          (λ _. to_idle-Same w id (hand_back id p) ∙ hand_back-Same id p)

module _ (w : World) where
  register-Same : (socket : NetConn) (p : Pool) → SameFirst p (register w (some socket) p)
  unfolding register
  register-Same socket p = ground arith

  approved-Same :
      (socket : NetConn) (o : Option Error) (p : Pool) → SameFirst p (approved w (some socket) o p)
  unfolding approved
  approved-Same socket (some e) p = refl
  approved-Same socket none p = register-Same socket (asks w p)

  dialed-Same : (r : Result (Option NetConn)) (p : Pool) → r ≢ ok none → SameFirst p (dialed w r p)
  unfolding dialed created
  dialed-Same (err e) p n = refl
  dialed-Same (ok none) p n = absurd (n refl)
  dialed-Same (ok (some socket)) p n =
      if_cases (SameFirst p) p.config.on_created
        (λ _. approved-Same socket (w.on_created p.asked) p) (λ _. register-Same socket p)

module _ (w : World) (sockets : SocketsOnly w) where
  create_connection-Same : (p : Pool) → SameFirst p (create_connection w p)
  unfolding create_connection
  create_connection-Same p =
      if_cases (SameFirst p) (w.done p.asked) (λ _. refl)
        λ _.
          if_cases (SameFirst p) p.closed (λ _. refl)
            λ _.
              if_cases (SameFirst p) (at_limit p) (λ _. refl)
                λ _.
                  if_cases (SameFirst p) (lacks_source p.config.mode p.config) (λ _. refl)
                    λ _. dialed-Same w (w.dial p.asked) (asks w p) (sockets p.asked)

  warm_one-Same : (q : Pool) (r : Result ℕ) → Same q (warm_one w (q, r))
  unfolding warm_one
  warm_one-Same q (err e) = refl
  warm_one-Same q (ok id) = put-Same w (asks w q) id

  warm_loop-Same : (n : ℕ) (p : Pool) → Same p (warm_loop w n p)
  unfolding warm_loop
  warm_loop-Same zero p = refl
  warm_loop-Same (suc n) p =
      let c = create_connection w p in
      warm_loop-Same n (warm_one w c) ∙ warm_one-Same c.0 c.1 ∙ create_connection-Same p

  warm_mode-Same : (m : PoolMode) (p : Pool) → Same p (warm_mode w m p)
  unfolding warm_mode
  warm_mode-Same server p = refl
  warm_mode-Same client p = warm_loop-Same _ p
  warm_mode-Same (other n) p = warm_loop-Same _ p

  pub warm_up-crashed : (p : Pool) → (warm_up w p).crashed ≡ p.crashed
  unfolding warm_up
  warm_up-crashed p = warm_mode-Same p.config.mode p
