-- ===== src/Pool/Lending/Protocols.antt =====
-- `GetWithProtocol` obeys the machine of lendings.
use netconnpool.Prelude.{ℕ, zero, suc, ◌+◌, Option, none, some, not, leb, if_cases}
use netconnpool.Errors.{Error, Result, ok, err}
use netconnpool.Protocol.{Protocol, protocol_eq}
use netconnpool.Stats.{increment_total_get_requests}
use netconnpool.Pool.State.{Pool, World, at_limit, is_connection_valid}
use netconnpool.Pool.Create.{create_connection}
use netconnpool.Pool.Borrow.{take_protocol}
use netconnpool.Pool.GetProtocol
use netconnpool.Pool.GetProtocol.{
  ProtocolTurn, creation_failed, creation_done, idle_taken, protocol_pick, protocol_turn,
  protocol_loop, get_with_known_protocol, get_with_protocol,
}
use netconnpool.Pool.Lending.Defs.{Once}
use netconnpool.Pool.Lending.Moves.{
  Takes, Taken, take_protocol-Takes, lend_idle_of_protocol-Hands, lend_new-Hands,
}
use netconnpool.Pool.Lending.Puts.{Created, create_connection-Created}
use netconnpool.Pool.Lending.Calls.{
  Obeys, Calm-Obeys, Calm-fails, Calm-waits, take_put, make_put, take_close,
}
use netconnpool.Pool.Lending.Returns.{
  Calm, Calm-refl, Calm-trans, Steady-Calm, take_lends, make_lends,
}
use netconnpool.Pool.Lending.Rounds.{stats-Calm, then_failure, then_error, finish_get-Obeys}
use netconnpool.Prelude.{arith}

module _ (w : World) (k : Protocol) where
  abbrev Round : Pool → ProtocolTurn → Type 0
  Round p (ProtocolTurn.retry m f q) = Calm p q
  Round p (ProtocolTurn.return q o) = Obeys p (q, o)

  creation_failed-Round :
      (e : Error) (m f : ℕ) (p q : Pool) → Calm p q → Round p (creation_failed w e m f q)
  unfolding creation_failed
  creation_failed-Round e m f p q c =
      if_cases (Round p) (leb 3 f) (λ _. Calm-fails e (then_error c))
        λ _.
          if_cases (Round p) (w.done q.asked) (λ _. Calm-fails Error.context c)
            (λ _. Calm-trans c (Steady-Calm c.calm_once (ground arith)))

  creation_done-Round :
      (m f : ℕ) (p q : Pool) (r : Result ℕ)
      → Once p
      → Created p (q, r)
      → Round p (creation_done w k m f (q, r))
  unfolding creation_done
  creation_done-Round m f p q (err e) o c = creation_failed-Round e m (f + 1) p q (Steady-Calm o c)
  creation_done-Round m f p q (ok id) o c =
      if_cases (Round p) (protocol_eq (q.object id).protocol k)
        (λ _. make_lends id o c (lend_new-Hands id q))
        λ _.
          let d = make_put w id o c in
          if_cases (Round p) (leb 3 (m + 1))
            (λ _. Calm-fails Error.no_connection_for_protocol (then_failure d)) (λ _. d)

  idle_taken-Round :
      (m f id : ℕ) (p q : Pool) → Once p → Taken id p q → Round p (idle_taken w k m f id q)
  unfolding idle_taken
  idle_taken-Round m f id p q o t =
      if_cases (Round p) (not (is_connection_valid q id)) (λ _. take_close w id o t)
        λ _.
          if_cases (Round p) (not (protocol_eq (q.object id).protocol k)) (λ _. take_put w id o t)
            (λ _. take_lends id o t (lend_idle_of_protocol-Hands id q))

  protocol_pick-Round :
      (m f : ℕ) (t : Option (ℕ × Pool)) (p : Pool)
      → Once p
      → Takes p t
      → Round p (protocol_pick w k m f t p)
  unfolding protocol_pick
  protocol_pick-Round m f (some (id, q)) p o t = idle_taken-Round m f id p q o t
  protocol_pick-Round m f none p o t =
      if_cases (Round p) (at_limit p)
        (λ _. Calm-waits (GetProtocol.queue_of_protocol k) (Calm-refl p o))
        λ _.
          creation_done-Round m f p (create_connection w p).0 (create_connection w p).1 o
            (create_connection-Created w p)

  protocol_turn-Round : (m f : ℕ) (p : Pool) → Once p → Round p (protocol_turn w k m f p)
  unfolding protocol_turn
  protocol_turn-Round m f p o =
      if_cases (Round p) p.closed (λ _. Calm-fails Error.pool_closed (Calm-refl p o))
        (λ _. protocol_pick-Round m f (take_protocol k p) p o (take_protocol-Takes k p))

  protocol_loop-Obeys : (n m f : ℕ) (p : Pool) → Once p → Obeys p (protocol_loop w k n m f p)
  unfolding protocol_loop
  protocol_loop-Obeys zero m f p o =
      Calm-fails Error.no_connection_for_protocol (then_failure (Calm-refl p o))
  protocol_loop-Obeys (suc n) m f p o =
      go (protocol_turn w k m f p) (protocol_turn-Round m f p o) (protocol_loop-Obeys n)
    where
      go :
          (t : ProtocolTurn)
          → Round p t
          → ((m f : ℕ) (q : Pool) → Once q → Obeys q (protocol_loop w k n m f q))
          → Obeys p (elim t [
            | ProtocolTurn.retry m f q ↦ protocol_loop w k n m f q
            | ProtocolTurn.return q o ↦ (q, o)
          ])
      go (ProtocolTurn.retry m f q) c ih =
          Calm-Obeys (protocol_loop w k n m f q) c (ih m f q c.calm_once)
      go (ProtocolTurn.return q o') h ih = h

  pub known_protocol-Obeys : (p : Pool) → Once p → Obeys p (get_with_known_protocol w k p)
  unfolding get_with_known_protocol
  known_protocol-Obeys p o =
      if_cases (Obeys p) p.closed (λ _. Calm-fails Error.pool_closed (Calm-refl p o))
        λ _.
          let c = stats-Calm increment_total_get_requests p o in
          finish_get-Obeys p.now p _ _ (Calm-Obeys _ c (protocol_loop-Obeys _ 0 0 _ c.calm_once))
