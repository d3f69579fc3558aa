-- ===== src/Pool/Invariance/Protocols.antt =====
-- `GetWithProtocol` keeps what its parts keep.
use netconnpool.Prelude.{ℕ, zero, suc, ◌+◌, Option, none, some, not, leb, if_cases, List, [], ◌∷◌}
use netconnpool.Errors.{Error, Result, ok, err}
use netconnpool.Protocol.{Protocol, protocol_eq}
use netconnpool.Pool.State.{Pool, World, at_limit, is_connection_valid}
use netconnpool.Pool.Borrow.{Outcome, take_protocol, take_tcp, take_udp}
use netconnpool.Pool.GetProtocol.{
  ProtocolTurn, creation_failed, creation_done, idle_taken, protocol_pick, protocol_turn,
  protocol_loop, get_with_known_protocol, get_with_protocol,
}
use netconnpool.Pool.Invariance.{Stable, Left, First}
use netconnpool.Pool.Invariance.Timeouts.{finish_get-Stable, get_with_timeout-Stable}

abbrev ProtocolLeaves : (P : Pool → Type 0) → ProtocolTurn → Type 0
ProtocolLeaves P (ProtocolTurn.retry m f p) = P p
ProtocolLeaves P (ProtocolTurn.return p o) = P p

module _ {w : World} {P : Pool → Type 0} (k : Stable w P) where
  take_tcp-Left : (xs : List ℕ) (p : Pool) → P p → Left P (take_tcp xs p)
  unfolding take_tcp
  take_tcp-Left [] p c = tt
  take_tcp-Left (x ∷ xs) p c = k.stable_elsewhere p c

  take_udp-Left : (xs : List ℕ) (p : Pool) → P p → Left P (take_udp xs p)
  unfolding take_udp
  take_udp-Left [] p c = tt
  take_udp-Left (x ∷ xs) p c = k.stable_elsewhere p c

  take_protocol-Left : (kind : Protocol) (p : Pool) → P p → Left P (take_protocol kind p)
  unfolding take_protocol
  take_protocol-Left Protocol.tcp p c = take_tcp-Left p.idle_tcp p c
  take_protocol-Left Protocol.udp p c = take_udp-Left p.idle_udp p c
  take_protocol-Left Protocol.unknown p c = take_udp-Left p.idle_udp p c

  creation_failed-Stable :
      (e : Error) (m f : ℕ) (p : Pool) → P p → ProtocolLeaves P (creation_failed w e m f p)
  unfolding creation_failed
  creation_failed-Stable e m f p c =
      if_cases (ProtocolLeaves P) (leb 3 f) (λ _. k.stable_connection_error p c)
        λ _. if_cases (ProtocolLeaves P) (w.done p.asked) (λ _. c) (λ _. k.stable_elsewhere p c)

  creation_done-Stable :
      (kind : Protocol) (m f : ℕ) (p : Pool) (r : Result ℕ)
      → P p
      → ProtocolLeaves P (creation_done w kind m f (p, r))
  unfolding creation_done
  creation_done-Stable kind m f p (err e) c = creation_failed-Stable e m (f + 1) p c
  creation_done-Stable kind m f p (ok id) c =
      let returned = k.stable_put p id c in
      if_cases (ProtocolLeaves P) (protocol_eq (p.object id).protocol kind)
        (λ _. k.stable_lend_new id p c)
        λ _.
          if_cases (ProtocolLeaves P) (leb 3 (m + 1)) (λ _. k.stable_failure _ returned)
            (λ _. returned)

  idle_taken-Stable :
      (kind : Protocol) (m f id : ℕ) (p : Pool)
      → P p
      → ProtocolLeaves P (idle_taken w kind m f id p)
  unfolding idle_taken
  idle_taken-Stable kind m f id p c =
      if_cases (ProtocolLeaves P) (not (is_connection_valid p id)) (λ _. k.stable_close p id c)
        λ _.
          if_cases (ProtocolLeaves P) (not (protocol_eq (p.object id).protocol kind))
            (λ _. k.stable_put p id c) (λ _. k.stable_lend_idle_of_protocol id p c)

  protocol_pick-Stable :
      (kind : Protocol) (m f : ℕ) (o : Option (ℕ × Pool)) (p : Pool)
      → P p
      → Left P o
      → ProtocolLeaves P (protocol_pick w kind m f o p)
  unfolding protocol_pick
  protocol_pick-Stable kind m f (some (id, q)) p c t = idle_taken-Stable kind m f id q t
  protocol_pick-Stable kind m f none p c t =
      if_cases (ProtocolLeaves P) (at_limit p) (λ _. c)
        (λ _. creation_done-Stable kind m f _ _ (k.stable_create p c))

  protocol_turn-Stable :
      (kind : Protocol) (m f : ℕ) (p : Pool) → P p → ProtocolLeaves P (protocol_turn w kind m f p)
  unfolding protocol_turn
  protocol_turn-Stable kind m f p c =
      if_cases (ProtocolLeaves P) p.closed (λ _. c)
        (λ _. protocol_pick-Stable kind m f _ p c (take_protocol-Left kind p c))

  protocol_loop-Stable :
      (kind : Protocol) (n m f : ℕ) (p : Pool) → P p → P (protocol_loop w kind n m f p).0
  unfolding protocol_loop
  protocol_loop-Stable kind zero m f p c = k.stable_failure p c
  protocol_loop-Stable kind (suc n) m f p c =
      next (protocol_turn w kind m f p) (protocol_turn-Stable kind m f p c)
        (protocol_loop-Stable kind n)
    where
      next :
          (t : ProtocolTurn)
          → ProtocolLeaves P t
          → ((m f : ℕ) (q : Pool) → P q → P (protocol_loop w kind n m f q).0)
          → First P {A = Outcome} (elim t [
            | ProtocolTurn.retry m f q ↦ protocol_loop w kind n m f q
            | ProtocolTurn.return q o ↦ (q, o)
          ])
      next (ProtocolTurn.retry m f q) d ih = ih m f q d
      next (ProtocolTurn.return q o) d ih = d

  known_protocol-Stable :
      (kind : Protocol) (p : Pool) → P p → P (get_with_known_protocol w kind p).0
  unfolding get_with_known_protocol
  known_protocol-Stable kind p c =
      if_cases (First P) p.closed (λ _. c)
        λ _.
          finish_get-Stable k p.now _ _ (protocol_loop-Stable kind _ 0 0 _ (k.stable_request p c))

  -- `GetWithProtocol` keeps the invariant, whatever it returns.
  pub get_with_protocol-Stable :
      (kind : Protocol) (p : Pool) → P p → P (get_with_protocol w kind p).0
  unfolding get_with_protocol
  get_with_protocol-Stable Protocol.unknown p c = get_with_timeout-Stable k p c
  get_with_protocol-Stable Protocol.tcp p c = known_protocol-Stable Protocol.tcp p c
  get_with_protocol-Stable Protocol.udp p c = known_protocol-Stable Protocol.udp p c
