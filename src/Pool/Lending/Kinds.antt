-- ===== src/Pool/Lending/Kinds.antt =====
-- `GetWithIPVersion`, and the unknown kinds of both Gets, obey the machine of lendings.
use netconnpool.Prelude.{ℕ, zero, suc, ◌+◌, Option, none, some, not, leb, if_cases}
use netconnpool.Errors.{Error, Result, ok, err}
use netconnpool.Protocol.{Protocol}
use netconnpool.IpVersion.{IpVersion, version_eq}
use netconnpool.Stats.{increment_total_get_requests}
use netconnpool.Pool.State.{Pool, World, at_limit, is_connection_valid}
use netconnpool.Pool.Put.{put}
use netconnpool.Pool.Create.{create_connection}
use netconnpool.Pool.Borrow.{take_any}
use netconnpool.Pool.GetProtocol.{get_with_protocol}
use netconnpool.Pool.GetVersion
use netconnpool.Pool.GetVersion.{
  VersionTurn, mismatched, version_created, version_taken, version_pick, version_turn, version_loop,
  get_with_known_version, get_with_ip_version,
}
use netconnpool.Pool.Lending.Defs.{Once}
use netconnpool.Pool.Lending.Moves.{Takes, Taken, take_any-Takes, lend_idle-Hands, lend_new-Hands}
use netconnpool.Pool.Lending.Puts.{Created, create_connection-Created}
use netconnpool.Pool.Lending.Calls.{
  Obeys, Calm-Obeys, Calm-fails, Calm-waits, take_put, make_put, take_close,
}
use netconnpool.Pool.Lending.Returns.{Calm, Calm-refl, Steady-Calm, take_lends, make_lends}
use netconnpool.Pool.Lending.Rounds.{
  stats-Calm, then_failure, then_error, finish_get-Obeys, get_with_timeout-Obeys,
}
use netconnpool.Pool.Lending.Protocols.{known_protocol-Obeys}

module _ (w : World) (v : IpVersion) where
  abbrev VersionRound : Pool → VersionTurn → Type 0
  VersionRound p (VersionTurn.retry m q) = Calm p q
  VersionRound p (VersionTurn.return q o) = Obeys p (q, o)

  mismatched-Round :
      (m id : ℕ) (p q : Pool) → Calm p (put w q (some id)).0 → VersionRound p (mismatched w m id q)
  unfolding mismatched
  mismatched-Round m id p q d =
      if_cases (VersionRound p) (leb 3 (m + 1))
        (λ _. Calm-fails Error.no_connection_for_ip_version (then_failure d)) (λ _. d)

  version_created-Round :
      (m : ℕ) (p q : Pool) (r : Result ℕ)
      → Once p
      → Created p (q, r)
      → VersionRound p (version_created w v m (q, r))
  unfolding version_created
  version_created-Round m p q (err e) o c = Calm-fails e (then_error (Steady-Calm o c))
  version_created-Round m p q (ok id) o c =
      if_cases (VersionRound p) (version_eq (q.object id).ip_version v)
        (λ _. make_lends id o c (lend_new-Hands id q))
        (λ _. mismatched-Round m id p q (make_put w id o c))

  version_taken-Round :
      (m id : ℕ) (p q : Pool) → Once p → Taken id p q → VersionRound p (version_taken w v m id q)
  unfolding version_taken
  version_taken-Round m id p q o t =
      if_cases (VersionRound p) (not (version_eq (q.object id).ip_version v))
        (λ _. mismatched-Round m id p q (take_put w id o t))
        λ _.
          if_cases (VersionRound p) (not (is_connection_valid q id)) (λ _. take_close w id o t)
            (λ _. take_lends id o t (lend_idle-Hands id q))

  version_pick-Round :
      (m : ℕ) (t : Option (ℕ × Pool)) (p : Pool)
      → Once p
      → Takes p t
      → VersionRound p (version_pick w v m t p)
  unfolding version_pick
  version_pick-Round m (some (id, q)) p o t = version_taken-Round m id p q o t
  version_pick-Round m none p o t =
      if_cases (VersionRound p) (at_limit p)
        (λ _. Calm-waits (GetVersion.queue_of_version v) (Calm-refl p o))
        λ _.
          version_created-Round m p (create_connection w p).0 (create_connection w p).1 o
            (create_connection-Created w p)

  version_turn-Round : (m : ℕ) (p : Pool) → Once p → VersionRound p (version_turn w v m p)
  unfolding version_turn
  version_turn-Round m p o =
      if_cases (VersionRound p) p.closed (λ _. Calm-fails Error.pool_closed (Calm-refl p o))
        (λ _. version_pick-Round m (take_any w p) p o (take_any-Takes w p))

  version_loop-Obeys : (n m : ℕ) (p : Pool) → Once p → Obeys p (version_loop w v n m p)
  unfolding version_loop
  version_loop-Obeys zero m p o =
      Calm-fails Error.no_connection_for_ip_version (then_failure (Calm-refl p o))
  version_loop-Obeys (suc n) m p o =
      go (version_turn w v m p) (version_turn-Round m p o) (version_loop-Obeys n)
    where
      go :
          (t : VersionTurn)
          → VersionRound p t
          → ((m : ℕ) (q : Pool) → Once q → Obeys q (version_loop w v n m q))
          → Obeys p (elim t [
            | VersionTurn.retry m q ↦ version_loop w v n m q
            | VersionTurn.return q o ↦ (q, o)
          ])
      go (VersionTurn.retry m q) c ih = Calm-Obeys (version_loop w v n m q) c (ih m q c.calm_once)
      go (VersionTurn.return q o') h ih = h

  known_version-Obeys : (p : Pool) → Once p → Obeys p (get_with_known_version w v p)
  unfolding get_with_known_version
  known_version-Obeys p o =
      if_cases (Obeys p) p.closed (λ _. Calm-fails Error.pool_closed (Calm-refl p o))
        λ _.
          let c = stats-Calm increment_total_get_requests p o in
          finish_get-Obeys p.now p _ _ (Calm-Obeys _ c (version_loop-Obeys _ 0 _ c.calm_once))

pub get_with_protocol-Obeys :
    (w : World) (k : Protocol) (p : Pool) → Once p → Obeys p (get_with_protocol w k p)
unfolding get_with_protocol
get_with_protocol-Obeys w Protocol.unknown p o = get_with_timeout-Obeys w p o
get_with_protocol-Obeys w Protocol.tcp p o = known_protocol-Obeys w Protocol.tcp p o
get_with_protocol-Obeys w Protocol.udp p o = known_protocol-Obeys w Protocol.udp p o

pub get_with_ip_version-Obeys :
    (w : World) (v : IpVersion) (p : Pool) → Once p → Obeys p (get_with_ip_version w v p)
unfolding get_with_ip_version
get_with_ip_version-Obeys w IpVersion.unknown p o = get_with_timeout-Obeys w p o
get_with_ip_version-Obeys w IpVersion.ipv4 p o = known_version-Obeys w IpVersion.ipv4 p o
get_with_ip_version-Obeys w IpVersion.ipv6 p o = known_version-Obeys w IpVersion.ipv6 p o
