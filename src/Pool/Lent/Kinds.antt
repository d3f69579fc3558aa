-- ===== src/Pool/Lent/Kinds.antt =====
-- What `GetWithProtocol` and `GetWithIPVersion` return.
use netconnpool.Prelude.{
  ℕ, zero, suc, ◌+◌, ◌≡◌, ap, ◌∙◌, Option, none, some, true, leb, if_cases, arith, Bool-cases, inl,
  inr,
}
use netconnpool.Prelude.{◌≢◌, sym}
use netconnpool.Pool.State.{has_socket}
use netconnpool.Errors.{Error, Result, ok, err}
use netconnpool.Connection.{Connection}
use netconnpool.Protocol.{Protocol, protocol_eq}
use netconnpool.IpVersion.{IpVersion, version_eq}
use netconnpool.Pool.State.{Pool, World, at_limit, is_connection_valid}
use netconnpool.Pool.GetProtocol.{
  ProtocolTurn, creation_failed, creation_done, idle_taken, protocol_pick, protocol_turn,
  protocol_loop, get_with_known_protocol,
}
use netconnpool.Pool.GetVersion.{
  VersionTurn, mismatched, version_created, version_taken, version_pick, version_turn, version_loop,
  get_with_known_version,
}
use netconnpool.Pool.Core.Kept.{lend_idle-Keeps, lend_new-Keeps, lend_idle_of_protocol-Keeps}
use netconnpool.Pool.Lent.Lends.{
  lend_idle-Lent, lend_idle_of_protocol-Lent, lend_new-Lent, Fresh, create_connection-Fresh, Serves,
  finish_get-Serves,
}

protocol_eq_sound : (a b : Protocol) → protocol_eq a b ≡ true → a ≡ b
protocol_eq_sound a b h = ground arith

version_eq_sound : (a b : IpVersion) → version_eq a b ≡ true → a ≡ b
version_eq_sound a b h = ground arith

abbrev pub OfProtocol : Protocol → Pool → ℕ → Type 0
OfProtocol k p id = (p.object id).protocol ≡ k

abbrev pub OfVersion : IpVersion → Pool → ℕ → Type 0
OfVersion v p id = (p.object id).ip_version ≡ v

-- A creation that gives a connection of a known kind gives one with a socket.
open_of_protocol :
    (w : World) (p : Pool) (id : ℕ) (k : Protocol)
    → k ≢ Protocol.unknown
    → Fresh w (p, ok id)
    → (p.object id).protocol ≡ k
    → has_socket (p.object id).conn ≡ true
open_of_protocol w p id k known (inl o) e = o
open_of_protocol w p id k known (inr (g, b)) e = absurd (known (sym e ∙ b.0))

open_of_version :
    (w : World) (p : Pool) (id : ℕ) (v : IpVersion)
    → v ≢ IpVersion.unknown
    → Fresh w (p, ok id)
    → (p.object id).ip_version ≡ v
    → has_socket (p.object id).conn ≡ true
open_of_version w p id v known (inl o) e = o
open_of_version w p id v known (inr (g, b)) e = absurd (known (sym e ∙ b.1))

module _ (w : World) (k : Protocol) (known : k ≢ Protocol.unknown) where
  abbrev Round : ProtocolTurn → Type 0
  Round (ProtocolTurn.retry m f p) = Unit
  Round (ProtocolTurn.return p o) = Serves (OfProtocol k) (p, o)

  creation_failed-Round : (e : Error) (m f : ℕ) (p : Pool) → Round (creation_failed w e m f p)
  unfolding creation_failed
  creation_failed-Round e m f p =
      if_cases Round (leb 3 f) (λ _. tt) λ _. if_cases Round (w.done p.asked) (λ _. tt) (λ _. tt)

  creation_done-Round :
      (m f : ℕ) (p : Pool) (r : Result ℕ) → Fresh w (p, r) → Round (creation_done w k m f (p, r))
  unfolding creation_done
  creation_done-Round m f p (err e) h = creation_failed-Round e m (f + 1) p
  creation_done-Round m f p (ok id) h =
      if_cases Round (protocol_eq (p.object id).protocol k)
        (λ e.
          let s = protocol_eq_sound _ k e in
          (
            lend_new-Lent id p (open_of_protocol w p id k known h s),
            (lend_new-Keeps id p).same_protocol id ∙ s,
          ))
        λ _. if_cases Round (leb 3 (m + 1)) (λ _. tt) (λ _. tt)

  idle_taken-Round : (m f id : ℕ) (p : Pool) → Round (idle_taken w k m f id p)
  unfolding idle_taken
  idle_taken-Round m f id p = elim (Bool-cases (is_connection_valid p id)) [
    | inr e ↦ rw e tt
    | inl e ↦ rw e (elim (Bool-cases (protocol_eq (p.object id).protocol k)) [
      | inr d ↦ rw d tt
      | inl d ↦ rw d (
        lend_idle_of_protocol-Lent id p e,
        (lend_idle_of_protocol-Keeps id p).same_protocol id ∙ protocol_eq_sound _ k d,
      )
    ])
  ]

  protocol_pick-Round :
      (m f : ℕ) (o : Option (ℕ × Pool)) (p : Pool) → Round (protocol_pick w k m f o p)
  unfolding protocol_pick
  protocol_pick-Round m f (some (id, q)) p = idle_taken-Round m f id q
  protocol_pick-Round m f none p =
      if_cases Round (at_limit p) (λ _. tt)
        (λ _. creation_done-Round m f _ _ (create_connection-Fresh w p))

  protocol_turn-Round : (m f : ℕ) (p : Pool) → Round (protocol_turn w k m f p)
  unfolding protocol_turn
  protocol_turn-Round m f p = if_cases Round p.closed (λ _. tt) (λ _. protocol_pick-Round m f _ p)

  protocol_loop-Serves : (n m f : ℕ) (p : Pool) → Serves (OfProtocol k) (protocol_loop w k n m f p)
  unfolding protocol_loop
  protocol_loop-Serves zero m f p = tt
  protocol_loop-Serves (suc n) m f p =
      next (protocol_turn w k m f p) (protocol_turn-Round m f p) (protocol_loop-Serves n)
    where
      next :
          (t : ProtocolTurn)
          → Round t
          → ((m f : ℕ) (q : Pool) → Serves (OfProtocol k) (protocol_loop w k n m f q))
          → Serves (OfProtocol k) (elim t [
            | ProtocolTurn.retry m f q ↦ protocol_loop w k n m f q
            | ProtocolTurn.return q o ↦ (q, o)
          ])
      next (ProtocolTurn.retry m f q) d ih = ih m f q
      next (ProtocolTurn.return q o) d ih = d

  -- For a known protocol, which its test lets pass, `GetWithProtocol` returns within its ten attempts: an
  -- error, a wait, or a connection of the protocol that is marked as in use and has an open socket.
  pub known_protocol-Serves : (p : Pool) → Serves (OfProtocol k) (get_with_known_protocol w k p)
  unfolding get_with_known_protocol
  known_protocol-Serves p =
      if_cases (Serves (OfProtocol k)) p.closed (λ _. tt)
        λ _.
          finish_get-Serves (OfProtocol k) p.now _ _
            (λ q id e h. ap (λ (g : ℕ → Connection). (g id).protocol) e ∙ h)
            (protocol_loop-Serves _ 0 0 _)

module _ (w : World) (v : IpVersion) (known : v ≢ IpVersion.unknown) where
  abbrev VersionRound : VersionTurn → Type 0
  VersionRound (VersionTurn.retry m p) = Unit
  VersionRound (VersionTurn.return p o) = Serves (OfVersion v) (p, o)

  mismatched-Round : (m id : ℕ) (p : Pool) → VersionRound (mismatched w m id p)
  unfolding mismatched
  mismatched-Round m id p = if_cases VersionRound (leb 3 (m + 1)) (λ _. tt) (λ _. tt)

  version_created-Round :
      (m : ℕ) (p : Pool) (r : Result ℕ)
      → Fresh w (p, r)
      → VersionRound (version_created w v m (p, r))
  unfolding version_created
  version_created-Round m p (err e) h = tt
  version_created-Round m p (ok id) h =
      if_cases VersionRound (version_eq (p.object id).ip_version v)
        (λ e.
          let s = version_eq_sound _ v e in
          (
            lend_new-Lent id p (open_of_version w p id v known h s),
            (lend_new-Keeps id p).same_version id ∙ s,
          ))
        (λ _. mismatched-Round m id p)

  version_taken-Round : (m id : ℕ) (p : Pool) → VersionRound (version_taken w v m id p)
  unfolding version_taken
  version_taken-Round m id p = elim (Bool-cases (version_eq (p.object id).ip_version v)) [
    | inr d ↦ rw d (mismatched-Round m id p)
    | inl d ↦ rw d (elim (Bool-cases (is_connection_valid p id)) [
      | inr e ↦ rw e tt
      | inl e ↦
          rw e
            (lend_idle-Lent id p e, (lend_idle-Keeps id p).same_version id ∙ version_eq_sound _ v d)
    ])
  ]

  version_pick-Round :
      (m : ℕ) (o : Option (ℕ × Pool)) (p : Pool) → VersionRound (version_pick w v m o p)
  unfolding version_pick
  version_pick-Round m (some (id, q)) p = version_taken-Round m id q
  version_pick-Round m none p =
      if_cases VersionRound (at_limit p) (λ _. tt)
        (λ _. version_created-Round m _ _ (create_connection-Fresh w p))

  version_turn-Round : (m : ℕ) (p : Pool) → VersionRound (version_turn w v m p)
  unfolding version_turn
  version_turn-Round m p = if_cases VersionRound p.closed (λ _. tt) (λ _. version_pick-Round m _ p)

  version_loop-Serves : (n m : ℕ) (p : Pool) → Serves (OfVersion v) (version_loop w v n m p)
  unfolding version_loop
  version_loop-Serves zero m p = tt
  version_loop-Serves (suc n) m p =
      next (version_turn w v m p) (version_turn-Round m p) (version_loop-Serves n)
    where
      next :
          (t : VersionTurn)
          → VersionRound t
          → ((m : ℕ) (q : Pool) → Serves (OfVersion v) (version_loop w v n m q))
          → Serves (OfVersion v) (elim t [
            | VersionTurn.retry m q ↦ version_loop w v n m q
            | VersionTurn.return q o ↦ (q, o)
          ])
      next (VersionTurn.retry m q) d ih = ih m q
      next (VersionTurn.return q o) d ih = d

  -- For a known version, which its test lets pass, `GetWithIPVersion` returns within its ten attempts: an
  -- error, a wait, or a connection of the version that is marked as in use and has an open socket.
  pub known_version-Serves : (p : Pool) → Serves (OfVersion v) (get_with_known_version w v p)
  unfolding get_with_known_version
  known_version-Serves p =
      if_cases (Serves (OfVersion v)) p.closed (λ _. tt)
        λ _.
          finish_get-Serves (OfVersion v) p.now _ _
            (λ q id e h. ap (λ (g : ℕ → Connection). (g id).ip_version) e ∙ h)
            (version_loop-Serves _ 0 _)
