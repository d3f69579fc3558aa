-- ===== src/Pool/Invariance/Versions.antt =====
-- `GetWithIPVersion` and `warmUp` keep what their parts keep.
use netconnpool.Prelude.{ℕ, zero, suc, ◌+◌, Option, none, some, not, leb, if_cases}
use netconnpool.Errors.{Result, ok, err}
use netconnpool.IpVersion.{IpVersion, version_eq}
use netconnpool.Mode.{PoolMode, client, server, other}
use netconnpool.Pool.State.{Pool, World, at_limit, is_connection_valid}
use netconnpool.Pool.Borrow.{Outcome}
use netconnpool.Pool.GetVersion.{
  VersionTurn, mismatched, version_created, version_taken, version_pick, version_turn, version_loop,
  get_with_known_version, get_with_ip_version,
}
use netconnpool.Pool.WarmUp.{warm_one, warm_loop, warm_mode, warm_up}
use netconnpool.Pool.Invariance.{Stable, Left, First}
use netconnpool.Pool.Invariance.Timeouts.{finish_get-Stable, get_with_timeout-Stable, take_any-Left}
use netconnpool.Pool.State.{asks}

abbrev VersionLeaves : (P : Pool → Type 0) → VersionTurn → Type 0
VersionLeaves P (VersionTurn.retry m p) = P p
VersionLeaves P (VersionTurn.return p o) = P p

module _ {w : World} {P : Pool → Type 0} (k : Stable w P) where
  mismatched-Stable : (m id : ℕ) (p : Pool) → P p → VersionLeaves P (mismatched w m id p)
  unfolding mismatched
  mismatched-Stable m id p c =
      let returned = k.stable_put p id c in
      if_cases (VersionLeaves P) (leb 3 (m + 1)) (λ _. k.stable_failure _ returned) (λ _. returned)

  version_created-Stable :
      (v : IpVersion) (m : ℕ) (p : Pool) (r : Result ℕ)
      → P p
      → VersionLeaves P (version_created w v m (p, r))
  unfolding version_created
  version_created-Stable v m p (err e) c = k.stable_connection_error p c
  version_created-Stable v m p (ok id) c =
      if_cases (VersionLeaves P) (version_eq (p.object id).ip_version v)
        (λ _. k.stable_lend_new id p c) (λ _. mismatched-Stable m id p c)

  version_pick-Stable :
      (v : IpVersion) (m : ℕ) (o : Option (ℕ × Pool)) (p : Pool)
      → P p
      → Left P o
      → VersionLeaves P (version_pick w v m o p)
  unfolding version_pick version_taken
  version_pick-Stable v m (some (id, q)) p c t =
      if_cases (VersionLeaves P) (not (version_eq (q.object id).ip_version v))
        (λ _. mismatched-Stable m id q t)
        λ _.
          if_cases (VersionLeaves P) (not (is_connection_valid q id)) (λ _. k.stable_close q id t)
            (λ _. k.stable_lend_idle id q t)
  version_pick-Stable v m none p c t =
      if_cases (VersionLeaves P) (at_limit p) (λ _. c)
        (λ _. version_created-Stable v m _ _ (k.stable_create p c))

  version_turn-Stable :
      (v : IpVersion) (m : ℕ) (p : Pool) → P p → VersionLeaves P (version_turn w v m p)
  unfolding version_turn
  version_turn-Stable v m p c =
      if_cases (VersionLeaves P) p.closed (λ _. c)
        (λ _. version_pick-Stable v m _ p c (take_any-Left k p c))

  version_loop-Stable : (v : IpVersion) (n m : ℕ) (p : Pool) → P p → P (version_loop w v n m p).0
  unfolding version_loop
  version_loop-Stable v zero m p c = k.stable_failure p c
  version_loop-Stable v (suc n) m p c =
      next (version_turn w v m p) (version_turn-Stable v m p c) (version_loop-Stable v n)
    where
      next :
          (t : VersionTurn)
          → VersionLeaves P t
          → ((m : ℕ) (q : Pool) → P q → P (version_loop w v n m q).0)
          → First P {A = Outcome} (elim t [
            | VersionTurn.retry m q ↦ version_loop w v n m q
            | VersionTurn.return q o ↦ (q, o)
          ])
      next (VersionTurn.retry m q) d ih = ih m q d
      next (VersionTurn.return q o) d ih = d

  known_version-Stable : (v : IpVersion) (p : Pool) → P p → P (get_with_known_version w v p).0
  unfolding get_with_known_version
  known_version-Stable v p c =
      if_cases (First P) p.closed (λ _. c)
        λ _. finish_get-Stable k p.now _ _ (version_loop-Stable v _ 0 _ (k.stable_request p c))

  -- `GetWithIPVersion` keeps the invariant, whatever it returns.
  pub get_with_ip_version-Stable :
      (v : IpVersion) (p : Pool) → P p → P (get_with_ip_version w v p).0
  unfolding get_with_ip_version
  get_with_ip_version-Stable IpVersion.unknown p c = get_with_timeout-Stable k p c
  get_with_ip_version-Stable IpVersion.ipv4 p c = known_version-Stable IpVersion.ipv4 p c
  get_with_ip_version-Stable IpVersion.ipv6 p c = known_version-Stable IpVersion.ipv6 p c

  warm_one-Stable : (p : Pool) (r : Result ℕ) → P p → P (warm_one w (p, r))
  unfolding warm_one
  warm_one-Stable p (err e) c = k.stable_warm_error p c
  warm_one-Stable p (ok id) c = k.stable_put (asks w p) id (k.stable_elsewhere p c)

  warm_loop-Stable : (n : ℕ) (p : Pool) → P p → P (warm_loop w n p)
  unfolding warm_loop
  warm_loop-Stable zero p c = c
  warm_loop-Stable (suc n) p c = warm_loop-Stable n _ (warm_one-Stable _ _ (k.stable_create p c))

  warm_mode-Stable : (m : PoolMode) (p : Pool) → P p → P (warm_mode w m p)
  unfolding warm_mode
  warm_mode-Stable server p c = c
  warm_mode-Stable client p c = warm_loop-Stable _ p c
  warm_mode-Stable (other n) p c = warm_loop-Stable _ p c

  -- `warmUp` keeps the invariant, whatever part of it fails.
  pub warm_up-Stable : (p : Pool) → P p → P (warm_up w p)
  unfolding warm_up
  warm_up-Stable p c = warm_mode-Stable p.config.mode p c
