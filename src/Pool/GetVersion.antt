-- ===== src/Pool/GetVersion.antt =====
-- pool.go: `GetWithIPVersion`.
use netconnpool.Prelude.{Option, ℕ, zero, suc, ◌+◌, none, some, not, leb, if◌then◌else◌}
use netconnpool.Errors.{Error, Result, ok, err}
use netconnpool.IpVersion.{IpVersion, version_eq}
use netconnpool.Stats.{increment_total_get_requests}
use netconnpool.Pool.State.{
  Pool, World, Queue, any, v4, v6, with_stats, at_limit, is_connection_valid,
}
use netconnpool.Pool.Discard.{close_connection}
use netconnpool.Pool.Put.{put}
use netconnpool.Pool.Create.{create_connection}
use netconnpool.Pool.Borrow.{
  Outcome, got, failed, waits, take_any, lend_idle, lend_new, count_failure, count_connection_error,
}
use netconnpool.Pool.Get.{finish_get, get_with_timeout}

-- One round of the loop: it goes on with its counter, or returns.
pub data VersionTurn : Type 0 where
  retry : (mismatches : ℕ) → Pool → VersionTurn
  return : Pool → Outcome → VersionTurn

-- The queue of `waitForConnectionWithIPVersion`.
abbrev pub queue_of_version : IpVersion → Queue
queue_of_version IpVersion.ipv4 = v4
queue_of_version IpVersion.ipv6 = v6
queue_of_version IpVersion.unknown = any

-- A connection of another version goes back; the third one ends the loop.
unfoldable pub mismatched : World → ℕ → ℕ → Pool → VersionTurn
mismatched w mismatches id p =
    let p1 = (put w p (some id)).0 in
    if leb 3 (mismatches + 1)
    then return (count_failure p1) (failed Error.no_connection_for_ip_version)
    else retry (mismatches + 1) p1

unfoldable pub version_created : World → IpVersion → ℕ → Pool × Result ℕ → VersionTurn
version_created w version mismatches (p, err e) = return (count_connection_error p) (failed e)
version_created w version mismatches (p, ok id) =
    if version_eq (p.object id).ip_version version
    then return (lend_new id p) (got id)
    else mismatched w mismatches id p

unfoldable pub version_taken : World → IpVersion → ℕ → ℕ → Pool → VersionTurn
version_taken w version mismatches id p =
    if not (version_eq (p.object id).ip_version version)
    then mismatched w mismatches id p
    else if not (is_connection_valid p id)
    then retry mismatches (close_connection w p id).0
    else return (lend_idle id p) (got id)

-- What an idle connection, or the lack of one, leads to in a round of the loop.
unfoldable pub version_pick : World → IpVersion → ℕ → Option (ℕ × Pool) → Pool → VersionTurn
version_pick w version mismatches (some (id, p1)) p = version_taken w version mismatches id p1
version_pick w version mismatches none p =
    if at_limit p
    then return p (waits (queue_of_version version))
    else version_created w version mismatches (create_connection w p)

unfoldable pub version_turn : World → IpVersion → ℕ → Pool → VersionTurn
version_turn w version mismatches p =
    if p.closed
    then return p (failed Error.pool_closed)
    else version_pick w version mismatches (take_any w p) p

-- The loop over the attempts left.
unfoldable pub version_loop : World → IpVersion → (attempts mismatches : ℕ) → Pool → Pool × Outcome
version_loop w version zero mismatches p =
    (count_failure p, failed Error.no_connection_for_ip_version)
version_loop w version (suc attempts) mismatches p = elim (version_turn w version mismatches p) [
  | retry m p' ↦ version_loop w version attempts m p'
  | return p' o ↦ (p', o)
]

abbrev pub max_attempts : ℕ
max_attempts = 10

unfoldable pub get_with_known_version : World → IpVersion → Pool → Pool × Outcome
get_with_known_version w version p =
    if p.closed
    then (p, failed Error.pool_closed)
    else finish_get p.now
        (version_loop w version max_attempts 0 (with_stats increment_total_get_requests p))

unfoldable pub get_with_ip_version : World → IpVersion → Pool → Pool × Outcome
get_with_ip_version w IpVersion.unknown p = get_with_timeout w p
get_with_ip_version w IpVersion.ipv4 p = get_with_known_version w IpVersion.ipv4 p
get_with_ip_version w IpVersion.ipv6 p = get_with_known_version w IpVersion.ipv6 p
