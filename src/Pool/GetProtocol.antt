-- ===== src/Pool/GetProtocol.antt =====
-- pool.go: `GetWithProtocol`.
use netconnpool.Prelude.{Option, ℕ, zero, suc, ◌+◌, ◌*◌, none, some, not, leb, if◌then◌else◌}
use netconnpool.Errors.{Error, Result, ok, err}
use netconnpool.Protocol.{Protocol, protocol_eq}
use netconnpool.Config.{millisecond}
use netconnpool.Stats.{increment_total_get_requests}
use netconnpool.Pool.State.{
  Pool, World, Queue, any, tcp, udp, with_stats, at_limit, is_connection_valid,
}
use netconnpool.Pool.Discard.{close_connection}
use netconnpool.Pool.Put.{put}
use netconnpool.Pool.Create.{create_connection}
use netconnpool.Pool.Borrow.{
  Outcome, got, failed, waits, take_protocol, lend_idle_of_protocol, lend_new, count_failure,
  count_connection_error,
}
use netconnpool.Pool.Get.{finish_get, get_with_timeout}

-- One round of the loop: it goes on with its two counters, or returns.
pub data ProtocolTurn : Type 0 where
  retry : (mismatches failures : ℕ) → Pool → ProtocolTurn
  return : Pool → Outcome → ProtocolTurn

-- The queue of `waitForConnectionWithProtocol`.
abbrev pub queue_of_protocol : Protocol → Queue
queue_of_protocol Protocol.tcp = tcp
queue_of_protocol Protocol.udp = udp
queue_of_protocol Protocol.unknown = any

-- After a failed creation: the third one is returned, else the loop goes on after 10 ms unless the
-- context is done first.
unfoldable pub creation_failed : World → Error → (mismatches failures : ℕ) → Pool → ProtocolTurn
creation_failed w e mismatches failures p =
    if leb 3 failures
    then return (count_connection_error p) (failed e)
    else if w.done p.asked
    then return p (failed Error.context)
    else retry mismatches failures
        (record p { asked = suc p.asked; now = p.now + 10 * millisecond })

-- After a creation: a connection of another protocol goes back to the pool.
unfoldable pub creation_done :
    World → Protocol → (mismatches failures : ℕ) → Pool × Result ℕ → ProtocolTurn
creation_done w protocol mismatches failures (p, err e) =
    creation_failed w e mismatches (failures + 1) p
creation_done w protocol mismatches failures (p, ok id) =
    if protocol_eq (p.object id).protocol protocol
    then return (lend_new id p) (got id)
    else let p1 = (put w p (some id)).0 in
      if leb 3 (mismatches + 1)
      then return (count_failure p1) (failed Error.no_connection_for_protocol)
      else retry (mismatches + 1) failures p1

-- An idle connection of the protocol's channel.
unfoldable pub idle_taken : World → Protocol → (mismatches failures : ℕ) → ℕ → Pool → ProtocolTurn
idle_taken w protocol mismatches failures id p =
    if not (is_connection_valid p id)
    then retry mismatches failures (close_connection w p id).0
    else if not (protocol_eq (p.object id).protocol protocol)
    then retry mismatches failures (put w p (some id)).0
    else return (lend_idle_of_protocol id p) (got id)

-- What an idle connection, or the lack of one, leads to in a round of the loop.
unfoldable pub protocol_pick :
    World → Protocol → (mismatches failures : ℕ) → Option (ℕ × Pool) → Pool → ProtocolTurn
protocol_pick w protocol mismatches failures (some (id, p1)) p =
    idle_taken w protocol mismatches failures id p1
protocol_pick w protocol mismatches failures none p =
    if at_limit p
    then return p (waits (queue_of_protocol protocol))
    else creation_done w protocol mismatches failures (create_connection w p)

unfoldable pub protocol_turn : World → Protocol → (mismatches failures : ℕ) → Pool → ProtocolTurn
protocol_turn w protocol mismatches failures p =
    if p.closed
    then return p (failed Error.pool_closed)
    else protocol_pick w protocol mismatches failures (take_protocol protocol p) p

-- The loop over the attempts left.
unfoldable pub protocol_loop :
    World → Protocol → (attempts mismatches failures : ℕ) → Pool → Pool × Outcome
protocol_loop w protocol zero mismatches failures p =
    (count_failure p, failed Error.no_connection_for_protocol)
protocol_loop w protocol (suc attempts) mismatches failures p =
    elim (protocol_turn w protocol mismatches failures p) [
      | retry m f p' ↦ protocol_loop w protocol attempts m f p'
      | return p' o ↦ (p', o)
    ]

abbrev pub max_attempts : ℕ
max_attempts = 10

unfoldable pub get_with_known_protocol : World → Protocol → Pool → Pool × Outcome
get_with_known_protocol w protocol p =
    if p.closed
    then (p, failed Error.pool_closed)
    else finish_get p.now
        (protocol_loop w protocol max_attempts 0 0 (with_stats increment_total_get_requests p))

unfoldable pub get_with_protocol : World → Protocol → Pool → Pool × Outcome
get_with_protocol w Protocol.unknown p = get_with_timeout w p
get_with_protocol w Protocol.tcp p = get_with_known_protocol w Protocol.tcp p
get_with_protocol w Protocol.udp p = get_with_known_protocol w Protocol.udp p
