-- ===== src/Pool/Notify.antt =====
-- pool.go: `notifyWaitQueue` and `notifySpecificWaitQueue`.
use netconnpool.Prelude.{
  ℕ, Option, none, some, Bool, true, false, not, List, [], ◌∷◌, if◌then◌else◌,
}
use netconnpool.Protocol.{Protocol}
use netconnpool.IpVersion.{IpVersion}
use netconnpool.Pool.State.{Pool, Queue, any, v4, v6, tcp, udp, WaitChan, update_at, set_queue}

-- Whether the non-blocking send succeeds: a send on a closed channel panics, which `recover` turns
-- into a failure, and a full buffer takes nothing.
abbrev pub can_send : WaitChan → Bool
can_send ch = elim ch.buffer [ none ↦ not ch.is_closed | some _ ↦ false ]

-- The loop of `notifySpecificWaitQueue` over the queue: the waiters left, the channels, and whether
-- one was notified. A waiter that cannot be sent to is dropped.
unfoldable pub offer : (ℕ → WaitChan) → ℕ → List ℕ → List ℕ × (ℕ → WaitChan) × Bool
offer chan id [] = ([], chan, false)
offer chan id (ch ∷ rest) = elim (can_send (chan ch)) [
  | true ↦ (rest, update_at chan ch (record { buffer = some id; is_closed = false }), true)
  | false ↦ offer chan id rest
]

unfoldable pub notify_specific_wait_queue : Queue → ℕ → Pool → Pool × Bool
notify_specific_wait_queue q id p =
    let (rest, chan, sent) = offer p.chan id (p.queue q) in
    (set_queue q rest (record p { chan = chan }), sent)

abbrev pub protocol_queue : Protocol → Option Queue
protocol_queue Protocol.tcp = some tcp
protocol_queue Protocol.udp = some udp
protocol_queue Protocol.unknown = none

abbrev pub version_queue : IpVersion → Option Queue
version_queue IpVersion.ipv4 = some v4
version_queue IpVersion.ipv6 = some v6
version_queue IpVersion.unknown = none

-- A queue that the connection may have.
unfoldable pub try_queue : Option Queue → ℕ → Pool → Pool × Bool
try_queue none id p = (p, false)
try_queue (some q) id p = notify_specific_wait_queue q id p

unfoldable pub notify_wait_queue : ℕ → Pool → Pool
notify_wait_queue id p =
    let (p1, sent1) = try_queue (protocol_queue (p.object id).protocol) id p in
    if sent1
    then p1
    else let (p2, sent2) = try_queue (version_queue (p.object id).ip_version) id p1 in
      if sent2 then p2 else (notify_specific_wait_queue any id p2).0
