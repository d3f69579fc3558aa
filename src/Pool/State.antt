-- ===== src/Pool/State.antt =====
-- pool.go: the state of a pool, and what the package asks of code outside it.
use netconnpool.Prelude.{
  ℕ, suc, ◌+◌, Option, none, some, Bool, true, false, not, ◌&&◌, List, [], length, ◌==◌,
  if◌then◌else◌,
}
use netconnpool.Prelude.Int.{ℤ, pos, leb_ℤ, is_pos}
use netconnpool.Prelude.Text.{Text}
use netconnpool.Errors.{Error, Result}
use netconnpool.Net.Addr.{NetConn}
use netconnpool.Protocol.{Protocol}
use netconnpool.IpVersion.{IpVersion, ipv4, ipv6}
use netconnpool.Config.{Config}
use netconnpool.Connection.{Connection, new_connection, is_expired}
use netconnpool.Stats.{Stats, new_stats}

-- The five wait queues: `waitQueue`, `waitQueueIPv4`, `waitQueueIPv6`, `waitQueueTCP`,
-- `waitQueueUDP`.
pub data Queue : Type 0 where
  any v4 v6 tcp udp : Queue

abbrev pub queue_eq : Queue → Queue → Bool
queue_eq any any = true
queue_eq v4 v4 = true
queue_eq v6 v6 = true
queue_eq tcp tcp = true
queue_eq udp udp = true
queue_eq _ _ = false

-- A waiter's channel: `make(chan *Connection, 1)`.
pub record WaitChan : Type 0 where
  pub buffer : Option ℕ
  pub is_closed : Bool

-- What the pool has done to the outside: sockets closed, hooks called, UDP buffers cleared.
pub data Effect : Type 0 where
  closes : NetConn → Effect
  borrows returns : Option NetConn → Effect
  clears : Option NetConn → (timeout packets : ℤ) → Effect

-- The answers of the callbacks of the configuration and of the runtime, by the number of the
-- question: `dial` of Dialer, Acceptor or `defaultAcceptor`, where `ok none` is a nil socket without
-- an error; `on_created` and `close` of the hooks
-- OnCreated and CloseConn (or `conn.Close`); `takes` is the time that passes during the question.
-- `done` says that a `select` takes its `ctx.Done()` case, and `prefers_tcp` which of two idle
-- channels that are both ready it reads. `makes_channel` says whether `make(chan *Connection, n)`
-- succeeds, which panics on a size that is out of the range of the machine.
pub record World : Type 0 where
  pub dial : ℕ → Result (Option NetConn)
  pub on_created : ℕ → Option Error
  pub close : ℕ → Option Error
  pub takes : ℕ → ℕ
  pub done : ℕ → Bool
  pub prefers_tcp : ℕ → Bool
  pub split_host : Text → Option Text
  pub parse_ip : Text → Option (List ℕ)
  pub makes_channel : ℕ → Bool

-- `object` holds every Connection by its ID; `next_id` is the last ID that the generator gave.
-- `connections` lists the IDs in the map. The channels are lists, oldest first. `asked` counts the
-- questions put to the outside, `effects` has the latest first. `crashed` says that a goroutine has
-- called a method of a nil socket: the program has ended there with a panic, and the states that the
-- model has after it, in which the creation fails, are none of the program's.
pub record Pool : Type 0 where
  pub config : Config
  pub object : ℕ → Connection
  pub next_id : ℕ
  pub connections : List ℕ
  pub idle_tcp : List ℕ
  pub idle_udp : List ℕ
  pub closed : Bool
  pub stats : Option Stats
  pub queue : Queue → List ℕ
  pub chan : ℕ → WaitChan
  pub next_chan : ℕ
  pub now : ℕ
  pub asked : ℕ
  pub effects : List Effect
  pub crashed : Bool

abbrev no_object : Connection
no_object = new_connection none Protocol.unknown IpVersion.unknown 0

-- The literal of `NewPool`, before the warm-up.
abbrev pub new_pool : Config → (now : ℕ) → Pool
new_pool config now = record {
  config = config;
  object = λ _. no_object;
  next_id = 0;
  connections = [];
  idle_tcp = [];
  idle_udp = [];
  closed = false;
  stats = if config.enable_stats then some (new_stats now) else none;
  queue = λ _. [];
  chan = λ _. record { buffer = none; is_closed = false };
  next_chan = 0;
  now = now;
  asked = 0;
  effects = [];
  crashed = false;
}

-- `len(p.connections)` against `MaxConnections`, where that is limited.
abbrev pub at_limit : Pool → Bool
at_limit p =
    is_pos p.config.max_connections && leb_ℤ p.config.max_connections (pos (length p.connections))

abbrev pub with_stats : (ℕ → Stats → Stats) → Pool → Pool
with_stats f p = record p { stats = elim p.stats [ none ↦ none | some s ↦ some (f p.now s) ] }

abbrev pub update_at {ℓ} : {A : Type ℓ} → (ℕ → A) → ℕ → A → ℕ → A
update_at f i a j = if i == j then a else f j

-- A method on the object of an ID.
abbrev pub on_object : ℕ → (Connection → Connection) → Pool → Pool
on_object id f p = record p { object = update_at p.object id (f (p.object id)) }

abbrev pub set_queue : Queue → List ℕ → Pool → Pool
set_queue q waiters p = record p { queue = λ r. if queue_eq q r then waiters else p.queue r }

-- A question to the outside is over.
abbrev pub asks : World → Pool → Pool
asks w p = record p { asked = suc p.asked; now = p.now + w.takes p.asked }

-- `switch conn.GetIPVersion()` and `switch conn.GetProtocol()` over two counters.
abbrev pub by_version : (f g : ℕ → Stats → Stats) → IpVersion → ℕ → Stats → Stats
by_version f g ipv4 now s = f now s
by_version f g ipv6 now s = g now s
by_version f g IpVersion.unknown now s = s

abbrev pub by_protocol : (f g : ℕ → Stats → Stats) → Protocol → ℕ → Stats → Stats
by_protocol f g Protocol.tcp now s = f now s
by_protocol f g Protocol.udp now s = g now s
by_protocol f g Protocol.unknown now s = s

abbrev pub has_socket : Option NetConn → Bool
has_socket none = false
has_socket (some c) = true

-- `isConnectionValid`, for a connection that is not nil.
unfoldable pub is_connection_valid : Pool → ℕ → Bool
is_connection_valid p id =
    has_socket (p.object id).conn
    && not (is_expired p.config.max_lifetime p.now (p.object id))
    && not (p.config.enable_health_check && not (p.object id).is_healthy)
