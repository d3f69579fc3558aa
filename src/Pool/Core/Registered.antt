-- ===== src/Pool/Core/Registered.antt =====
-- What `createConnection` makes of the pool from `NewConnection` on.
use netconnpool.Prelude.{
  ℕ, suc, ◌≡◌, Option, none, some, false, inl, inr, ◌==◌, if◌then◌else◌, ◌∷◌, member, arith,
  Bool-cases,
}
use netconnpool.Prelude.Word.{add64}
use netconnpool.Net.Addr.{NetConn}
use netconnpool.Protocol.{Protocol, protocol_eq, detect_protocol}
use netconnpool.IpVersion.{IpVersion, version_eq, detect_ip_version}
use netconnpool.Connection.{Connection, new_connection}
use netconnpool.Pool.State.{Pool, World}
use netconnpool.Pool.Create.{register, count_created}
use netconnpool.Pool.Core.Defs.{tallies, Tally}

-- The counters that mirror the map, when a connection of these kinds enters it.
abbrev pub recount : Connection → Tally → Tally
recount c t = record {
  created = add64 t.created 1;
  discarded = t.discarded;
  current = add64 t.current 1;
  ipv4 = if version_eq c.ip_version IpVersion.ipv4 then add64 t.ipv4 1 else t.ipv4;
  ipv6 = if version_eq c.ip_version IpVersion.ipv6 then add64 t.ipv6 1 else t.ipv6;
  tcp = if protocol_eq c.protocol Protocol.tcp then add64 t.tcp 1 else t.tcp;
  udp = if protocol_eq c.protocol Protocol.udp then add64 t.udp 1 else t.udp;
}

abbrev pub recounted : Connection → Option Tally → Option Tally
recounted c none = none
recounted c (some t) = some (recount c t)

count_created-tallies :
    (c : Connection) (q : Pool) → tallies (count_created c q).stats ≡ recounted c (tallies q.stats)
count_created-tallies c q = ground arith

module _ (w : World) (socket : Option NetConn) (p : Pool) where
  abbrev pub registered : Pool
  registered = (register w socket p).0

  -- The object of the new connection.
  abbrev pub newcomer : Connection
  newcomer =
      new_connection socket (detect_protocol socket)
        (detect_ip_version w.split_host w.parse_ip socket) p.now

  pub register-connections :
      member (suc p.next_id) p.connections ≡ false
      → registered.connections ≡ suc p.next_id ∷ p.connections
  unfolding register
  register-connections h = ground arith

  pub register-fields :
      (registered.config ≡ p.config)
      × (registered.next_id ≡ suc p.next_id)
      × (registered.closed ≡ p.closed)
      × (registered.idle_tcp ≡ p.idle_tcp)
      × (registered.idle_udp ≡ p.idle_udp)
  unfolding register
  register-fields = (ground arith, ground arith, ground arith, ground arith, ground arith)

  pub register-object :
      (j : ℕ) → registered.object j ≡ (if suc p.next_id == j then newcomer else p.object j)
  unfolding register
  register-object j = elim (Bool-cases p.config.clear_udp_buffer_on_return) [
    | inl e ↦ ground arith
    | inr e ↦ ground arith
  ]

  pub register-tallies : tallies registered.stats ≡ recounted newcomer (tallies p.stats)
  unfolding register
  register-tallies = ground arith
