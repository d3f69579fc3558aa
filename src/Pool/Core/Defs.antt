-- ===== src/Pool/Core/Defs.antt =====
-- The invariant of the map of connections and of the counters that mirror it, and which changes of
-- the state leave it alone.
use netconnpool.Prelude.{
  ℕ, ◌%◌, ◌^◌, ◌≤◌, ◌≡◌, refl, sym, ◌∙◌, Option, none, some, true, false, length, count, member,
  Distinct, count_congr,
}
use netconnpool.Prelude.Int.{is_pos, pos_part}
use netconnpool.Prelude.Word.{add64}
use netconnpool.Protocol.{Protocol, protocol_eq}
use netconnpool.IpVersion.{IpVersion, version_eq}
use netconnpool.Stats.{Stats}
use netconnpool.Pool.State.{Pool, has_socket}

-- The counters that mirror the map.
pub record Tally : Type 0 where
  pub created : ℕ
  pub discarded : ℕ
  pub current : ℕ
  pub ipv4 : ℕ
  pub ipv6 : ℕ
  pub tcp : ℕ
  pub udp : ℕ

abbrev pub tally : Stats → Tally
tally s = record {
  created = s.total_connections_created;
  discarded = s.total_connections_closed;
  current = s.current_connections;
  ipv4 = s.current_ipv4_connections;
  ipv6 = s.current_ipv6_connections;
  tcp = s.current_tcp_connections;
  udp = s.current_udp_connections;
}

abbrev pub tallies : Option Stats → Option Tally
tallies none = none
tallies (some s) = some (tally s)

-- How many of the connections in the map are of a protocol, or of an IP version.
unfoldable pub of_protocol : Protocol → Pool → ℕ
of_protocol k p = count (λ id. protocol_eq (p.object id).protocol k) p.connections

unfoldable pub of_version : IpVersion → Pool → ℕ
of_version k p = count (λ id. version_eq (p.object id).ip_version k) p.connections

-- The counts by kind, which `Close` leaves behind.
pub record KindsAgree (t : Tally) (p : Pool) : Type 0 where
  pub ipv4_count : t.ipv4 ≡ of_version IpVersion.ipv4 p % 2 ^ 64
  pub ipv6_count : t.ipv6 ≡ of_version IpVersion.ipv6 p % 2 ^ 64
  pub tcp_count : t.tcp ≡ of_protocol Protocol.tcp p % 2 ^ 64
  pub udp_count : t.udp ≡ of_protocol Protocol.udp p % 2 ^ 64

pub record TallyAgrees (t : Tally) (p : Pool) : Type 0 where
  pub current_count : t.current ≡ length p.connections % 2 ^ 64
  pub balance : t.created ≡ add64 t.discarded t.current
  pub kinds : p.closed ≡ false → KindsAgree t p

abbrev pub Agrees : Option Tally → Pool → Type 0
Agrees none p = Unit {0}
Agrees (some t) p = TallyAgrees t p

-- The IDs in the map are distinct and were given out; every open socket belongs to a connection in
-- the map; the map is within a limited MaxConnections; the counters agree with it.
pub record Core (p : Pool) : Type 0 where
  pub distinct : Distinct p.connections
  pub allocated : (id : ℕ) → member id p.connections ≡ true → id ≤ p.next_id
  pub listed : (id : ℕ) → has_socket (p.object id).conn ≡ true → member id p.connections ≡ true
  pub within :
      is_pos p.config.max_connections ≡ true
      → length p.connections ≤ pos_part p.config.max_connections
  pub agrees : Agrees (tallies p.stats) p

-- `q` has the map, the sockets, the kinds and the mirroring counters of `p`.
pub record Keeps (p q : Pool) : Type 0 where
  pub same_config : q.config ≡ p.config
  pub same_next_id : q.next_id ≡ p.next_id
  pub same_connections : q.connections ≡ p.connections
  pub same_closed : q.closed ≡ p.closed
  pub same_conn : (id : ℕ) → (q.object id).conn ≡ (p.object id).conn
  pub same_protocol : (id : ℕ) → (q.object id).protocol ≡ (p.object id).protocol
  pub same_version : (id : ℕ) → (q.object id).ip_version ≡ (p.object id).ip_version
  pub same_tally : tallies q.stats ≡ tallies p.stats

pub Keeps-refl : (p : Pool) → Keeps p p
Keeps-refl p = record {
  same_config = refl;
  same_next_id = refl;
  same_connections = refl;
  same_closed = refl;
  same_conn = λ id. refl;
  same_protocol = λ id. refl;
  same_version = λ id. refl;
  same_tally = refl;
}

pub Keeps-trans : {p q r : Pool} → Keeps p q → Keeps q r → Keeps p r
Keeps-trans k l = record {
  same_config = l.same_config ∙ k.same_config;
  same_next_id = l.same_next_id ∙ k.same_next_id;
  same_connections = l.same_connections ∙ k.same_connections;
  same_closed = l.same_closed ∙ k.same_closed;
  same_conn = λ id. l.same_conn id ∙ k.same_conn id;
  same_protocol = λ id. l.same_protocol id ∙ k.same_protocol id;
  same_version = λ id. l.same_version id ∙ k.same_version id;
  same_tally = l.same_tally ∙ k.same_tally;
}

module _ {p q : Pool} (k : Keeps p q) where
  of_protocol_kept : (x : Protocol) → of_protocol x q ≡ of_protocol x p
  unfolding of_protocol
  of_protocol_kept x =
      rw k.same_connections (count_congr _ _ p.connections (λ id m. rw (k.same_protocol id) refl))

  of_version_kept : (x : IpVersion) → of_version x q ≡ of_version x p
  unfolding of_version
  of_version_kept x =
      rw k.same_connections (count_congr _ _ p.connections (λ id m. rw (k.same_version id) refl))

  TallyAgrees-kept : (t : Tally) → TallyAgrees t p → TallyAgrees t q
  TallyAgrees-kept t a = record {
    current_count = rw k.same_connections a.current_count;
    balance = a.balance;
    kinds = λ c.
        let b = a.kinds (sym k.same_closed ∙ c) in
        record {
          ipv4_count = rw (of_version_kept IpVersion.ipv4) b.ipv4_count;
          ipv6_count = rw (of_version_kept IpVersion.ipv6) b.ipv6_count;
          tcp_count = rw (of_protocol_kept Protocol.tcp) b.tcp_count;
          udp_count = rw (of_protocol_kept Protocol.udp) b.udp_count;
        };
  }

  Agrees-kept : (t : Option Tally) → Agrees t p → Agrees t q
  Agrees-kept none a = tt
  Agrees-kept (some t) a = TallyAgrees-kept t a

  pub Keeps-Core : Core p → Core q
  Keeps-Core c = record {
    distinct = rw k.same_connections c.distinct;
    allocated = rw (k.same_connections, k.same_next_id) c.allocated;
    listed = λ id h. rw k.same_connections (c.listed id (rw (k.same_conn id) at h));
    within = rw (k.same_connections, k.same_config) c.within;
    agrees = rw k.same_tally (Agrees-kept (tallies p.stats) c.agrees);
  }
