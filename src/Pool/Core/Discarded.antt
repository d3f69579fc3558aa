-- ===== src/Pool/Core/Discarded.antt =====
-- `closeConnection` takes a connection out of the map, closes its socket and keeps the invariant.
use netconnpool.Prelude.{
  ℕ, ◌+◌, ◌%◌, ◌^◌, ◌≡◌, sym, ◌∙◌, ap, Option, none, some, Bool, true, false, inl, inr, ◌==◌,
  if◌then◌else◌, count, member, erase, count_congr, count-erase, length-erase, length-erase-le,
  erase_absent, member-erase_ne, erase-Distinct, member_of_member-erase, arith, Bool-cases,
}
use netconnpool.Prelude.Word.{add64, add64-minus_one, minus_one}
use netconnpool.Protocol.{Protocol, protocol_eq}
use netconnpool.IpVersion.{IpVersion, version_eq}
use netconnpool.Connection.{Connection}
use netconnpool.Pool.State.{Pool, World, has_socket}
use netconnpool.Pool.Discard.{close_connection, count_closed}
use netconnpool.Pool.Core.Defs.{Core, tallies, Tally, TallyAgrees, Agrees, of_protocol, of_version}
use netconnpool.Pool.Core.Closings.{
  closed-close_connection, config-close_connection, conn-close_connection,
  connections-close_connection, kinds-close_connection, next_id-close_connection,
}

abbrev pub discount : Protocol → IpVersion → Tally → Tally
discount k v t = record {
  created = t.created;
  discarded = add64 t.discarded 1;
  current = add64 t.current minus_one;
  ipv4 = if version_eq v IpVersion.ipv4 then add64 t.ipv4 minus_one else t.ipv4;
  ipv6 = if version_eq v IpVersion.ipv6 then add64 t.ipv6 minus_one else t.ipv6;
  tcp = if protocol_eq k Protocol.tcp then add64 t.tcp minus_one else t.tcp;
  udp = if protocol_eq k Protocol.udp then add64 t.udp minus_one else t.udp;
}

abbrev discounted : Connection → Option Tally → Option Tally
discounted c none = none
discounted c (some t) = some (discount c.protocol c.ip_version t)

count_closed-tallies :
    (c : Connection) (q : Pool) → tallies (count_closed c q).stats ≡ discounted c (tallies q.stats)
count_closed-tallies c q = ground arith

tallies-close_connection :
    (w : World) (p : Pool) (id : ℕ)
    → tallies (close_connection w p id).0.stats ≡ (
        if member id p.connections
        then discounted (p.object id) (tallies p.stats)
        else tallies p.stats)
unfolding close_connection
tallies-close_connection w p id = ground arith

-- One fewer, if it was counted.
count_less :
    (b : Bool) (t n m : ℕ)
    → t ≡ n % 2 ^ 64
    → n ≡ (if b then 1 else 0) + m
    → (if b then add64 t minus_one else t) ≡ m % 2 ^ 64
count_less true t n m h e = add64-minus_one t m (omega arith)
count_less false t n m h e = omega arith

balance_less : (c d t : ℕ) → c ≡ add64 d t → c ≡ add64 (add64 d 1) (add64 t minus_one)
unfolding add64
balance_less c d t h = omega arith

module _ (w : World) (p : Pool) (id : ℕ) where
  of_protocol-close_connection :
      (k : Protocol)
      → of_protocol k (close_connection w p id).0
        ≡ count (λ j. protocol_eq (p.object j).protocol k) (erase id p.connections)
  unfolding of_protocol
  of_protocol-close_connection k = rw (connections-close_connection w p id) (
      count_congr _ _ (erase id p.connections)
        (λ j m. ap (λ x. protocol_eq x k) (kinds-close_connection w p id j).0))

  of_version-close_connection :
      (k : IpVersion)
      → of_version k (close_connection w p id).0
        ≡ count (λ j. version_eq (p.object j).ip_version k) (erase id p.connections)
  unfolding of_version
  of_version-close_connection k = rw (connections-close_connection w p id) (
      count_congr _ _ (erase id p.connections)
        (λ j m. ap (λ x. version_eq x k) (kinds-close_connection w p id j).1))

  protocol_less :
      (k : Protocol) (t : ℕ)
      → member id p.connections ≡ true
      → t ≡ of_protocol k p % 2 ^ 64
      → (if protocol_eq (p.object id).protocol k then add64 t minus_one else t)
        ≡ of_protocol k (close_connection w p id).0 % 2 ^ 64
  unfolding of_protocol
  protocol_less k t m h = rw (of_protocol-close_connection k) (
      count_less _ t _ _ h
        (count-erase (λ j. protocol_eq (p.object j).protocol k) id p.connections m))

  version_less :
      (k : IpVersion) (t : ℕ)
      → member id p.connections ≡ true
      → t ≡ of_version k p % 2 ^ 64
      → (if version_eq (p.object id).ip_version k then add64 t minus_one else t)
        ≡ of_version k (close_connection w p id).0 % 2 ^ 64
  unfolding of_version
  version_less k t m h = rw (of_version-close_connection k) (
      count_less _ t _ _ h
        (count-erase (λ j. version_eq (p.object j).ip_version k) id p.connections m))

  discount-TallyAgrees :
      (t : Tally)
      → member id p.connections ≡ true
      → TallyAgrees t p
      → TallyAgrees
          (discount (p.object id).protocol (p.object id).ip_version t)
          (close_connection w p id).0
  discount-TallyAgrees t m a = record {
    current_count = rw (connections-close_connection w p id) (
        add64-minus_one t.current _
          (omega (arith, a.current_count, length-erase id p.connections m)));
    balance = balance_less t.created t.discarded t.current a.balance;
    kinds = λ open_.
        let b = a.kinds (sym (closed-close_connection w p id) ∙ open_) in
        record {
          ipv4_count = version_less IpVersion.ipv4 t.ipv4 m b.ipv4_count;
          ipv6_count = version_less IpVersion.ipv6 t.ipv6 m b.ipv6_count;
          tcp_count = protocol_less Protocol.tcp t.tcp m b.tcp_count;
          udp_count = protocol_less Protocol.udp t.udp m b.udp_count;
        };
  }

  Agrees-member :
      (o : Option Tally)
      → member id p.connections ≡ true
      → Agrees o p
      → Agrees (discounted (p.object id) o) (close_connection w p id).0
  Agrees-member none m a = tt
  Agrees-member (some t) m a = discount-TallyAgrees t m a

  -- A connection that the map does not hold leaves the map and its counters alone.
  Agrees-absent :
      (o : Option Tally)
      → member id p.connections ≡ false
      → Agrees o p
      → Agrees o (close_connection w p id).0
  unfolding of_protocol of_version
  Agrees-absent none m a = tt
  Agrees-absent (some t) m a = record {
    current_count =
        rw (connections-close_connection w p id, erase_absent id p.connections m) a.current_count;
    balance = a.balance;
    kinds = λ open_.
        let b = a.kinds (sym (closed-close_connection w p id) ∙ open_) in
        record {
          ipv4_count = b.ipv4_count ∙ ap (λ n. n % 2 ^ 64) (sym (same_version IpVersion.ipv4));
          ipv6_count = b.ipv6_count ∙ ap (λ n. n % 2 ^ 64) (sym (same_version IpVersion.ipv6));
          tcp_count = b.tcp_count ∙ ap (λ n. n % 2 ^ 64) (sym (same_protocol Protocol.tcp));
          udp_count = b.udp_count ∙ ap (λ n. n % 2 ^ 64) (sym (same_protocol Protocol.udp));
        };
  }
    where
      same_protocol : (k : Protocol) → of_protocol k (close_connection w p id).0 ≡ of_protocol k p
      same_protocol k =
          of_protocol-close_connection k
          ∙ ap (count (λ j. protocol_eq (p.object j).protocol k)) (erase_absent id p.connections m)

      same_version : (k : IpVersion) → of_version k (close_connection w p id).0 ≡ of_version k p
      same_version k =
          of_version-close_connection k
          ∙ ap (count (λ j. version_eq (p.object j).ip_version k)) (erase_absent id p.connections m)

  Agrees-close_connection :
      Agrees (tallies p.stats) p
      → Agrees (tallies (close_connection w p id).0.stats) (close_connection w p id).0
  Agrees-close_connection a = elim (Bool-cases (member id p.connections)) [
    | inl m ↦ rw (tallies-close_connection w p id, m) (Agrees-member (tallies p.stats) m a)
    | inr m ↦ rw (tallies-close_connection w p id, m) (Agrees-absent (tallies p.stats) m a)
  ]

  open_listed :
      Core p
      → (j : ℕ) → has_socket ((close_connection w p id).0.object j).conn ≡ true
      → member j (erase id p.connections) ≡ true
  open_listed c j h = elim (Bool-cases (id == j)) [
    | inl e ↦ absurd (no_socket e)
    | inr e ↦ member-erase_ne j id p.connections e ∙ c.listed j (kept e)
  ]
    where
      no_socket : (id == j) ≡ true → ⊥
      no_socket e = cc (rw (conn-close_connection w p id j, e) at h)

      kept : (id == j) ≡ false → has_socket (p.object j).conn ≡ true
      kept e = rw (conn-close_connection w p id j, e) at h

  -- `closeConnection` keeps the invariant.
  pub close_connection-Core : Core p → Core (close_connection w p id).0
  close_connection-Core c = record {
    distinct =
        rw (connections-close_connection w p id) (erase-Distinct id p.connections c.distinct);
    allocated =
        rw (connections-close_connection w p id, next_id-close_connection w p id)
          (λ j m. c.allocated j (member_of_member-erase j id p.connections m));
    listed = rw (connections-close_connection w p id) (open_listed c);
    within =
        rw (connections-close_connection w p id, config-close_connection w p id)
          (λ h. omega (arith, c.within h, length-erase-le id p.connections));
    agrees = Agrees-close_connection c.agrees;
  }
