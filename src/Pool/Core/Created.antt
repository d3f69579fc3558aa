-- ===== src/Pool/Core/Created.antt =====
-- `createConnection` keeps the invariant of the map.
use netconnpool.Prelude.{
  ℕ, suc, ◌+◌, ◌%◌, ◌^◌, ◌≤◌, ◌≡◌, refl, sym, ◌∙◌, ap, Option, none, some, Bool, true, false,
  if◌then◌else◌, ◌∷◌, length, count, count-cons, member, count_congr, arith, ==_refl, ==_false, ap₂,
  if_cases,
}
use netconnpool.Prelude.Int.{is_pos, pos_part}
use netconnpool.Prelude.Word.{add64, add64-one}
use netconnpool.Net.Addr.{NetConn}
use netconnpool.Protocol.{Protocol, protocol_eq}
use netconnpool.IpVersion.{IpVersion, version_eq}
use netconnpool.Connection.{Connection}
use netconnpool.Errors.{Error, Result, ok, err}
use netconnpool.Pool.State.{Pool, World, has_socket, at_limit, asks}
use netconnpool.Pool.Create.{create_connection, created, approved, dialed, lacks_source}
use netconnpool.Pool.Core.Defs.{
  Core, Keeps-Core, tallies, Tally, TallyAgrees, Agrees, of_protocol, of_version,
}
use netconnpool.Pool.Core.Unchanged.{elsewhere-Keeps}
use netconnpool.Pool.Core.Registered.{
  recount, recounted, registered, newcomer, register-connections, register-fields, register-object,
  register-tallies,
}
use netconnpool.Prelude.{member_beyond}

count_more :
    (b : Bool) (t n m : ℕ)
    → t ≡ n % 2 ^ 64
    → m ≡ (if b then 1 else 0) + n
    → (if b then add64 t 1 else t) ≡ m % 2 ^ 64
count_more true t n m h e = rw e (add64-one t n h ∙ ap (λ k. k % 2 ^ 64) (omega arith))
count_more false t n m h e = omega arith

balance_more : (c d t : ℕ) → c ≡ add64 d t → add64 c 1 ≡ add64 d (add64 t 1)
unfolding add64
balance_more c d t h = omega arith

fresh : (p : Pool) → Core p → member (suc p.next_id) p.connections ≡ false
fresh p c = member_beyond p.next_id p.connections c.allocated

module _ (w : World) (socket : Option NetConn) (p : Pool) (c : Core p) where
  abbrev q : Pool
  q = registered w socket p

  abbrev x : Connection
  x = newcomer w socket p

  old_object : (j : ℕ) → member j p.connections ≡ true → q.object j ≡ p.object j
  old_object j m =
      let le = c.allocated j m in
      rw (register-object w socket p j, ==_false (suc p.next_id) j (λ e. omega arith)) refl

  new_object : q.object (suc p.next_id) ≡ x
  new_object = rw (register-object w socket p (suc p.next_id), ==_refl (suc p.next_id)) refl

  -- A test on the connections counts the new one and, as before, the old ones.
  count-register :
      (f : Connection → Bool)
      → count (λ j. f (q.object j)) q.connections
        ≡ (if f x then 1 else 0) + count (λ j. f (p.object j)) p.connections
  count-register f = rw (register-connections w socket p (fresh p c)) (
      count-cons (λ j. f (q.object j)) (suc p.next_id) p.connections
      ∙ ap₂ (λ (a b : ℕ). a + b) (ap (λ o. if f o then 1 else 0) new_object)
          (count_congr _ _ p.connections (λ j m. ap f (old_object j m))))

  register-TallyAgrees : (t : Tally) → TallyAgrees t p → TallyAgrees (recount x t) q
  unfolding of_protocol of_version
  register-TallyAgrees t a = record {
    current_count =
        rw (register-connections w socket p (fresh p c))
          (add64-one t.current _ a.current_count ∙ ap (λ k. k % 2 ^ 64) (omega arith));
    balance = balance_more t.created t.discarded t.current a.balance;
    kinds = λ open_.
        let b = a.kinds (sym (register-fields w socket p).2 ∙ open_) in
        record {
          ipv4_count =
              count_more _ t.ipv4 _ _ b.ipv4_count
                (count-register λ o. version_eq o.ip_version IpVersion.ipv4);
          ipv6_count =
              count_more _ t.ipv6 _ _ b.ipv6_count
                (count-register λ o. version_eq o.ip_version IpVersion.ipv6);
          tcp_count =
              count_more _ t.tcp _ _ b.tcp_count
                (count-register λ o. protocol_eq o.protocol Protocol.tcp);
          udp_count =
              count_more _ t.udp _ _ b.udp_count
                (count-register λ o. protocol_eq o.protocol Protocol.udp);
        };
  }

  Agrees-registered : (o : Option Tally) → Agrees o p → Agrees (recounted x o) q
  Agrees-registered none a = tt
  Agrees-registered (some t) a = register-TallyAgrees t a

  allocated_registered :
      (j : ℕ) → member j (suc p.next_id ∷ p.connections) ≡ true → j ≤ suc p.next_id
  unfolding member
  allocated_registered j m = ground (arith, c.allocated j)

  listed_registered :
      (j : ℕ)
      → has_socket (q.object j).conn ≡ true
      → member j (suc p.next_id ∷ p.connections) ≡ true
  unfolding member
  listed_registered j h = ground (arith, c.listed j, register-object w socket p j)

  register-Core :
      (is_pos p.config.max_connections ≡ true
        → length p.connections + 1 ≤ pos_part p.config.max_connections)
      → Core q
  register-Core room = record {
    distinct = rw (register-connections w socket p (fresh p c)) (fresh p c, c.distinct);
    allocated =
        rw (register-connections w socket p (fresh p c), (register-fields w socket p).1)
          allocated_registered;
    listed = rw (register-connections w socket p (fresh p c)) listed_registered;
    within =
        rw (register-connections w socket p (fresh p c), (register-fields w socket p).0)
          (λ h. omega (arith, room h));
    agrees = rw (register-tallies w socket p) (Agrees-registered (tallies p.stats) c.agrees);
  }

-- Where the map is not at its limit there is room for one more.
pub room_of :
    (p : Pool)
    → at_limit p ≡ false
    → is_pos p.config.max_connections ≡ true
    → length p.connections + 1 ≤ pos_part p.config.max_connections
room_of p h k = ground arith

abbrev CoreFirst : Pool × Result ℕ → Type 0
CoreFirst r = Core r.0

approved-Core :
    (w : World) (socket : Option NetConn) (e : Option Error) (p : Pool)
    → at_limit p ≡ false
    → Core p
    → CoreFirst (approved w socket e p)
unfolding approved
approved-Core w socket none p room c =
    register-Core w socket (asks w p) (Keeps-Core (elsewhere-Keeps p) c) (room_of p room)
approved-Core w none (some e) p room c = Keeps-Core (elsewhere-Keeps p) c
approved-Core w (some socket) (some e) p room c = Keeps-Core (elsewhere-Keeps p) c

dialed-Core :
    (w : World) (r : Result (Option NetConn)) (p : Pool)
    → at_limit p ≡ false
    → Core p
    → CoreFirst (dialed w r p)
unfolding dialed created
dialed-Core w (err e) p room c = c
dialed-Core w (ok socket) p room c =
    if_cases CoreFirst p.config.on_created
      (λ _. approved-Core w socket (w.on_created p.asked) p room c)
      (λ _. register-Core w socket p c (room_of p room))

-- `createConnection` keeps the invariant, whatever the callbacks answer.
pub create_connection-Core : (w : World) (p : Pool) → Core p → Core (create_connection w p).0
unfolding create_connection
create_connection-Core w p c =
    if_cases CoreFirst (w.done p.asked) (λ _. c)
      λ _.
        if_cases CoreFirst p.closed (λ _. c)
          λ _.
            if_cases CoreFirst (at_limit p) (λ _. c)
              λ room.
                if_cases CoreFirst (lacks_source p.config.mode p.config) (λ _. c)
                  λ _.
                    dialed-Core w (w.dial p.asked) (asks w p) room
                      (Keeps-Core (elsewhere-Keeps p) c)
