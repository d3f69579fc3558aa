-- ===== src/Examples/Lent.antt =====
-- A pool with one connection, which is lent, and one goroutine that waits for a TCP connection.
use netconnpool.Prelude.{◌≡◌, ◌<◌, refl, true, false, [], ◌∷◌, length, member, arith}
use netconnpool.Protocol.{Protocol, detect_protocol}
use netconnpool.Pool.State.{Pool, tcp, is_connection_valid}
use netconnpool.Pool.Notify.{can_send}
use netconnpool.Pool.Put.{idle_capacity}
use netconnpool.Pool.Create.{create_connection, dialed, created, register}
use netconnpool.Pool.Borrow.{take_any, take_both, lend_new}
use netconnpool.Pool.Get.{
  get_with_timeout, timeout_loop, timeout_turn, timeout_pick, timeout_created,
}
use netconnpool.Pool.Wait.{join, has_room}
use netconnpool.Examples.Pools.{tcp_world, small_pool}

abbrev pub lent_pool : Pool
lent_pool = join tcp (get_with_timeout tcp_world small_pool).0

pub record AsLent (p : Pool) : Type 0 where
  pub open_ : p.closed ≡ false
  pub no_tcp : p.idle_tcp ≡ []
  pub no_udp : p.idle_udp ≡ []
  pub valid : is_connection_valid p 1 ≡ true
  pub is_tcp : (p.object 1).protocol ≡ Protocol.tcp
  pub room : length p.idle_tcp < idle_capacity p
  pub waiter : p.queue tcp ≡ 0 ∷ []
  pub ready : can_send (p.chan 0) ≡ true
  pub waits : member 0 (p.queue tcp) ≡ true

pub lent_pool-AsLent : AsLent lent_pool
unfolding get_with_timeout timeout_loop timeout_turn timeout_pick timeout_created take_any take_both
    create_connection dialed created register lend_new join member detect_protocol
    is_connection_valid
lent_pool-AsLent = record {
  open_ = refl;
  no_tcp = refl;
  no_udp = refl;
  valid = refl;
  is_tcp = refl;
  room = omega arith;
  waiter = refl;
  ready = refl;
  waits = refl;
}

pub no_waiters : has_room tcp (get_with_timeout tcp_world small_pool).0 ≡ true
unfolding get_with_timeout timeout_loop timeout_turn timeout_pick timeout_created take_any take_both
    create_connection dialed created register lend_new member detect_protocol
no_waiters = refl
