-- ===== src/Examples/Accepted.antt =====
-- A run of `defaultAcceptor` in which the listener answers and the caller returns the socket.
use netconnpool.Prelude.{refl, none, false, []}
use netconnpool.Errors.{ok}
use netconnpool.Config.Accepting.{
  Accepting, finished, returned, answers, sends, receives, begin, next, Accepts,
}
use netconnpool.Config.Lost.{Fate, lost_state, accept_fates}
use netconnpool.Examples.Pools.{tcp_socket}

abbrev accepted : Accepting
accepted = record {
  worker = finished;
  caller = returned (ok (tcp_socket 7));
  result = none;
  context_done = false;
  closed = [];
}

accept_fates_example :
    Fate (tcp_socket 7) accepted × Accepts (ok (tcp_socket 7)) (lost_state (tcp_socket 7))
accept_fates_example =
    accept_fates (tcp_socket 7) accepted (ok (tcp_socket 7))
      (next (next (next begin (answers _ refl)) (sends _ refl refl))
        (receives (ok (tcp_socket 7)) _ refl refl))
      refl refl
