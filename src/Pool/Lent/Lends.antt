-- ===== src/Pool/Lent/Lends.antt =====
-- The last steps of a `Get`: lending a connection that was idle, or a new one.
use netconnpool.Prelude.{ℕ, ◌≡◌, refl, Option, none, some, true, if_cases, arith}
use netconnpool.Errors.{Error, Result, ok, err}
use netconnpool.Net.Addr.{NetConn}
use netconnpool.Prelude.{suc, ◌⊎◌, inl, inr}
use netconnpool.Protocol.{Protocol, detect_protocol}
use netconnpool.IpVersion.{IpVersion, detect_ip_version}
use netconnpool.Connection.{Connection}
use netconnpool.Pool.State.{Pool, World, has_socket, is_connection_valid, at_limit, asks}
use netconnpool.Pool.Create.{create_connection, created, approved, dialed, register, lacks_source}
use netconnpool.Pool.Borrow.{
  Outcome, got, failed, waits, stuck, lend_idle, lend_idle_of_protocol, lend_new,
}
use netconnpool.Pool.Get.{finish_get}

-- The connection is marked as in use and has its socket.
pub record Lent (p : Pool) (id : ℕ) : Type 0 where
  pub in_use : (p.object id).in_use ≡ true
  pub open_ : has_socket (p.object id).conn ≡ true

pub lend_idle-Lent :
    (id : ℕ) (p : Pool) → is_connection_valid p id ≡ true → Lent (lend_idle id p) id
unfolding lend_idle is_connection_valid
lend_idle-Lent id p v = record { in_use = ground arith; open_ = ground arith }

pub lend_idle_of_protocol-Lent :
    (id : ℕ) (p : Pool) → is_connection_valid p id ≡ true → Lent (lend_idle_of_protocol id p) id
unfolding lend_idle_of_protocol is_connection_valid
lend_idle_of_protocol-Lent id p v = record { in_use = ground arith; open_ = ground arith }

pub lend_new-Lent :
    (id : ℕ) (p : Pool) → has_socket (p.object id).conn ≡ true → Lent (lend_new id p) id
unfolding lend_new
lend_new-Lent id p v = record { in_use = ground arith; open_ = ground arith }

-- Dialer or Acceptor answers some question with neither a socket nor an error.
abbrev pub GivesNil : World → Type 0
GivesNil w = (n : ℕ) × (w.dial n ≡ ok none)

-- A connection of no known kind.
abbrev pub OfNoKind : Connection → Type 0
OfNoKind c = (c.protocol ≡ Protocol.unknown) × (c.ip_version ≡ IpVersion.unknown)

-- A creation that reports no error gives a connection with a socket, or one of no known kind where
-- there was no socket.
abbrev pub Fresh : World → Pool × Result ℕ → Type 0
Fresh w (p, ok id) = (has_socket (p.object id).conn ≡ true) ⊎ (GivesNil w × OfNoKind (p.object id))
Fresh w (p, err e) = Unit

pub register_open :
    (w : World) (socket : NetConn) (p : Pool)
    → has_socket ((register w (some socket) p).0.object (suc p.next_id)).conn ≡ true
unfolding register
register_open w socket p = ground arith

register_bare : (w : World) (p : Pool) → OfNoKind ((register w none p).0.object (suc p.next_id))
unfolding register detect_protocol detect_ip_version
register_bare w p = (ground arith, ground arith)

module _ (w : World) (n : ℕ) where
  register-Fresh : (o : Option NetConn) (p : Pool) → w.dial n ≡ ok o → Fresh w (register w o p)
  unfolding register
  register-Fresh (some socket) p e = inl (register_open w socket p)
  register-Fresh none p e = inr ((n, e), register_bare w p)

  approved-Fresh :
      (o : Option NetConn) (h : Option Error) (p : Pool)
      → w.dial n ≡ ok o
      → Fresh w (approved w o h p)
  unfolding approved
  approved-Fresh o none p e = register-Fresh o (asks w p) e
  approved-Fresh o (some h) p e = tt

  dialed-Fresh : (r : Result (Option NetConn)) (p : Pool) → w.dial n ≡ r → Fresh w (dialed w r p)
  unfolding dialed created
  dialed-Fresh (err h) p e = tt
  dialed-Fresh (ok o) p e =
      if_cases (Fresh w) p.config.on_created (λ _. approved-Fresh o _ p e)
        (λ _. register-Fresh o p e)

pub create_connection-Fresh : (w : World) (p : Pool) → Fresh w (create_connection w p)
unfolding create_connection
create_connection-Fresh w p =
    if_cases (Fresh w) (w.done p.asked) (λ _. tt)
      λ _.
        if_cases (Fresh w) p.closed (λ _. tt)
          λ _.
            if_cases (Fresh w) (at_limit p) (λ _. tt)
              λ _.
                if_cases (Fresh w) (lacks_source p.config.mode p.config) (λ _. tt)
                  (λ _. dialed-Fresh w p.asked (w.dial p.asked) (asks w p) refl)

-- How a `Get` may end: never for want of fuel, and with a connection only if it is as `handed` says.
abbrev pub Ends : (handed : Pool → ℕ → Type 0) → Pool × Outcome → Type 0
Ends handed (p, got id) = handed p id
Ends handed (p, failed e) = Unit
Ends handed (p, waits q) = Unit
Ends handed (p, stuck) = ⊥

-- The connection is lent and passes the test of its kind.
abbrev pub Serves : (Pool → ℕ → Type 0) → Pool × Outcome → Type 0
Serves kind r = Ends (λ p id. Lent p id × kind p id) r

-- The statistics that end a `Get` change no connection.
pub finish_get-Ends :
    (handed : Pool → ℕ → Type 0) (started : ℕ) (p : Pool) (o : Outcome)
    → ((q : Pool) (id : ℕ) → q.object ≡ p.object → handed p id → handed q id)
    → Ends handed (p, o)
    → Ends handed (finish_get started (p, o))
finish_get-Ends handed started p (got id) keeps s = keeps _ id refl s
finish_get-Ends handed started p (failed e) keeps s = tt
finish_get-Ends handed started p (waits q) keeps s = tt
finish_get-Ends handed started p stuck keeps s = s

pub finish_get-Serves :
    (kind : Pool → ℕ → Type 0) (started : ℕ) (p : Pool) (o : Outcome)
    → ((q : Pool) (id : ℕ) → q.object ≡ p.object → kind p id → kind q id)
    → Serves kind (p, o)
    → Serves kind (finish_get started (p, o))
finish_get-Serves kind started p (got id) keeps s =
    (record { in_use = s.0.in_use; open_ = s.0.open_ }, keeps _ id refl s.1)
finish_get-Serves kind started p (failed e) keeps s = tt
finish_get-Serves kind started p (waits q) keeps s = tt
finish_get-Serves kind started p stuck keeps s = s
