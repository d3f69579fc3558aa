-- ===== src/Config/Lost.antt =====
-- What becomes of a socket that `defaultAcceptor` accepts.
use netconnpool.Prelude.{
  ◌≡◌, ◌∙◌, refl, ap, subst, ◌⊎◌, inl, inr, Option, none, some, true, List, [], ◌∷◌,
}
use netconnpool.Errors.{Error, Result, ok, err}
use netconnpool.Net.Addr.{NetConn}
use netconnpool.Config.Accepting.{
  Worker, Caller, Accepting, close_accepted, AcceptStep, Accepts, accepting, finished, sending,
  selecting, waiting, returned, answers, sends, gives_up, ends, receives, abandons, returns, begin,
  next,
}

-- The caller has not returned the listener's answer.
abbrev Without : Caller → Type 0
Without selecting = Unit {0}
Without waiting = Unit {0}
Without (returned o) = o ≡ err Error.context

module _ (r : Result NetConn) where
  -- Where the listener's answer is: it has not come, the worker has it, or has left it to the caller
  -- or closed it, or the buffer has it.
  abbrev Where : Worker → Caller → Option (Result NetConn) → List NetConn → Type 0
  Where accepting c o xs = (o ≡ none) × (xs ≡ []) × Without c
  Where sending c o xs = (o ≡ none) × (xs ≡ []) × Without c
  Where finished c none xs = ((xs ≡ close_accepted r) × Without c) ⊎ ((xs ≡ []) × (c ≡ returned r))
  Where finished c (some q) xs = (q ≡ r) × (xs ≡ []) × Without c

  abbrev Placed : Accepting → Type 0
  Placed a = Where a.worker a.caller a.result a.closed

  received :
      (v : Worker) (q : Result NetConn) (xs : List NetConn)
      → Where v selecting (some q) xs
      → Where v (returned q) none xs
  received accepting q xs k = cc (k.0)
  received sending q xs k = cc (k.0)
  received finished q xs k = inr (k.1, ap returned k.0)

  left_waiting :
      (v : Worker) (o : Option (Result NetConn)) (xs : List NetConn)
      → Where v selecting o xs
      → Where v waiting o xs
  left_waiting accepting o xs k = k
  left_waiting sending o xs k = k
  left_waiting finished none xs (inl k) = inl k
  left_waiting finished none xs (inr k) = cc (k.1)
  left_waiting finished (some q) xs k = k

  left_early :
      (v : Worker) (o : Option (Result NetConn)) (xs : List NetConn)
      → Where v waiting o xs
      → Where v (returned (err Error.context)) o xs
  left_early accepting o xs k = (k.0, k.1, refl)
  left_early sending o xs k = (k.0, k.1, refl)
  left_early finished none xs (inl k) = inl (k.0, refl)
  left_early finished none xs (inr k) = cc (k.1)
  left_early finished (some q) xs k = (k.0, k.1, refl)

  closed_it :
      (c : Caller) (o : Option (Result NetConn)) (xs : List NetConn)
      → Where sending c o xs
      → Where finished c o (close_accepted r)
  closed_it c none xs k = inl (refl, k.2)
  closed_it c (some q) xs k = cc (k.0)

  AcceptStep-Placed : {a b : Accepting} → AcceptStep r a b → Placed a → Placed b
  AcceptStep-Placed (answers a e) k = rw e at k
  AcceptStep-Placed (sends a e f) k =
      let h = subst (λ (v : Worker). Where v a.caller a.result a.closed) e k in (refl, h.1, h.2)
  AcceptStep-Placed (gives_up a e f) k =
      closed_it a.caller a.result a.closed
        (subst (λ (v : Worker). Where v a.caller a.result a.closed) e k)
  AcceptStep-Placed (ends a) k = k
  AcceptStep-Placed (receives q a e f) k = received a.worker q a.closed (rw (e, f) at k)
  AcceptStep-Placed (abandons a e f) k = left_waiting a.worker a.result a.closed (rw e at k)
  AcceptStep-Placed (returns a e) k = left_early a.worker a.result a.closed (rw e at k)

  Accepts-Placed : {a : Accepting} → Accepts r a → Placed a
  Accepts-Placed begin = (refl, refl, tt)
  Accepts-Placed (next t s) = AcceptStep-Placed s (Accepts-Placed t)

-- What the socket of the listener can come to, with what the caller returns.
pub data Fate (socket : NetConn) (a : Accepting) : Type 0 where
  handed_over : a.caller ≡ returned (ok socket) → a.result ≡ none → a.closed ≡ [] → Fate socket a
  shut :
      a.caller ≡ returned (err Error.context)
      → a.result ≡ none
      → a.closed ≡ socket ∷ []
      → Fate socket a
  lost :
      a.caller ≡ returned (err Error.context)
      → a.result ≡ some (ok socket)
      → a.closed ≡ []
      → Fate socket a

fate_of :
    (socket : NetConn) (a : Accepting) (o : Result NetConn) (q : Option (Result NetConn))
    → a.caller ≡ returned o
    → a.result ≡ q
    → Where (ok socket) finished (returned o) q a.closed
    → Fate socket a
fate_of socket a o none c e (inl k) = shut (c ∙ ap returned k.1) e k.0
fate_of socket a o none c e (inr k) = handed_over (c ∙ k.1) e k.0
fate_of socket a o (some q) c e k = lost (c ∙ ap returned k.2) (e ∙ ap some k.0) k.1

fates :
    (socket : NetConn) (a : Accepting) (o : Result NetConn)
    → Accepts (ok socket) a
    → a.worker ≡ finished
    → a.caller ≡ returned o
    → Fate socket a
fates socket a o t f c =
    fate_of socket a o a.result c refl (rw (f, c) at (Accepts-Placed (ok socket) t))

-- The state of a run that loses its socket.
abbrev pub lost_state : NetConn → Accepting
lost_state socket = record {
  worker = finished;
  caller = returned (err Error.context);
  result = some (ok socket);
  context_done = true;
  closed = [];
}

loses : (socket : NetConn) → Accepts (ok socket) (lost_state socket)
loses socket =
    next
      (next (next (next (next begin (ends _)) (abandons _ refl refl)) (returns _ refl))
        (answers _ refl))
      (sends _ refl refl)

-- Once both goroutines of `defaultAcceptor` are done, and the listener has answered with a socket: the
-- caller has returned it, or an error while the socket was closed, or an error while the socket is
-- left in the channel, open; and there is a run that ends so.
pub accept_fates :
    (socket : NetConn) (a : Accepting) (o : Result NetConn)
    → Accepts (ok socket) a
    → a.worker ≡ finished
    → a.caller ≡ returned o
    → Fate socket a × Accepts (ok socket) (lost_state socket)
accept_fates socket a o t f c = (fates socket a o t f c, loses socket)
