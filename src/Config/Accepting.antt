-- ===== src/Config/Accepting.antt =====
-- config.go: `defaultAcceptor`, the two goroutines of which it is made and the channel between them.
use netconnpool.Prelude.{◌≡◌, Option, none, some, Bool, true, false, List, [], ◌∷◌}
use netconnpool.Errors.{Error, Result, ok, err}
use netconnpool.Net.Addr.{NetConn}

-- The goroutine that calls `listener.Accept`.
pub data Worker : Type 0 where
  accepting sending finished : Worker

-- The caller of `defaultAcceptor`, in its `select`, in the wait of at most 100 ms, or back.
pub data Caller : Type 0 where
  selecting waiting : Caller
  returned : Result NetConn → Caller

-- `result` is what the buffer of `resultChan` holds, `closed` the sockets that the worker has closed.
pub record Accepting : Type 0 where
  pub worker : Worker
  pub caller : Caller
  pub result : Option (Result NetConn)
  pub context_done : Bool
  pub closed : List NetConn

abbrev pub new_accepting : Accepting
new_accepting = record {
  worker = accepting;
  caller = selecting;
  result = none;
  context_done = false;
  closed = [];
}

-- `if conn != nil { conn.Close() }`
abbrev pub close_accepted : Result NetConn → List NetConn
close_accepted (ok socket) = socket ∷ []
close_accepted (err e) = []

-- The cases of the three `select`s, by what they wait for. The listener gives its answer at any time,
-- and the context ends at any time.
pub data AcceptStep (answer : Result NetConn) : Accepting → Accepting → Type 0 where
  answers :
      (a : Accepting) → a.worker ≡ accepting → AcceptStep answer a (record a { worker = sending })
  sends :
      (a : Accepting)
      → a.worker ≡ sending
      → a.result ≡ none
      → AcceptStep answer a (record a { worker = finished; result = some answer })
  gives_up :
      (a : Accepting)
      → a.worker ≡ sending
      → a.context_done ≡ true
      → AcceptStep answer a (record a { worker = finished; closed = close_accepted answer })
  ends : (a : Accepting) → AcceptStep answer a (record a { context_done = true })
  receives :
      (r : Result NetConn) (a : Accepting)
      → a.caller ≡ selecting
      → a.result ≡ some r
      → AcceptStep answer a (record a { caller = returned r; result = none })
  abandons :
      (a : Accepting)
      → a.caller ≡ selecting
      → a.context_done ≡ true
      → AcceptStep answer a (record a { caller = waiting })
  returns :
      (a : Accepting)
      → a.caller ≡ waiting
      → AcceptStep answer a (record a { caller = returned (err Error.context) })

pub data Accepts (answer : Result NetConn) : Accepting → Type 0 where
  begin : Accepts answer new_accepting
  next : {a b : Accepting} → Accepts answer a → AcceptStep answer a b → Accepts answer b
