-- ===== src/Pool/Lending/Traces.antt =====
-- The pool implements the machine of lendings, as long as no waiter takes a connection from its
-- channel.
use netconnpool.Prelude.{
  ℕ, ◌+◌, ◌≡◌, refl, ap, ◌∙◌, sym, subst, none, some, Bool, true, false, ◌==◌, if◌then◌else◌, List,
  [], ◌∷◌, count, arith, Bool-cases, inl, inr, eq_of_==,
}
use netconnpool.Prelude.{if_cases}
use netconnpool.Protocol.{Protocol}
use netconnpool.IpVersion.{IpVersion}
use netconnpool.Config.{Config}
use netconnpool.Pool.State.{Pool, World, new_pool}
use netconnpool.Pool.Put.{put}
use netconnpool.Pool.Get.{get_with_timeout}
use netconnpool.Pool.GetProtocol.{get_with_protocol}
use netconnpool.Pool.GetVersion.{get_with_ip_version}
use netconnpool.Pool.Run.{
  Step, warms, gets, gets_protocol, gets_version, puts, joins, receives, waits_on, gives_up,
  finds_closed, turns_away, shuts_out, detects, checks, cleans, begins_close, closes_connections,
  closes_queues, closes_idle, passes,
}
use netconnpool.Pool.Lending.Defs.{
  occurrences, tokens, Once, lent, Event, lends, returns, silent, Spec, Runs, Lendings,
}
use netconnpool.Pool.Lending.Puts.{lent-Held}
use netconnpool.Pool.Lending.Calls.{event_of}
use netconnpool.Pool.Lending.Returns.{Calm, Calm-refl, Steady-Calm, PutBack, put-PutBack, put_ok}
use netconnpool.Pool.Lending.Rounds.{get_with_timeout-Obeys}
use netconnpool.Pool.Lending.Kinds.{get_with_protocol-Obeys, get_with_ip_version-Obeys}
use netconnpool.Pool.Lending.Others.{
  detect_leaks-Steady, check_connection-Steady, perform_cleanup-Steady, begin_close-Calm,
  close_connections-Calm, close_wait_queues-Calm, close_idle-Calm,
}
use netconnpool.Pool.Lending.Waits.{
  same-Calm, warm_up-Calm, join-Calm, Waits, Leaves, receive-Waits, give_up-Leaves,
  pool_gone-Leaves,
}

-- A step that is no call of a `Get`, no `Put` of a connection, and no waiter's taking one.
abbrev pub IsQuiet : {w : World} {p q : Pool} → Step w p q → Type 0
IsQuiet (gets p) = ⊥
IsQuiet (gets_protocol k p) = ⊥
IsQuiet (gets_version v p) = ⊥
IsQuiet (puts (some id) p) = ⊥
IsQuiet (receives q started ch e) = ⊥
IsQuiet _ = Unit

-- What a `Put` of a lent connection is: a closed pool, and an invalid connection, keep it from
-- being lent again.
abbrev pub put_event : Pool → ℕ → Event
put_event p id = if put_ok p id then returns id else silent

-- The steps of a pool whose callers give back what they were lent.
pub data Use (w : World) : Pool → Event → Pool → Type 0 where
  use_get : (p : Pool) → Use w p (event_of (get_with_timeout w p).1) (get_with_timeout w p).0
  use_protocol :
      (k : Protocol) (p : Pool)
      → Use w p (event_of (get_with_protocol w k p).1) (get_with_protocol w k p).0
  use_version :
      (v : IpVersion) (p : Pool)
      → Use w p (event_of (get_with_ip_version w v p).1) (get_with_ip_version w v p).0
  use_put : (id : ℕ) (p : Pool) → lent p id ≡ true → Use w p (put_event p id) (put w p (some id)).0
  use_other : {p q : Pool} (s : Step w p q) → IsQuiet s → Use w p silent q

quiet-Calm : {w : World} {p q : Pool} (s : Step w p q) → IsQuiet s → Once p → Calm p q
unfolding put
quiet-Calm {w} (warms p) n o = warm_up-Calm w p o
quiet-Calm (gets p) n o = absurd n
quiet-Calm (gets_protocol k p) n o = absurd n
quiet-Calm (gets_version v p) n o = absurd n
quiet-Calm (puts (some id) p) n o = absurd n
quiet-Calm (puts none p) n o = Calm-refl p o
quiet-Calm (joins q p room) n o = join-Calm q p o
quiet-Calm (turns_away started p) n o = same-Calm refl refl refl (λ j. refl) o
quiet-Calm (shuts_out started p shut) n o = same-Calm refl refl refl (λ j. refl) o
quiet-Calm (receives q started ch e) n o = absurd n
quiet-Calm {w} {p} (waits_on q started ch e) n o =
    subst (Waits p) e (receive-Waits w q started ch p o)
quiet-Calm {w} {p} (gives_up q started ch e) n o =
    subst (Leaves p) e (give_up-Leaves q started ch p o)
quiet-Calm {w} {p} (finds_closed q started ch shut e) n o =
    subst (Leaves p) e (pool_gone-Leaves q started ch p o)
quiet-Calm (detects p open_) n o = Steady-Calm o (detect_leaks-Steady p)
quiet-Calm (checks id answer p m) n o = Steady-Calm o (check_connection-Steady id answer p)
quiet-Calm {w} (cleans p open_) n o = Steady-Calm o (perform_cleanup-Steady w p)
quiet-Calm (begins_close p open_) n o = begin_close-Calm p o
quiet-Calm {w} (closes_connections p shut) n o = close_connections-Calm w p o
quiet-Calm (closes_queues p shut) n o = close_wait_queues-Calm p o
quiet-Calm (closes_idle p shut) n o = close_idle-Calm p o
quiet-Calm (passes t p) n o = same-Calm refl refl refl (λ j. refl) o

put-Spec :
    (id : ℕ) (p q : Pool)
    → lent p id ≡ true
    → PutBack id p q
    → Spec (put_event p id) (lent p) (lent q)
put-Spec id p q u b =
    if_cases (λ e. Spec e (lent p) (lent q)) (put_ok p id)
      (λ v. (u, λ j. ground (arith, b.put_use j, v))) (λ v j. ground (arith, b.put_use j, v))

Use-Spec :
    {w : World} {p q : Pool} {e : Event} → Use w p e q → Once p → Once q × Spec e (lent p) (lent q)
Use-Spec {w} (use_get p) o = get_with_timeout-Obeys w p o
Use-Spec {w} (use_protocol k p) o = get_with_protocol-Obeys w k p o
Use-Spec {w} (use_version v p) o = get_with_ip_version-Obeys w v p o
Use-Spec {w} (use_put id p u) o =
    let b = put-PutBack w p id (lent-Held p id o u) in (b.put_once, put-Spec id p _ u b)
Use-Spec {w} (use_other s n) o = let c = quiet-Calm s n o in (c.calm_once, c.calm_use)

-- The events of a pool from `NewPool` on, latest first.
pub data Trace (w : World) (config : Config) : List Event → Pool → Type 0 where
  opens : (now : ℕ) → Trace w config [] (new_pool config now)
  goes :
      {es : List Event} {p q : Pool} {e : Event}
      → Trace w config es p
      → Use w p e q
      → Trace w config (e ∷ es) q

pub new_pool-Once : (config : Config) (now : ℕ) → Once (new_pool config now)
unfolding tokens occurrences count
new_pool-Once config now = record { one_holder = λ j. omega arith }

pub Trace-Once :
    {w : World} {config : Config} {es : List Event} {p : Pool} → Trace w config es p → Once p
Trace-Once (opens now) = new_pool-Once _ now
Trace-Once (goes t u) = (Use-Spec u (Trace-Once t)).0

-- The events of a pool are a run of the machine of lendings, which ends in the connections that are
-- in use.
pub Trace-Runs :
    {w : World} {config : Config} {es : List Event} {p : Pool}
    → Trace w config es p
    → Runs es (lent p)
Trace-Runs (opens now) = Runs.start
Trace-Runs (goes t u) = Runs.next _ (Trace-Runs t) (Use-Spec u (Trace-Once t)).1

abbrev pub is_lend : ℕ → Event → Bool
is_lend id (lends j) = j == id
is_lend id (returns j) = false
is_lend id silent = false

abbrev pub is_return : ℕ → Event → Bool
is_return id (lends j) = false
is_return id (returns j) = j == id
is_return id silent = false

lent_at : (l : Lendings) {b : Bool} (j id : ℕ) → l j ≡ b → (j == id) ≡ true → l id ≡ b
lent_at l j id h e = sym (ap l (eq_of_== j id e)) ∙ h

Runs-balance :
    {es : List Event} {l : Lendings} (id : ℕ)
    → Runs es l
    → count (is_lend id) es ≡ count (is_return id) es + (if l id then 1 else 0)
unfolding count
Runs-balance id Runs.start = omega arith
Runs-balance id (Runs.next {l = k} (lends j) r s) = elim (Bool-cases (j == id)) [
  | inl e ↦ ground (arith, Runs-balance id r, s.1 id, lent_at k j id s.0 e, e)
  | inr e ↦ ground (arith, Runs-balance id r, s.1 id, e)
]
Runs-balance id (Runs.next {l = k} (returns j) r s) = elim (Bool-cases (j == id)) [
  | inl e ↦ ground (arith, Runs-balance id r, s.1 id, lent_at k j id s.0 e, e)
  | inr e ↦ ground (arith, Runs-balance id r, s.1 id, e)
]
Runs-balance id (Runs.next silent r s) = ground (arith, Runs-balance id r, s id)

-- Of every connection: it was lent as often as it was given back, and once more if it is in use.
pub Trace-balance :
    {w : World} {config : Config} {es : List Event} {p : Pool} (id : ℕ)
    → Trace w config es p
    → count (is_lend id) es ≡ count (is_return id) es + (if lent p id then 1 else 0)
Trace-balance id t = Runs-balance id (Trace-Runs t)
