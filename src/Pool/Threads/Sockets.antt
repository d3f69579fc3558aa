-- ===== src/Pool/Threads/Sockets.antt =====
-- What each access does to the map and the sockets.
pub mod Same
mod Gets
mod Discards
mod Puts
mod Closes
use netconnpool.Prelude.{◌-◌, refl}
use netconnpool.Pool.State.{World}
use netconnpool.Pool.Threads.Act.{act}
use netconnpool.Pool.Threads.Owned.{Handles}
use netconnpool.Pool.Threads.Defs.{
  Shared, Thread, idle, gets, creates, discards, puts, sweeps, shuts, gave, returned, panicked,
}
use netconnpool.Pool.Threads.Sockets.Gets.{get_act-Handles, create_act-Handles}
use netconnpool.Pool.Threads.Sockets.Discards.{discard_act-Handles}
use netconnpool.Pool.Threads.Sockets.Puts.{put_act-Handles, sweep_act-Handles}
use netconnpool.Pool.Threads.Sockets.Closes.{shut_act-Handles}
use netconnpool.Pool.Threads.Sockets.Same.{still}

module _ {s : Shared} where
  pub act-Handles : (w : World) (t : Thread) → Handles s t (act w s t)
  unfolding act
  act-Handles w idle = still refl refl
  act-Handles w (gets started t) = get_act-Handles started w t
  act-Handles w (creates started t) = create_act-Handles started w t
  act-Handles w (discards t a) = discard_act-Handles w a t
  act-Handles w (puts t) = put_act-Handles w t
  act-Handles w (sweeps t) = sweep_act-Handles w t
  act-Handles w (shuts t) = shut_act-Handles w t
  act-Handles w (gave o) = still refl refl
  act-Handles w (returned e) = still refl refl
  act-Handles w panicked = still refl refl
