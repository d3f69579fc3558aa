-- ===== src/Manager.antt =====
-- cleanup.go, health.go, leak.go: `Start`, `Stop` and the loop of the three managers, which have the
-- same shape. `running` and the ticker are the fields; `stopped` says that `stopChan` is closed, and
-- `loops` is the wait group: the goroutines in the loop.
use netconnpool.Prelude.{
  ℕ, zero, suc, ◌+◌, ◌*◌, ◌-◌, Option, none, some, Bool, true, false, not, ◌&&◌, ◌||◌, List, [],
  ◌∷◌, if◌then◌else◌, ltb,
}
use netconnpool.Prelude.Int.{ℤ, pos, is_pos, leb_ℤ}
use netconnpool.Config.{Config, second, minute}
pub mod Cycles

pub record Manager : Type 0 where
  pub running : Bool
  pub stopped : Bool
  pub loops : ℕ

-- `NewCleanupManager`, `NewHealthCheckManager`, `NewLeakDetector`
abbrev pub new_manager : Manager
new_manager = record { running = false; stopped = false; loops = 0 }

-- `time.NewTicker` panics on an interval that is not positive: `none` is a panic.
unfoldable pub start : (enabled : Bool) (interval : ℤ) → Manager → Option Manager
start enabled interval m =
    if m.running || not enabled
    then some m
    else if is_pos interval
    then some (record m { running = true; loops = suc m.loops })
    else none

-- A round of the loop: on a closed `stopChan` it returns, else it waits for the ticker.
unfoldable pub loop_ends : Manager → Manager
loop_ends m = if m.stopped then record m { loops = m.loops - 1 } else m

-- `wg.Wait()`: every loop there is takes the case of `stopChan`.
unfoldable pub wait_loops : ℕ → Manager → Manager
unfolding loop_ends
wait_loops zero m = m
wait_loops (suc n) m = wait_loops n (loop_ends m)

-- Closing a closed channel panics.
unfoldable pub stop : Manager → Option Manager
stop m =
    if not m.running
    then some m
    else if m.stopped
    then none
    else some (wait_loops m.loops (record m { running = false; stopped = true }))

-- A manager that acts on its ticker: a goroutine is in the loop, and its round does not end it.
abbrev pub serving : Manager → Bool
serving m = m.running && not m.stopped && ltb 0 m.loops

abbrev pub start_cleanup : Manager → Option Manager
start_cleanup = start true (pos (30 * second))

abbrev pub start_health : Config → Manager → Option Manager
start_health c = start c.enable_health_check c.health_check_interval

abbrev pub detection_interval : Config → ℤ
detection_interval c =
    if leb_ℤ c.leak_detection_interval (pos 0) then pos minute else c.leak_detection_interval

abbrev pub start_leak : Config → Manager → Option Manager
start_leak c = start (is_pos c.connection_leak_timeout) (detection_interval c)
