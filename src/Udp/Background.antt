-- ===== src/Udp/Background.antt =====
-- udp_utils.go: `ClearUDPReadBufferNonBlocking`, with `udpCleanupSemaphore`.
use netconnpool.Prelude.{ℕ, suc, ◌+◌, ◌-◌, ◌*◌, ◌/◌, ◌≤◌, ◌≡◌, Bool, not, ltb, if◌then◌else◌, arith}
use netconnpool.Prelude.Int.{ℤ, pos, negsuc, pos_part, leb_ℤ, half}
use netconnpool.Config.{millisecond}
use netconnpool.Udp.{
  Read, Cleared, default_timeout, clear_udp_read_buffer, clear_udp_read_buffer-bounds, Punctual,
}

-- The capacity of `udpCleanupSemaphore`.
abbrev pub cleanup_permits : ℕ
cleanup_permits = 10

-- What a call comes to: nothing for a nil connection, a goroutine that calls `ClearUDPReadBuffer`
-- with the timeout and the maximum, or the call itself.
pub data Cleaning : Type 0 where
  nothing : Cleaning
  in_background : (timeout max_packets : ℤ) → Cleaning
  at_once : Cleared → Cleaning

abbrev pub short_timeout : ℤ → ℤ
short_timeout t = if leb_ℤ t (pos 0) then pos (100 * millisecond) else t

-- The end of such a goroutine frees its permit.
unfoldable pub cleaning_ends : (running : ℕ) → ℕ
cleaning_ends running = running - 1

-- `time.Now` when the call returns.
abbrev pub returned_at : (now : ℕ) → Cleaning → ℕ
returned_at now nothing = now
returned_at now (in_background timeout max_packets) = now
returned_at now (at_once c) = c.finished

module _ (answer : ℕ → Read) (takes : (i allowed : ℕ) → ℕ) where
  -- `running` is how many permits are taken.
  unfoldable pub clear_udp_read_buffer_non_blocking :
      (has_conn : Bool) (timeout max_packets : ℤ) (now running : ℕ) → ℕ × Cleaning
  clear_udp_read_buffer_non_blocking has_conn timeout max_packets now running =
      if not has_conn
      then (running, nothing)
      else if ltb running cleanup_permits
      then (suc running, in_background timeout max_packets)
      else (
        running,
        at_once (clear_udp_read_buffer answer takes (half (short_timeout timeout)) max_packets now),
      )

-- How long the call may block where all permits are taken.
abbrev pub longest_block : ℤ → ℕ
longest_block t =
    if leb_ℤ t (pos 0)
    then 50 * millisecond
    else if leb_ℤ t (pos 1)
    then 100 * millisecond
    else pos_part t / 2

default_timeout-half : (t : ℤ) → default_timeout (half (short_timeout t)) ≡ longest_block t
default_timeout-half (pos n) = ground arith
default_timeout-half (negsuc n) = ground arith

-- Where each read keeps to its deadline: `ClearUDPReadBufferNonBlocking` takes no more than the ten
-- permits; it blocks for half of its timeout at most, where that is 2 ns or more, for 50 ms at most,
-- where the timeout is not positive, but for up to 100 ms where it is 1 ns; and with a permit left,
-- or no connection, it returns at once.
pub non_blocking_bounds :
    (answer : ℕ → Read) (takes : ℕ → ℕ → ℕ) (has_conn : Bool) (timeout max_packets : ℤ)
    (now running : ℕ)
    → Punctual answer takes
    → running ≤ cleanup_permits
    → ((clear_udp_read_buffer_non_blocking answer takes has_conn timeout max_packets now running).0
        ≤ cleanup_permits)
      × (returned_at now
            (clear_udp_read_buffer_non_blocking answer takes has_conn timeout max_packets now
              running).1
          ≤ now
            + (if not has_conn
                then 0
                else if ltb running cleanup_permits
                then 0
                else longest_block timeout))
unfolding clear_udp_read_buffer_non_blocking
non_blocking_bounds answer takes has_conn timeout max_packets now running h l =
    let b =
      (clear_udp_read_buffer-bounds answer takes (half (short_timeout timeout)) max_packets now
        h).1 in
    ground (arith, b, default_timeout-half timeout)
