-- ===== src/Examples/Buffers.antt =====
-- A buffer with two packets, whose reads take no time.
use netconnpool.Prelude.{ℕ, ◌+◌, ◌≤◌, ◌<◌, ◌≡◌, ltb, if◌then◌else◌, arith}
use netconnpool.Prelude.Int.{pos}
use netconnpool.Prelude.{true, not}
use netconnpool.Udp.Background.{
  clear_udp_read_buffer_non_blocking, cleanup_permits, returned_at, longest_block,
  non_blocking_bounds,
}
use netconnpool.Udp.{
  Read, packet, times_out, default_max_packets, default_timeout, clear_udp_read_buffer,
  clear_udp_read_buffer-bounds,
}

abbrev two_packets : ℕ → Read
two_packets i = if ltb i 2 then packet else times_out

abbrev at_once : ℕ → ℕ → ℕ
at_once i allowed = 0

clear_udp_read_buffer-bounds_example :
    ((clear_udp_read_buffer two_packets at_once (pos 0) (pos 10) 5_000).packets
      ≤ default_max_packets (pos 10))
    × ((clear_udp_read_buffer two_packets at_once (pos 0) (pos 10) 5_000).finished
        ≤ 5_000 + default_timeout (pos 0))
    × ((j : ℕ)
        → j < (clear_udp_read_buffer two_packets at_once (pos 0) (pos 10) 5_000).packets
        → two_packets j ≡ packet)
clear_udp_read_buffer-bounds_example =
    clear_udp_read_buffer-bounds two_packets at_once (pos 0) (pos 10) 5_000
      (λ i allowed. omega arith)

non_blocking_bounds_example :
    ((clear_udp_read_buffer_non_blocking two_packets at_once true (pos 1) (pos 10) 5_000 10).0
      ≤ cleanup_permits)
    × (returned_at 5_000
          (clear_udp_read_buffer_non_blocking two_packets at_once true (pos 1) (pos 10) 5_000 10).1
        ≤ 5_000
          + (if not true then 0 else if ltb 10 cleanup_permits then 0 else longest_block (pos 1)))
non_blocking_bounds_example =
    non_blocking_bounds two_packets at_once true (pos 1) (pos 10) 5_000 10
      (λ i allowed. omega arith) (omega arith)
