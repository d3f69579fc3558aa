-- ===== src/Udp.antt =====
-- udp_utils.go: `ClearUDPReadBuffer` and `HasUDPDataInBuffer` on a `*net.UDPConn`. How its reads end
-- and how long they take are parameters, by the number of the read and the time it is allowed.
use netconnpool.Prelude.{
  ℕ, zero, suc, ◌+◌, ◌-◌, ◌*◌, ◌≤◌, ◌<◌, ◌≡◌, refl, Bool, true, false, leb, ltb, if◌then◌else◌,
  if_cases, arith, ap, sym, ◌∙◌, ◌==◌, eq_of_==, Bool-cases, inl, inr,
}
use netconnpool.Prelude.Int.{ℤ, pos, pos_part, leb_ℤ}
use netconnpool.Config.{millisecond}
pub mod Background

-- How a read ends.
pub data Read : Type 0 where
  packet times_out ends fails : Read

-- The packets read, whether the read before the return met the end of the file, and the time.
pub record Cleared : Type 0 where
  pub packets : ℕ
  pub met_eof : Bool
  pub finished : ℕ

abbrev pub default_timeout : ℤ → ℕ
default_timeout t = if leb_ℤ t (pos 0) then 100 * millisecond else pos_part t

abbrev pub default_max_packets : ℤ → ℕ
default_max_packets n = if leb_ℤ n (pos 0) then 100 else pos_part n

-- The time for one read: what remains, and at most 50 ms.
abbrev pub read_deadline : (remaining : ℕ) → ℕ
read_deadline remaining = if ltb (50 * millisecond) remaining then 50 * millisecond else remaining

unfoldable pub has_udp_data_in_buffer : Read → Bool
has_udp_data_in_buffer packet = true
has_udp_data_in_buffer times_out = false
has_udp_data_in_buffer ends = false
has_udp_data_in_buffer fails = false

module _ (answer : ℕ → Read) (takes : (i allowed : ℕ) → ℕ) where
  -- The loop, with the packets that are left to it, and the number of the read.
  unfoldable pub clear_loop : (deadline left i now : ℕ) → Cleared
  clear_loop deadline zero i now = record { packets = i; met_eof = false; finished = now }
  clear_loop deadline (suc left) i now =
      let later = now + takes i (read_deadline (deadline - now)) in
      let rest = clear_loop deadline left (suc i) later in
      if leb deadline now
      then record { packets = i; met_eof = false; finished = now }
      else elim (answer i) [
        | packet ↦ rest
        | times_out ↦ record { packets = i; met_eof = false; finished = later }
        | ends ↦ record { packets = i; met_eof = true; finished = later }
        | fails ↦ record { packets = i; met_eof = false; finished = later }
      ]

  unfoldable pub clear_udp_read_buffer : (timeout max_packets : ℤ) (now : ℕ) → Cleared
  clear_udp_read_buffer timeout max_packets now =
      clear_loop (now + default_timeout timeout) (default_max_packets max_packets) 0 now

  -- What the loop promises, from read `i` on.
  record Bounded (deadline left i now : ℕ) (r : Cleared) : Type 0 where
    from_read : i ≤ r.packets
    few : r.packets ≤ i + left
    in_time : now ≤ deadline → r.finished ≤ deadline
    all_packets : (j : ℕ) → i ≤ j → j < r.packets → answer j ≡ packet
    eof_met : r.met_eof ≡ true → answer r.packets ≡ ends

  -- Reads keep to their deadlines.
  abbrev pub Punctual : Type 0
  Punctual = (i allowed : ℕ) → takes i allowed ≤ allowed

  stops-Bounded :
      (deadline left i now later : ℕ) (e : Bool)
      → (now ≤ deadline → later ≤ deadline)
      → (e ≡ true → answer i ≡ ends)
      → Bounded deadline (suc left) i now (record { packets = i; met_eof = e; finished = later })
  stops-Bounded deadline left i now later e t a = record {
    from_read = omega arith;
    few = omega arith;
    in_time = t;
    all_packets = λ j l m. absurd (omega (arith, l, m));
    eof_met = a;
  }

  read_in_time :
      Punctual
      → (deadline i now : ℕ) → now ≤ deadline
      → now + takes i (read_deadline (deadline - now)) ≤ deadline
  read_in_time h deadline i now l = ground (arith, h i (read_deadline (deadline - now)))

  read_on-Bounded :
      (deadline left i now later : ℕ) (r : Cleared)
      → answer i ≡ packet
      → (now ≤ deadline → later ≤ deadline)
      → Bounded deadline left (suc i) later r
      → Bounded deadline (suc left) i now r
  read_on-Bounded deadline left i now later r a t b = record {
    from_read = omega (arith, b.from_read);
    few = omega (arith, b.few);
    in_time = λ l. b.in_time (t l);
    all_packets = λ j l m. elim (Bool-cases (i == j)) [
      | inl e ↦ ap answer (sym (eq_of_== i j e)) ∙ a
      | inr e ↦ b.all_packets j (ground arith) m
    ];
    eof_met = b.eof_met;
  }

  turn-Bounded :
      Punctual
      → (deadline left i now : ℕ)
      → ((later : ℕ) → Bounded deadline left (suc i) later (clear_loop deadline left (suc i) later))
      → (a : Read) → answer i ≡ a
      → Bounded deadline (suc left) i now (elim a [
        | packet ↦ clear_loop deadline left (suc i) (now + takes i (read_deadline (deadline - now)))
        | times_out ↦ record {
          packets = i;
          met_eof = false;
          finished = now + takes i (read_deadline (deadline - now));
        }
        | ends ↦ record {
          packets = i;
          met_eof = true;
          finished = now + takes i (read_deadline (deadline - now));
        }
        | fails ↦ record {
          packets = i;
          met_eof = false;
          finished = now + takes i (read_deadline (deadline - now));
        }
      ])
  turn-Bounded h deadline left i now rest packet e =
      read_on-Bounded deadline left i now _ _ e (read_in_time h deadline i now) (rest _)
  turn-Bounded h deadline left i now rest times_out e =
      stops-Bounded deadline left i now _ false (read_in_time h deadline i now) (λ f. cc)
  turn-Bounded h deadline left i now rest ends e =
      stops-Bounded deadline left i now _ true (read_in_time h deadline i now) (λ f. e)
  turn-Bounded h deadline left i now rest fails e =
      stops-Bounded deadline left i now _ false (read_in_time h deadline i now) (λ f. cc)

  clear_loop-Bounded :
      Punctual
      → (deadline left i now : ℕ) → Bounded deadline left i now (clear_loop deadline left i now)
  unfolding clear_loop
  clear_loop-Bounded h deadline zero i now = record {
    from_read = omega arith;
    few = omega arith;
    in_time = λ l. l;
    all_packets = λ j l m. absurd (omega (arith, l, m));
    eof_met = λ f. cc;
  }
  clear_loop-Bounded h deadline (suc left) i now =
      if_cases (Bounded deadline (suc left) i now) (leb deadline now)
        (λ _. stops-Bounded deadline left i now now false (λ l. l) (λ f. cc))
        λ _.
          turn-Bounded h deadline left i now
            (λ later. clear_loop-Bounded h deadline left (suc i) later) (answer i) refl

-- Where each read keeps to its deadline: `ClearUDPReadBuffer` reads at most its maximum of packets,
-- 100 for a maximum that is not positive, is finished by its timeout, 100 ms for one that is not
-- positive, and every read that it counts was a packet.
pub clear_udp_read_buffer-bounds :
    (answer : ℕ → Read) (takes : ℕ → ℕ → ℕ) (timeout max_packets : ℤ) (now : ℕ)
    → Punctual answer takes
    → ((clear_udp_read_buffer answer takes timeout max_packets now).packets
        ≤ default_max_packets max_packets)
      × ((clear_udp_read_buffer answer takes timeout max_packets now).finished
          ≤ now + default_timeout timeout)
      × ((j : ℕ)
          → j < (clear_udp_read_buffer answer takes timeout max_packets now).packets
          → answer j ≡ packet)
unfolding clear_udp_read_buffer
clear_udp_read_buffer-bounds answer takes timeout max_packets now h =
    let b =
      clear_loop-Bounded answer takes h (now + default_timeout timeout)
        (default_max_packets max_packets) 0 now in
    (omega (arith, b.few), b.in_time (omega arith), λ j m. b.all_packets j (omega arith) m)
