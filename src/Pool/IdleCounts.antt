-- ===== src/Pool/IdleCounts.antt =====
-- The counters of idle connections, from a `Put` to the `Get` that takes the connection.
use netconnpool.Prelude.{ℕ, ◌<◌, ◌≡◌, ap, ◌∙◌, Option, none, some, if◌then◌else◌, arith}
use netconnpool.Prelude.Word.{add64, minus_one, two_64}
use netconnpool.Stats.{Stats}
use netconnpool.Protocol.{Protocol}
use netconnpool.IpVersion.{IpVersion, version_eq}
use netconnpool.Pool.State.{Pool}
use netconnpool.Pool.Put.{count_idle, send_idle}
use netconnpool.Pool.Borrow.{lend_idle, lend_idle_of_protocol}
use netconnpool.Protocol.{protocol_eq}

-- The counters, of all idle connections and by kind.
pub record IdleTally : Type 0 where
  pub idle : ℕ
  pub ipv4 : ℕ
  pub ipv6 : ℕ
  pub tcp : ℕ
  pub udp : ℕ

abbrev pub idle_tally : Stats → IdleTally
idle_tally s = record {
  idle = s.current_idle_connections;
  ipv4 = s.current_ipv4_idle_connections;
  ipv6 = s.current_ipv6_idle_connections;
  tcp = s.current_tcp_idle_connections;
  udp = s.current_udp_idle_connections;
}

abbrev pub idle_tallies : Option Stats → Option IdleTally
idle_tallies none = none
idle_tallies (some s) = some (idle_tally s)

-- One more, of the version.
abbrev pub drifted : IpVersion → IdleTally → IdleTally
drifted v t = record t {
  ipv4 = if version_eq v IpVersion.ipv4 then add64 t.ipv4 1 else t.ipv4;
  ipv6 = if version_eq v IpVersion.ipv6 then add64 t.ipv6 1 else t.ipv6;
}

-- The counters are 64-bit patterns.
pub record IsWords (t : IdleTally) : Type 0 where
  pub idle_word : t.idle < two_64
  pub ipv4_word : t.ipv4 < two_64
  pub ipv6_word : t.ipv6 < two_64
  pub tcp_word : t.tcp < two_64
  pub udp_word : t.udp < two_64

up_and_down : (n : ℕ) → n < two_64 → add64 (add64 n 1) minus_one ≡ n
unfolding add64
up_and_down n l = omega arith

-- The counters of a connection's kind, by `delta`; the last two as the protocol alone says.
abbrev by_kind : (delta : ℕ) → Protocol → IpVersion → IdleTally → IdleTally
by_kind delta k v t = record t {
  idle = add64 t.idle delta;
  ipv4 = if version_eq v IpVersion.ipv4 then add64 t.ipv4 delta else t.ipv4;
  ipv6 = if version_eq v IpVersion.ipv6 then add64 t.ipv6 delta else t.ipv6;
  tcp = if protocol_eq k Protocol.tcp then add64 t.tcp delta else t.tcp;
  udp = if protocol_eq k Protocol.udp then add64 t.udp delta else t.udp;
}

abbrev lift : (IdleTally → IdleTally) → Option IdleTally → Option IdleTally
lift f none = none
lift f (some t) = some (f t)

tallies-put :
    (id : ℕ) (p : Pool)
    → idle_tallies (count_idle 1 (p.object id) (send_idle id p)).stats
      ≡ lift (by_kind 1 (p.object id).protocol (p.object id).ip_version) (idle_tallies p.stats)
tallies-put id p = ground arith

tallies-lend_idle :
    (id : ℕ) (p : Pool)
    → idle_tallies (lend_idle id p).stats
      ≡ lift
          (by_kind minus_one (p.object id).protocol (p.object id).ip_version)
          (idle_tallies p.stats)
unfolding lend_idle
tallies-lend_idle id p = ground arith

tallies-lend_idle_of_protocol :
    (id : ℕ) (p : Pool)
    → idle_tallies (lend_idle_of_protocol id p).stats
      ≡ lift (by_kind minus_one (p.object id).protocol IpVersion.unknown) (idle_tallies p.stats)
unfolding lend_idle_of_protocol
tallies-lend_idle_of_protocol id p = ground arith

object-put :
    (id : ℕ) (p : Pool) → (count_idle 1 (p.object id) (send_idle id p)).object id ≡ p.object id
object-put id p = ground arith

module _ (t : IdleTally) (w : IsWords t) where
  back : (k : Protocol) (v : IpVersion) → by_kind minus_one k v (by_kind 1 k v t) ≡ t
  back k v =
      let a = up_and_down t.idle w.idle_word in
      let b = up_and_down t.ipv4 w.ipv4_word in
      let c = up_and_down t.ipv6 w.ipv6_word in
      let d = up_and_down t.tcp w.tcp_word in
      let e = up_and_down t.udp w.udp_word in ground (arith, a, b, c, d, e)

  drift :
      (k : Protocol) (v : IpVersion)
      → by_kind minus_one k IpVersion.unknown (by_kind 1 k v t) ≡ drifted v t
  drift k v =
      let a = up_and_down t.idle w.idle_word in
      let d = up_and_down t.tcp w.tcp_word in
      let e = up_and_down t.udp w.udp_word in ground (arith, a, d, e)

-- A connection that `Put` has counted into its idle channel, and that a Get then lends: the lending of
-- GetWithTimeout and GetWithIPVersion brings the five counters of idle connections back to what they
-- were; that of GetWithProtocol leaves the counter of its IP version, where it is known, one higher.
pub idle_counts_drift :
    (id : ℕ) (p : Pool) (s : Stats)
    → p.stats ≡ some s
    → IsWords (idle_tally s)
    → (idle_tallies (lend_idle id (count_idle 1 (p.object id) (send_idle id p))).stats
        ≡ some (idle_tally s))
      × (idle_tallies (lend_idle_of_protocol id (count_idle 1 (p.object id) (send_idle id p))).stats
          ≡ some (drifted (p.object id).ip_version (idle_tally s)))
idle_counts_drift id p s h words =
    let q = count_idle 1 (p.object id) (send_idle id p) in
    let k = (p.object id).protocol in
    let v = (p.object id).ip_version in
    let t = tallies-put id p ∙ ap (λ o. lift (by_kind 1 k v) (idle_tallies o)) h in
    let o = object-put id p in
    (
      tallies-lend_idle id q ∙ simp (o, t) (ap some (back (idle_tally s) words k v)),
      tallies-lend_idle_of_protocol id q ∙ simp (o, t) (ap some (drift (idle_tally s) words k v)),
    )
