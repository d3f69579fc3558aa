-- ===== src/Net/Addr.antt =====
-- The part of Go's `net` that the package looks at: an address by its dynamic type, and a
-- connection by its addresses. `*net.TCPAddr` and `*net.UDPAddr` carry an IP (`none` is nil).
use netconnpool.Prelude.{ℕ, Option, Bool, true, false, ◌&&◌, List, ◌∷◌, length, ◌==◌, if◌then◌else◌}
use netconnpool.Prelude.Text.{Text}

pub data Addr : Type 0 where
  tcp_addr : Option (List ℕ) → Addr
  udp_addr : Option (List ℕ) → Addr
  other_addr : (network text : Text) → Addr

-- `handle` tells sockets apart; `is_udp_conn` says that the dynamic type is `*net.UDPConn`.
pub record NetConn : Type 0 where
  pub handle : ℕ
  pub remote_addr : Option Addr
  pub local_addr : Option Addr
  pub is_udp_conn : Bool

abbrev is_v4_in_v6 : List ℕ → Bool
is_v4_in_v6 (a ∷ b ∷ c ∷ d ∷ e ∷ f ∷ g ∷ h ∷ i ∷ j ∷ k ∷ l ∷ rest) =
    (a == 0)
    && (b == 0)
    && (c == 0)
    && (d == 0)
    && (e == 0)
    && (f == 0)
    && (g == 0)
    && (h == 0)
    && (i == 0)
    && (j == 0)
    && (k == 255)
    && (l == 255)
    && (length rest == 4)
is_v4_in_v6 _ = false

-- `ip.To4() != nil`
unfoldable pub has_to4 : List ℕ → Bool
has_to4 ip = if length ip == 4 then true else is_v4_in_v6 ip
