-- ===== src/IpVersion.antt =====
-- ipversion.go: the IP version of a connection, from its remote address and from a text.
use netconnpool.Prelude.{
  ℕ, Option, none, some, Bool, true, false, ◌||◌, if◌then◌else◌, List, [], ◌∷◌,
}
use netconnpool.Prelude.Text.{Text, codes, text_eq}
use netconnpool.Net.Addr.{Addr, tcp_addr, udp_addr, other_addr, NetConn, has_to4}

pub data IpVersion : Type 0 where
  unknown ipv4 ipv6 : IpVersion

abbrev pub version_eq : IpVersion → IpVersion → Bool
version_eq unknown unknown = true
version_eq ipv4 ipv4 = true
version_eq ipv6 ipv6 = true
version_eq _ _ = false

-- `IPVersion.String`
unfoldable pub to_string : IpVersion → Text
to_string ipv4 = codes "IPv4"
to_string ipv6 = codes "IPv6"
to_string unknown = codes "Unknown"

version_of_ip : Option (List ℕ) → IpVersion
unfolding has_to4
version_of_ip none = unknown
version_of_ip (some ip) = if has_to4 ip then ipv4 else ipv6

-- `split_host` is net.SplitHostPort (the host, where it reports no error), `parse_ip` is
-- net.ParseIP (`none` is nil).
module _ (split_host : Text → Option Text) (parse_ip : Text → Option (List ℕ)) where
  version_of_host : Option Text → IpVersion
  unfolding version_of_ip
  version_of_host none = unknown
  version_of_host (some []) = unknown
  version_of_host (some (c ∷ host)) = version_of_ip (parse_ip (c ∷ host))

  version_of_addr : Option Addr → IpVersion
  unfolding version_of_ip version_of_host
  version_of_addr none = unknown
  version_of_addr (some (tcp_addr ip)) = version_of_ip ip
  version_of_addr (some (udp_addr ip)) = version_of_ip ip
  version_of_addr (some (other_addr network text)) = version_of_host (split_host text)

  unfoldable pub detect_ip_version : Option NetConn → IpVersion
  unfolding version_of_addr
  detect_ip_version none = unknown
  detect_ip_version (some conn) = version_of_addr conn.remote_addr

unfoldable pub parse_ip_version : Text → IpVersion
unfolding text_eq
parse_ip_version s =
    if text_eq s (codes "IPv4") || text_eq s (codes "ipv4") || text_eq s (codes "4")
    then ipv4
    else if text_eq s (codes "IPv6") || text_eq s (codes "ipv6") || text_eq s (codes "6")
    then ipv6
    else unknown
