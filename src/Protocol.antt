-- ===== src/Protocol.antt =====
-- protocol.go: the protocol of a connection, from its addresses and from a text.
use netconnpool.Prelude.{Option, none, some, Bool, true, false, ◌||◌, if◌then◌else◌}
use netconnpool.Prelude.Text.{Text, codes, text_eq, to_upper, to_lower, contains}
use netconnpool.Net.Addr.{Addr, tcp_addr, udp_addr, other_addr, NetConn}

pub data Protocol : Type 0 where
  unknown tcp udp : Protocol

-- `p == q` on the constants.
abbrev pub protocol_eq : Protocol → Protocol → Bool
protocol_eq unknown unknown = true
protocol_eq tcp tcp = true
protocol_eq udp udp = true
protocol_eq _ _ = false

-- `Protocol.String`
unfoldable pub to_string : Protocol → Text
to_string tcp = codes "TCP"
to_string udp = codes "UDP"
to_string unknown = codes "Unknown"

pub detect_protocol_from_addr : Addr → Protocol
unfolding text_eq to_lower contains
detect_protocol_from_addr (tcp_addr _) = tcp
detect_protocol_from_addr (udp_addr _) = udp
detect_protocol_from_addr (other_addr network text) =
    let name = to_lower network in
    if text_eq name (codes "tcp") || text_eq name (codes "tcp4") || text_eq name (codes "tcp6")
    then tcp
    else if text_eq name (codes "udp") || text_eq name (codes "udp4") || text_eq name (codes "udp6")
    then udp
    else if contains text (codes "tcp")
    then tcp
    else if contains text (codes "udp")
    then udp
    else unknown

detect_local : Option Addr → Protocol
detect_local (some addr) = detect_protocol_from_addr addr
detect_local none = unknown

detect_remote : Option Addr → Option Addr → Protocol
unfolding detect_local
detect_remote none local = detect_local local
detect_remote (some addr) local = detect_protocol_from_addr addr

unfoldable pub detect_protocol : Option NetConn → Protocol
unfolding detect_remote detect_protocol_from_addr
detect_protocol none = unknown
detect_protocol (some conn) = detect_remote conn.remote_addr conn.local_addr

unfoldable pub parse_protocol : Text → Protocol
unfolding text_eq to_upper
parse_protocol s =
    let name = to_upper s in
    if text_eq name (codes "TCP") then tcp else if text_eq name (codes "UDP") then udp else unknown

pub is_tcp : Protocol → Bool
is_tcp p = protocol_eq p tcp

pub is_udp : Protocol → Bool
is_udp p = protocol_eq p udp
