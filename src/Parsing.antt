-- ===== src/Parsing.antt =====
-- protocol.go, ipversion.go, mode.go: what the parsers make of a text, and of the texts of `String`.
use netconnpool.Prelude.{
  ◌≡◌, ◌≢◌, ◌↔◌, ◌⊎◌, inl, inr, refl, ap₂, true, [], ◌∷◌, arith, eq_of_==, ==_refl,
}
use netconnpool.Prelude.Text.{Text, codes, text_eq, to_upper}
use netconnpool.Protocol
use netconnpool.Protocol.{Protocol, parse_protocol}
use netconnpool.IpVersion
use netconnpool.IpVersion.{IpVersion, parse_ip_version}
use netconnpool.Mode
use netconnpool.Mode.{PoolMode, client, server, parse_pool_mode}

eq_of_text_eq : (s t : Text) → text_eq s t ≡ true → s ≡ t
unfolding text_eq
eq_of_text_eq [] [] h = refl
eq_of_text_eq [] (y ∷ ys) h = cc
eq_of_text_eq (x ∷ xs) [] h = cc
eq_of_text_eq (x ∷ xs) (y ∷ ys) h =
    ap₂ ◌∷◌ (eq_of_== x y (ground arith)) (eq_of_text_eq xs ys (ground arith))

text_eq_refl : (s : Text) → text_eq s s ≡ true
unfolding text_eq
text_eq_refl [] = refl
text_eq_refl (x ∷ xs) = ground (arith, ==_refl x, text_eq_refl xs)

text_eq_iff : (s t : Text) → (text_eq s t ≡ true) ↔ (s ≡ t)
text_eq_iff s t = (eq_of_text_eq s t, λ e. rw e (text_eq_refl t))

-- `ParseProtocol` gives TCP or UDP exactly for the texts that are, but for the case of their letters,
-- what `String` writes for it.
parse_protocol_iff :
    (k : Protocol) (s : Text)
    → k ≢ Protocol.unknown
    → (parse_protocol s ≡ k) ↔ (to_upper s ≡ to_upper (Protocol.to_string k))
unfolding parse_protocol Protocol.to_string
parse_protocol_iff Protocol.unknown s n = absurd (n refl)
parse_protocol_iff Protocol.tcp s n =
    let t = text_eq_iff (to_upper s) (codes "TCP") in
    let u = text_eq_iff (to_upper s) (codes "UDP") in
    (λ h. ground (arith, t, u), λ h. ground (arith, t, u))
parse_protocol_iff Protocol.udp s n =
    let t = text_eq_iff (to_upper s) (codes "TCP") in
    let u = text_eq_iff (to_upper s) (codes "UDP") in
    (λ h. ground (arith, t, u), λ h. ground (arith, t, u))

-- `ParseIPVersion` gives back every version from the text that `String` writes for it.
parse_ip_version-to_string : (v : IpVersion) → parse_ip_version (IpVersion.to_string v) ≡ v
unfolding parse_ip_version IpVersion.to_string
parse_ip_version-to_string IpVersion.unknown = refl
parse_ip_version-to_string IpVersion.ipv4 = refl
parse_ip_version-to_string IpVersion.ipv6 = refl

-- `ParsePoolMode` gives back client and server from the texts of `String`, and client from that of any
-- other mode.
parse_pool_mode-to_string :
    (m : PoolMode)
    → (parse_pool_mode (Mode.to_string m) ≡ m)
      ⊎ ((m ≢ client) × (m ≢ server) × (parse_pool_mode (Mode.to_string m) ≡ client))
unfolding parse_pool_mode Mode.to_string
parse_pool_mode-to_string client = inl refl
parse_pool_mode-to_string server = inl refl
parse_pool_mode-to_string (PoolMode.other n) = inr (λ e. cc, λ e. cc, refl)

-- `ParseProtocol` gives TCP or UDP exactly for the texts that are, but for the case of their letters,
-- what `String` writes for it. `ParseIPVersion` gives back every version from the text that `String`
-- writes for it, and `ParsePoolMode` client and server, and client from the text of any other mode.
pub parsers_of_texts :
    (k : Protocol) (s : Text) (v : IpVersion) (m : PoolMode)
    → k ≢ Protocol.unknown
    → ((parse_protocol s ≡ k) ↔ (to_upper s ≡ to_upper (Protocol.to_string k)))
      × (parse_ip_version (IpVersion.to_string v) ≡ v)
      × ((parse_pool_mode (Mode.to_string m) ≡ m)
          ⊎ ((m ≢ client) × (m ≢ server) × (parse_pool_mode (Mode.to_string m) ≡ client)))
parsers_of_texts k s v m n =
    (parse_protocol_iff k s n, parse_ip_version-to_string v, parse_pool_mode-to_string m)
