-- ===== src/Examples/Parsed.antt =====
-- The parsers on texts.
use netconnpool.Prelude.{◌≡◌, ◌≢◌, ◌↔◌, ◌⊎◌}
use netconnpool.Prelude.Text.{codes, to_upper}
use netconnpool.Protocol
use netconnpool.Protocol.{Protocol, parse_protocol}
use netconnpool.IpVersion
use netconnpool.IpVersion.{IpVersion, parse_ip_version}
use netconnpool.Mode
use netconnpool.Mode.{PoolMode, client, server, parse_pool_mode}
use netconnpool.Parsing.{parsers_of_texts}

parsers_of_texts_example :
    ((parse_protocol (codes "tcp") ≡ Protocol.tcp)
      ↔ (to_upper (codes "tcp") ≡ to_upper (Protocol.to_string Protocol.tcp)))
    × (parse_ip_version (IpVersion.to_string IpVersion.ipv6) ≡ IpVersion.ipv6)
    × ((parse_pool_mode (Mode.to_string server) ≡ server)
        ⊎ ((server ≢ client)
            × (server ≢ server)
            × (parse_pool_mode (Mode.to_string server) ≡ client)))
parsers_of_texts_example =
    parsers_of_texts Protocol.tcp (codes "tcp") IpVersion.ipv6 server (λ e. cc)
