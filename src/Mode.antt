-- ===== src/Mode.antt =====
-- mode.go: the mode of a pool. `other` is a value of the int type beside the two constants.
use netconnpool.Prelude.{ℕ, if◌then◌else◌}
use netconnpool.Prelude.Text.{Text, codes, text_eq}

pub data PoolMode : Type 0 where
  client server : PoolMode
  other : ℕ → PoolMode

-- `PoolMode.String`
unfoldable pub to_string : PoolMode → Text
to_string client = codes "client"
to_string server = codes "server"
to_string (other _) = codes "unknown"

unfoldable pub parse_pool_mode : Text → PoolMode
unfolding text_eq
parse_pool_mode s =
    if text_eq s (codes "client")
    then client
    else if text_eq s (codes "server")
    then server
    else client
