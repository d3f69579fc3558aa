-- ===== src/Config/Kept.antt =====
-- Fields that `Config.Validate` leaves alone.
use netconnpool.Prelude.{◌≡◌, refl, arith}
use netconnpool.Mode.{PoolMode, client, server, other}
use netconnpool.Config.{Config, validate, check_mode, check_bounds, normalise}

module _ (c : Config) where
  kept_by_mode :
      (m : PoolMode)
      → c.mode ≡ m
      → ((validate c).0.enable_health_check ≡ c.enable_health_check)
        × ((validate c).0.health_check_interval ≡ c.health_check_interval)
  unfolding validate check_mode check_bounds normalise
  kept_by_mode client e = (ground arith, ground arith)
  kept_by_mode server e = (ground arith, ground arith)
  kept_by_mode (other n) e = (ground arith, ground arith)

  pub validate_keeps :
      ((validate c).0.enable_health_check ≡ c.enable_health_check)
      × ((validate c).0.health_check_interval ≡ c.health_check_interval)
  validate_keeps = kept_by_mode c.mode refl
