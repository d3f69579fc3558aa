-- ===== src/Examples/Configs.antt =====
-- `Validate` on the default configuration of a client, with a dialer and more idle connections than
-- the pool may hold.
use netconnpool.Prelude.{◌≡◌, refl, none, true, ◌↔◌, inr, arith}
use netconnpool.Prelude.Int.{pos}
use netconnpool.Config.{Config, default_config, validate}
use netconnpool.Config.Validate.{validate_iff, validate-IsNormal, validate-validate}
use netconnpool.Config.Acceptable.{IsAcceptable, IsNormal}

abbrev wide_config : Config
wide_config = record default_config { dialer = true; max_idle_connections = pos 50 }

wide_accepted : (validate wide_config).1 ≡ none
wide_accepted = (validate_iff wide_config).1 (record {
  source = refl;
  min_nonneg = omega arith;
  min_within = inr (omega arith);
  idle_positive = omega arith;
  timeout_positive = omega arith;
})

validate_iff_example : ((validate wide_config).1 ≡ none) ↔ IsAcceptable wide_config
validate_iff_example = validate_iff wide_config

validate-IsNormal_example : IsNormal (validate wide_config).0
validate-IsNormal_example = validate-IsNormal wide_config wide_accepted

validate-validate_example : validate (validate wide_config).0 ≡ ((validate wide_config).0, none)
validate-validate_example = validate-validate wide_config wide_accepted
