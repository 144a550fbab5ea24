-- ===== src/Broker/Config.antt =====
-- crates/lluma-broker/src/config.rs and error.rs: the policy knobs, and the errors.
use lluma.Common.{ℕ, Bool, true, false, Option, none}
use lluma.Core.Wire.{Array32}

pub data BrokerError : Type 0 where
  storage snapshot_too_large snapshot_invalid : BrokerError

pub record BrokerConfig : Type 0 where
  pub pow_difficulty : ℕ
  pub epoch_salt : Array32
  pub epoch_salt_prev : Option Array32
  pub epoch : ℕ
  pub admission_m : ℕ
  pub heartbeat_interval_s : ℕ
  pub snapshot_cadence_s : ℕ
  pub trial_grant : ℕ
  pub daily_trial_budget : ℕ
  pub units_audit_cap : ℕ
  pub allow_loopback_ingress : Bool

-- `BrokerConfig::default` and `BrokerConfig::for_test`.
abbrev pub default_config : BrokerConfig
default_config = record {
  pow_difficulty = 20;
  epoch_salt = 0;
  epoch_salt_prev = none;
  epoch = 1;
  admission_m = 3;
  heartbeat_interval_s = 30;
  snapshot_cadence_s = 60;
  trial_grant = 20;
  daily_trial_budget = 10000;
  units_audit_cap = 4;
  allow_loopback_ingress = false;
}

abbrev pub for_test : BrokerConfig
for_test = record default_config { pow_difficulty = 8; allow_loopback_ingress = true }
