-- ===== src/Engine/Config.antt =====
-- A detector's policy block as the engine reads it: the dicts of policy/schema.py
-- (`DetectorConfig`, `StrategyConfig`, `DetectorBackendConfig`, `EscalateWhen`) with `none` for a
-- key that is absent or holds no value of the expected type. Keys that no modelled code reads are
-- left out.
use znyx_runtime.Prelude.{ℕ, Text, Bool, Option, List}

pub record BackendSpec : Type 0 where
  pub endpoint_url : Option Text
  pub model_id : Option Text
  pub revision : Option Text
  pub task : Option Text
  pub provider : Option Text
  pub timeout_ms : Option ℕ
  pub auth_value : Option Text
  pub region : Option Text
  pub in_boundary : Option Bool
  pub params : Option (List (Text × List Text))

-- The empty dict is the record of two `none`s.
pub record EscalateWhen : Type 0 where
  pub deterministic_score_between : Option (List ℕ)
  pub ml_confidence_below : Option ℕ

pub record StrategyConfig : Type 0 where
  pub order : Option (List Text)
  pub escalate_when : Option EscalateWhen
  pub fallback : Option Text
  pub timeout_ms : Option ℕ
  pub additive : Bool

-- A JSON value where the code asks both `is True` and for its truth.
pub data Flag : Type 0 where
  is_true : Flag
  truthy : Flag
  falsy : Flag

pub record StampFields : Type 0 where
  pub enforcement_passed : Flag
  pub model_version : Option Text
  pub validated_at : Option Text
  pub sig : Option Text

-- `_scorecard_gate`, which a hand-written policy may hold as any value.
pub data GateStamp : Type 0 where
  not_dict : GateStamp
  stamp : StampFields → GateStamp

pub record DetectorConfig : Type 0 where
  pub strategy : Option StrategyConfig
  pub backends : Option (List (Text × BackendSpec))
  pub scorecard_gate : Option GateStamp
  pub fallback : Option Text
  pub timeout_ms : Option ℕ
  pub egress_allowlist : Option (List Text)
  pub redact_before_egress : Option (Option Bool × Option Bool)
  pub allowed_languages : Option (List Text)
  pub blocked_languages : Option (List Text)
