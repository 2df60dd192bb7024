-- ===== src/Engine/Enforcement.antt =====
-- packages/znyx-core/src/znyx_core/engine/orchestrator.py, `_verify_and_apply_scorecard_gate` and
-- `_apply_scorecard_gate`: the scorecard gate of a result.
use znyx_runtime.Prelude.{
  Text, codes, has_text, or_text, strip, Bool, true, false, not, ◌&&◌, Option, none, some, ◌++◌, [],
  ◌∷◌, if◌then◌else◌,
}
use znyx_runtime.Core.Models.{Decision, allow, block, redact, warn, transform, DetectorResult}
use znyx_runtime.Engine.Config.{
  DetectorConfig, Flag, is_true, truthy, falsy, StampFields, GateStamp, not_dict, stamp,
}
use znyx_runtime.Engine.ScorecardGate.{is_model_backed, resolve_gated_action}
pub mod FailClosed

-- `Decision.value`
unfoldable pub decision_value : Decision → Text
decision_value allow = codes "ALLOW"
decision_value block = codes "BLOCK"
decision_value redact = codes "REDACT"
decision_value warn = codes "WARN"
decision_value transform = codes "TRANSFORM"

abbrev pub literally_true : Flag → Bool
literally_true is_true = true
literally_true truthy = false
literally_true falsy = false

abbrev pub permits : GateStamp → Bool
permits not_dict = false
permits (stamp s) = literally_true s.enforcement_passed

abbrev failed_note : Text
failed_note = codes " [scorecard enforcement gate not met → downgraded to WARN]"

abbrev unstamped_note : Text
unstamped_note =
    codes
      " [unstamped model-backed detector → advisory WARN until an enforcement-tier scorecard is stamped]"

downgrade : Text → DetectorResult → DetectorResult
downgrade note result = record result {
  decision = some warn;
  developer_message = some (strip (or_text result.developer_message [] ++ note));
}

-- A result whose decision is BLOCK or REDACT, under the stamp of the configuration.
gate_result : DetectorConfig → Decision → Option GateStamp → DetectorResult → DetectorResult
unfolding downgrade decision_value
gate_result config d (some gate) result =
    if (resolve_gated_action (some (decision_value d)) (permits gate)).1
    then downgrade failed_note result
    else result
gate_result config d none result =
    if is_model_backed config then downgrade unstamped_note result else result

gate_decision : DetectorConfig → Option Decision → DetectorResult → DetectorResult
unfolding gate_result
gate_decision config (some block) result = gate_result config block config.scorecard_gate result
gate_decision config (some redact) result = gate_result config redact config.scorecard_gate result
gate_decision config _ result = result

unfoldable pub apply_scorecard_gate : DetectorConfig → DetectorResult → DetectorResult
unfolding gate_decision
apply_scorecard_gate config result = gate_decision config result.decision result

-- The configured key, if any, and the check of a stamp against it (`verify_stamp`).
module _ (verify_stamp : Text → GateStamp → Text → Bool) where
  neutralise : Text → Text → GateStamp → GateStamp
  neutralise detector_id key not_dict = not_dict
  neutralise detector_id key (stamp s) =
      if literally_true s.enforcement_passed && not (verify_stamp detector_id (stamp s) key)
      then stamp (record s { enforcement_passed = falsy })
      else stamp s

  with_verified_stamp : Text → Option Text → DetectorConfig → Option GateStamp → DetectorConfig
  unfolding neutralise
  with_verified_stamp detector_id (some (c ∷ key)) config (some gate) = record config {
    scorecard_gate = some (neutralise detector_id (c ∷ key) gate);
  }
  with_verified_stamp detector_id _ config gate = config

  unfoldable pub verify_and_apply_scorecard_gate :
      Option Text → Bool → Text → DetectorConfig → DetectorResult → DetectorResult
  unfolding with_verified_stamp
  verify_and_apply_scorecard_gate public_key certify_model detector_id config result =
      if certify_model
      then result
      else apply_scorecard_gate
          (with_verified_stamp detector_id public_key config config.scorecard_gate) result
