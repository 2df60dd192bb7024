-- ===== src/Engine/Enforcement/FailClosed.antt =====
-- The scorecard gate of engine/orchestrator.py: who may enforce.
use znyx_runtime.Prelude.{
  ◌≤◌, Text, Bool, true, false, not, ◌&&◌, Option, none, some, [], ◌∷◌, ◌≡◌, refl, ap, ◌∙◌, arith,
  if◌then◌else◌,
}
use znyx_runtime.Core.Models.{Decision, block, redact, warn, DetectorResult}
use znyx_runtime.Core.Labels.{decision_rank}
use znyx_runtime.Engine.Config.{DetectorConfig, GateStamp, not_dict, stamp}
use znyx_runtime.Engine.ScorecardGate.{is_model_backed, resolve_gated_action}
use znyx_runtime.Engine.Enforcement.{
  with_verified_stamp, decision_value, gate_result, gate_decision, permits, apply_scorecard_gate,
  verify_and_apply_scorecard_gate,
}

abbrev pub is_enforcing : Option Decision → Bool
is_enforcing (some block) = true
is_enforcing (some redact) = true
is_enforcing _ = false

-- A stamp decides by its literal verdict; without one only a detector with no model enforces.
abbrev pub authority : DetectorConfig → Option GateStamp → Bool
authority config none = not (is_model_backed config)
authority config (some gate) = permits gate

gated_block : (p : Bool) → (resolve_gated_action (some (decision_value block)) p).1 ≡ not p
unfolding resolve_gated_action decision_value
gated_block true = refl
gated_block false = refl

gated_redact : (p : Bool) → (resolve_gated_action (some (decision_value redact)) p).1 ≡ not p
unfolding resolve_gated_action decision_value
gated_redact true = refl
gated_redact false = refl

-- The gate's effect on a result, by what was decided and by the stamp.
abbrev is_gated : DetectorConfig → DetectorResult → Bool
is_gated config result =
    is_enforcing result.decision && not (authority config config.scorecard_gate)

gate_result-if :
    (config : DetectorConfig) (d : Decision) (g : Option GateStamp) (result : DetectorResult)
    → (b : Bool) → (resolve_gated_action (some (decision_value d)) true).1 ≡ false
    → (resolve_gated_action (some (decision_value d)) false).1 ≡ true
    → authority config g ≡ b
    → (gate_result config d g result).decision ≡ (if b then result.decision else some warn)
unfolding gate_result
gate_result-if config d none result b t f h = ground arith
gate_result-if config d (some not_dict) result b t f h = ground arith
gate_result-if config d (some (stamp s)) result b t f h = ground arith

decision-gate_decision :
    (config : DetectorConfig) (d : Option Decision) (result : DetectorResult)
    → result.decision ≡ d
    → (gate_decision config d result).decision
      ≡ (if is_enforcing d && not (authority config config.scorecard_gate) then some warn else d)
unfolding gate_decision
decision-gate_decision config (some block) result h = ground (
  arith,
  gate_result-if config block config.scorecard_gate result _ (gated_block true) (gated_block false)
      refl,
)
decision-gate_decision config (some redact) result h = ground (
  arith,
  gate_result-if config redact config.scorecard_gate result _ (gated_redact true)
      (gated_redact false) refl,
)
decision-gate_decision config _ result h = h

-- A BLOCK or REDACT without authority becomes WARN; every other decision stays.
pub decision-apply_scorecard_gate :
    (config : DetectorConfig) (result : DetectorResult)
    → (apply_scorecard_gate config result).decision ≡ (
        if is_enforcing result.decision && not (authority config config.scorecard_gate)
        then some warn
        else result.decision)
unfolding apply_scorecard_gate
decision-apply_scorecard_gate config result =
    decision-gate_decision config result.decision result refl

-- With a key configured a stamp must also carry a signature that verifies.
abbrev pub is_signed : (Text → GateStamp → Text → Bool) → Option Text → Text → GateStamp → Bool
is_signed verify_stamp (some (c ∷ key)) detector_id gate = verify_stamp detector_id gate (c ∷ key)
is_signed verify_stamp _ detector_id gate = true

abbrev pub signed_authority :
    (Text → GateStamp → Text → Bool) → Option Text → Text → DetectorConfig → Option GateStamp → Bool
signed_authority verify_stamp key detector_id config none = not (is_model_backed config)
signed_authority verify_stamp key detector_id config (some gate) =
    permits gate && is_signed verify_stamp key detector_id gate

module _ (verify_stamp : Text → GateStamp → Text → Bool) where
  authority-with_verified_stamp :
      (key : Option Text) (detector_id : Text) (config : DetectorConfig) (g : Option GateStamp)
      → config.scorecard_gate ≡ g
      → (let c = with_verified_stamp verify_stamp detector_id key config g in
          authority c c.scorecard_gate)
        ≡ signed_authority verify_stamp key detector_id config g
  unfolding with_verified_stamp is_model_backed
  authority-with_verified_stamp none detector_id config none h = rw h
  authority-with_verified_stamp none detector_id config (some not_dict) h = rw h
  authority-with_verified_stamp none detector_id config (some (stamp s)) h = ground arith
  authority-with_verified_stamp (some []) detector_id config none h = rw h
  authority-with_verified_stamp (some []) detector_id config (some not_dict) h = rw h
  authority-with_verified_stamp (some []) detector_id config (some (stamp s)) h = ground arith
  authority-with_verified_stamp (some (c ∷ key)) detector_id config none h = rw h
  authority-with_verified_stamp (some (c ∷ key)) detector_id config (some not_dict) h = refl
  authority-with_verified_stamp (some (c ∷ key)) detector_id config (some (stamp s)) h =
      ground arith

  enforcing_if :
      (d : Option Decision) (b : Bool)
      → is_enforcing (if is_enforcing d && not b then some warn else d) ≡ is_enforcing d && b
  enforcing_if d b = ground arith

  -- Outside a certification run a result enforces after the gate exactly when the detector's
  -- decision was BLOCK or REDACT and either it has no model and no stamp, or its stamp says
  -- literally `True` and, where a key is configured, its signature verifies.
  pub enforcing-verify_and_apply :
      (key : Option Text) (detector_id : Text) (config : DetectorConfig) (result : DetectorResult)
      → is_enforcing
          (verify_and_apply_scorecard_gate verify_stamp key false detector_id config
            result).decision
        ≡ is_enforcing result.decision
          && signed_authority verify_stamp key detector_id config config.scorecard_gate
  unfolding verify_and_apply_scorecard_gate
  enforcing-verify_and_apply key detector_id config result =
      let c = with_verified_stamp verify_stamp detector_id key config config.scorecard_gate in
      ap is_enforcing (decision-apply_scorecard_gate c result)
      ∙ enforcing_if result.decision (authority c c.scorecard_gate)
      ∙ ap (λ b. is_enforcing result.decision && b)
          (authority-with_verified_stamp key detector_id config config.scorecard_gate refl)

-- The gate never raises a decision, and leaves the score, the hits and the texts as they are.
pub apply_scorecard_gate-le :
    (config : DetectorConfig) (result : DetectorResult)
    → let out = apply_scorecard_gate config result in
      (decision_rank out.decision ≤ decision_rank result.decision)
      × (out.risk_score ≡ result.risk_score)
      × (out.rule_hits ≡ result.rule_hits)
      × (out.sanitized_text ≡ result.sanitized_text)
      × (out.layer_results ≡ result.layer_results)
apply_scorecard_gate-le config result = (
  rw (decision-apply_scorecard_gate config result) (ground arith),
  unfold apply_scorecard_gate in ground arith,
  unfold apply_scorecard_gate in ground arith,
  unfold apply_scorecard_gate in ground arith,
  unfold apply_scorecard_gate in ground arith,
)
