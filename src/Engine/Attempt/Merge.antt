-- ===== src/Engine/Attempt/Merge.antt =====
-- `_additive_merge` and `_layer_from_result` of engine/escalation.py.
use znyx_runtime.Prelude.{
  ℕ, ◌*◌, ◌≤◌, max, min, pos, Text, true, some, List, [], ◌∷◌, ◌++◌, ◌≡◌, ◌≢◌, refl, arith,
}
use znyx_runtime.Core.Models.{ExecutionMode, local_ml, local_embedding, DetectorResult, Span}
use znyx_runtime.Core.Labels.{decision_rank, normalize_risk, ml}
use znyx_runtime.Engine.Redaction.{apply_redaction_spans}
use znyx_runtime.Engine.Backends.{is_ml_mode}
use znyx_runtime.Engine.Attempt.{additive_merge, worse_of, with_spans, layer_from_result}

rank-worse_of :
    (det other : DetectorResult)
    → decision_rank (worse_of det other).decision
      ≡ max (decision_rank det.decision) (decision_rank other.decision)
unfolding worse_of
rank-worse_of det other = ground arith

with_spans_keeps :
    (text : Text) (l : List Span) (r : DetectorResult)
    → ((with_spans text l r).decision ≡ r.decision)
      × ((with_spans text l r).risk_score ≡ r.risk_score)
      × ((with_spans text l r).rule_hits ≡ r.rule_hits)
unfolding with_spans
with_spans_keeps text [] r = (refl, refl, refl)
with_spans_keeps text (s ∷ l) r = (refl, refl, refl)

with_spans_text :
    (text : Text) (l : List Span) (r : DetectorResult)
    → l ≢ []
    → (with_spans text l r).sanitized_text ≡ some (apply_redaction_spans text l)
unfolding with_spans
with_spans_text text [] r h = absurd (h refl)
with_spans_text text (s ∷ l) r h = refl

-- The merge has the worse of the two decisions, the higher risk and the hits of both layers in order.
pub additive_merge_worst :
    (det other : DetectorResult) (text : Text)
    → let m = additive_merge det other text in
      (decision_rank m.decision ≡ max (decision_rank det.decision) (decision_rank other.decision))
      × (m.risk_score ≡ max det.risk_score other.risk_score)
      × (m.rule_hits ≡ det.rule_hits ++ other.rule_hits)
unfolding additive_merge
additive_merge_worst det other text = grind (arith, with_spans_keeps, rank-worse_of det other)

-- Where either layer reports spans, the text is redacted once, over the evaluated text, from the
-- spans of both.
pub additive_merge_text :
    (det other : DetectorResult) (text : Text)
    → det.redaction_spans ++ other.redaction_spans ≢ []
    → (additive_merge det other text).sanitized_text
      ≡ some (apply_redaction_spans text (det.redaction_spans ++ other.redaction_spans))
unfolding additive_merge
additive_merge_text det other text h =
    with_spans_text text (det.redaction_spans ++ other.redaction_spans) _ h

saturated : (n : ℕ) → 1 ≤ n → some (normalize_risk (some (pos (n * 100))) ml) ≡ some 100
unfolding normalize_risk
saturated n k = let e : min 10000 (n * 100 * 100) ≡ 10000 = omega arith in rw e

-- A layer of an ML mode records the normalized score 100 for every risk score from 1 to 100: the
-- score is taken for a probability.
pub ml_normalized_saturates :
    (mode : ExecutionMode) (r : DetectorResult)
    → is_ml_mode mode ≡ true
    → 1 ≤ r.risk_score
    → (layer_from_result mode r true).normalized_score ≡ some 100
unfolding layer_from_result is_ml_mode normalize_risk
ml_normalized_saturates local_ml r h k = saturated r.risk_score k
ml_normalized_saturates local_embedding r h k = saturated r.risk_score k
ml_normalized_saturates _ r h k = cc
