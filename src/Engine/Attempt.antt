-- ===== src/Engine/Attempt.antt =====
-- packages/znyx-core/src/znyx_core/engine/escalation.py: the pieces of one escalation attempt, and
-- llm/providers.py, `effective_endpoint`.
pub mod Merge
use znyx_runtime.Prelude.{
  ℕ, ◌+◌, ◌*◌, max, ℤ, pos, Text, codes, eq_text, mem_text, lower, has_text, or_text, Bool, true,
  false, Option, none, some, List, [], ◌∷◌, ◌++◌, leb, if◌then◌else◌,
}
use znyx_runtime.Core.Models.{
  Decision, allow, block, Severity, high, ExecutionMode, local_deterministic, local_ml,
  local_embedding, local_llm, remote_llm, remote_api, RuleHit, LayerResult, DetectorResult,
  plain_result, Span,
}
use znyx_runtime.Core.Labels.{ScoreKind, deterministic, judge, ml, normalize_risk, decision_rank}
use znyx_runtime.Engine.Redaction.{apply_redaction_spans}

-- `_DEFAULT_ENDPOINTS`
default_endpoint : Text → Option Text
default_endpoint p =
    if eq_text p (codes "openai")
    then some (codes "https://api.openai.com/v1/chat/completions")
    else if eq_text p (codes "anthropic")
    then some (codes "https://api.anthropic.com/v1/messages")
    else if eq_text p (codes "google")
    then some (codes "https://generativelanguage.googleapis.com/v1beta/models")
    else if eq_text p (codes "openai_moderation")
    then some (codes "https://api.openai.com/v1/moderations")
    else none

unfoldable pub effective_endpoint : Option Text → Option Text → Option Text
unfolding default_endpoint
effective_endpoint provider (some (c ∷ url)) = some (c ∷ url)
effective_endpoint none _ = none
effective_endpoint (some []) _ = none
effective_endpoint (some (c ∷ p)) _ = default_endpoint (lower (c ∷ p))

-- `_normalize_kind`
unfoldable pub normalize_kind : ExecutionMode → ScoreKind
normalize_kind local_ml = ml
normalize_kind local_embedding = ml
normalize_kind local_llm = judge
normalize_kind remote_llm = judge
normalize_kind remote_api = judge
normalize_kind local_deterministic = deterministic

unfoldable pub mode_value : ExecutionMode → Text
mode_value local_deterministic = codes "local_deterministic"
mode_value local_ml = codes "local_ml"
mode_value local_embedding = codes "local_embedding"
mode_value local_llm = codes "local_llm"
mode_value remote_llm = codes "remote_llm"
mode_value remote_api = codes "remote_api"

-- `_GATE_REASONS`
abbrev pub gate_reasons : List Text
gate_reasons =
    codes "no_external_calls"
    ∷ codes "egress_not_allowlisted"
    ∷ codes "residency_denied"
    ∷ codes "redaction_failed"
    ∷ codes "egress_audit_unavailable"
    ∷ codes "egress_audit_unconfigured"
    ∷ []

-- What stands in for a failed escalation: the result, the selected mode, the path.
pub record Fallback : Type 0 where
  pub result : DetectorResult
  pub mode : ExecutionMode
  pub path : Text

abbrev pub note : Text → ExecutionMode → Text → Text
note head mode err = head ++ (mode_value mode ++ (codes "): " ++ err))

unfoldable pub fallback_result : Text → DetectorResult → ExecutionMode → Text → Fallback
unfolding mode_value
fallback_result fallback deterministic_result mode err =
    if eq_text fallback (codes "fail_open")
    then record {
      result = record (plain_result (some allow) 0) {
        developer_message = some (note (codes "escalation fail-open (") mode err);
      };
      mode = mode;
      path = codes "fail_open:" ++ mode_value mode;
    }
    else if eq_text fallback (codes "fail_closed")
    then record {
      result = record (plain_result (some block) 100) {
        rule_hits =
            record {
              rule_id = codes "escalation.fail_closed";
              severity = high;
              message =
                  codes "Backend unavailable (" ++ (mode_value mode ++ codes "); failing closed");
            }
            ∷ [];
        developer_message = some (note (codes "escalation fail-closed (") mode err);
      };
      mode = mode;
      path = codes "fail_closed:" ++ mode_value mode;
    }
    else record {
      result = deterministic_result;
      mode = local_deterministic;
      path = codes "fallback_to_deterministic:" ++ mode_value mode;
    }

-- `det.sanitized_text or ml.sanitized_text`
abbrev pub first_text : Option Text → Option Text → Option Text
first_text none b = b
first_text (some []) b = b
first_text (some (c ∷ t)) b = some (c ∷ t)

worse_of : DetectorResult → DetectorResult → DetectorResult
worse_of det other =
    if leb (decision_rank other.decision) (decision_rank det.decision) then det else other

with_spans : Text → List Span → DetectorResult → DetectorResult
with_spans text [] merged = merged
with_spans text (s ∷ l) merged = record merged {
  sanitized_text = some (apply_redaction_spans text (s ∷ l));
  redaction_spans = s ∷ l;
}

-- `_additive_merge`, with the text at hand.
unfoldable pub additive_merge : DetectorResult → DetectorResult → Text → DetectorResult
unfolding worse_of with_spans
additive_merge det other text =
    let kept = worse_of det other in
    with_spans text (det.redaction_spans ++ other.redaction_spans) (record kept {
      risk_score = max det.risk_score other.risk_score;
      rule_hits = det.rule_hits ++ other.rule_hits;
      sanitized_text = first_text det.sanitized_text other.sanitized_text;
    })

-- `LayerResult(execution_mode=…, decision=…, selected=…)`: all else at its default.
abbrev pub plain_layer : ExecutionMode → Option Decision → Bool → LayerResult
plain_layer mode d selected = record {
  execution_mode = mode;
  decision = d;
  native_score = none;
  normalized_score = none;
  confidence = none;
  calibrated_score = none;
  label_scores = none;
  model_version = none;
  external_egress = false;
  fallback_reason = none;
  selected = selected;
}

unfoldable pub layer_from_result : ExecutionMode → DetectorResult → Bool → LayerResult
unfolding normalize_kind
layer_from_result mode r selected = record (plain_layer mode r.decision selected) {
  native_score = some r.risk_score;
  normalized_score = some (normalize_risk (some (pos (r.risk_score * 100))) (normalize_kind mode));
  confidence = r.confidence;
  calibrated_score = r.calibrated_score;
  label_scores = r.label_scores;
  model_version = r.model_version;
}
