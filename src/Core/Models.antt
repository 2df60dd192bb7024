-- ===== src/Core/Models.antt =====
-- packages/znyx-core/src/znyx_core/core/models.py: the data that detectors, layers and the
-- aggregator exchange. A text is the list of its code points; so are messages and identifiers.
-- A probability (confidence, score of a label) is a number of millionths, since the code only
-- compares and copies it. A field that no modelled code writes or reads is left out.
use znyx_runtime.Prelude.{ℕ, Text, Bool, false, Option, none, List, []}

pub data Decision : Type 0 where
  allow block redact warn transform : Decision

pub data Severity : Type 0 where
  low medium high : Severity

pub data ExecutionMode : Type 0 where
  local_deterministic local_ml local_embedding local_llm remote_llm remote_api : ExecutionMode

pub record RuleHit : Type 0 where
  pub rule_id : Text
  pub severity : Severity
  pub message : Text

pub record LayerResult : Type 0 where
  pub execution_mode : ExecutionMode
  pub decision : Option Decision
  pub native_score : Option ℕ
  pub normalized_score : Option ℕ
  pub confidence : Option ℕ
  pub calibrated_score : Option ℕ
  pub label_scores : Option (List (Text × ℕ))
  pub model_version : Option Text
  pub external_egress : Bool
  pub fallback_reason : Option Text
  pub selected : Bool

-- A character range of the evaluated text, its end exclusive.
pub record Span : Type 0 where
  pub start : ℕ
  pub stop : ℕ
  pub label : Text

pub record DetectorResult : Type 0 where
  pub rule_hits : List RuleHit
  pub risk_score : ℕ
  pub decision : Option Decision
  pub sanitized_text : Option Text
  pub user_message : Option Text
  pub developer_message : Option Text
  pub confidence : Option ℕ
  pub calibrated_score : Option ℕ
  pub label_scores : Option (List (Text × ℕ))
  pub model_version : Option Text
  pub execution_mode : Option ExecutionMode
  pub fallback_path : Option Text
  pub external_egress : Bool
  pub layer_results : List LayerResult
  pub redaction_spans : List Span

-- `DetectorResult(decision=d, risk_score=r)`: all else at its default.
abbrev pub plain_result : Option Decision → ℕ → DetectorResult
plain_result d r = record {
  rule_hits = [];
  risk_score = r;
  decision = d;
  sanitized_text = none;
  user_message = none;
  developer_message = none;
  confidence = none;
  calibrated_score = none;
  label_scores = none;
  model_version = none;
  execution_mode = none;
  fallback_path = none;
  external_egress = false;
  layer_results = [];
  redaction_spans = [];
}
