-- ===== src/Engine/Escalation.antt =====
-- packages/znyx-core/src/znyx_core/engine/escalation.py, `run_with_strategy`. The backends, the judge
-- and the audit sink (with its state `S`) are arguments; the log lines are left out.
pub mod Induct
pub mod Outcome
pub mod Boundary
use znyx_runtime.Prelude.{
  ℕ, Text, codes, mem_text, or_text, has_text, Bool, true, false, not, ◌&&◌, Option, none, some,
  List, [], ◌∷◌, ◌++◌, map, any, if◌then◌else◌,
}
use znyx_runtime.Core.Models.{ExecutionMode, local_deterministic, LayerResult, DetectorResult}
use znyx_runtime.Core.Labels.{ScoreKind, deterministic, judge, ml, embedding, probability}
use znyx_runtime.Engine.Egress.{
  Url, EgressRequest, PreparedEgress, AuditContext, Redactor, Sink, is_boundary_crossing,
  prepare_and_audit_egress,
}
use znyx_runtime.Engine.Backends
use znyx_runtime.Engine.Backends.{
  DetectorBackend, BackendStrategy, backend_for, should_escalate, is_deterministic, same_mode,
}
use znyx_runtime.Engine.Attempt.{
  effective_endpoint, normalize_kind, mode_value, gate_reasons, Fallback, fallback_result,
  additive_merge, plain_layer, layer_from_result,
}

-- A backend call: its result, or the text of its `BackendUnavailable`.
pub data Attempt : Type 0 where
  returned : DetectorResult → Attempt
  unavailable : Text → Attempt

abbrev pub Caller : Type 0
Caller = DetectorBackend → Text → Option ℕ → Attempt

-- The closure `_gate`: the egress sequence of this call.
abbrev pub EgressGate : Type 0 → Type 0
EgressGate S = Text → S → PreparedEgress × S

-- A judge that takes an `egress_gate` calls it for each member; a legacy one does not take it.
pub data JudgeCaller (S : Type 0) : Type 0 where
  no_judge : JudgeCaller S
  legacy_judge : Caller → JudgeCaller S
  gated_judge : (DetectorBackend → Text → Option ℕ → EgressGate S → S → Attempt × S) → JudgeCaller S

unfoldable pub is_gated : {S : Type 0} → JudgeCaller S → Bool
is_gated no_judge = false
is_gated (legacy_judge _) = false
is_gated (gated_judge _) = true

-- The local variables of `run_with_strategy`. The deterministic layer is the head of `layers`.
pub record Run (S : Type 0) : Type 0 where
  pub layers : List LayerResult
  pub selected_result : DetectorResult
  pub selected_mode : ExecutionMode
  pub fallback_path : Option Text
  pub cur_mode : ExecutionMode
  pub cur_risk : ℕ
  pub cur_conf : Option ℕ
  pub sink : S

unfoldable pub deselect : LayerResult → LayerResult
deselect l = record l { selected = false }

unfoldable pub select_first : List LayerResult → List LayerResult
select_first [] = []
select_first (l ∷ ls) = record l { selected = true } ∷ ls

abbrev is_judge_kind : ScoreKind → Bool
is_judge_kind judge = true
is_judge_kind _ = false

abbrev pub no_path : Option Text → Bool
no_path none = true
no_path (some p) = false

module _ {S : Type 0} (strategy : BackendStrategy) (deterministic_result : DetectorResult) where
  -- `_record_fallback`
  unfoldable pub record_fallback : ExecutionMode → Text → Run S → Run S
  unfolding deselect select_first
  record_fallback mode reason run =
      let fb =
        fallback_result (or_text strategy.fallback (codes "fallback_to_deterministic"))
          deterministic_result mode reason in
      let path = if mem_text reason gate_reasons then reason else fb.path in
      let layer : LayerResult =
        record (plain_layer mode fb.result.decision (same_mode fb.mode mode)) {
          fallback_reason = some path;
        } in
      let layers = map deselect run.layers ++ layer ∷ [] in
      record run {
        layers = if is_deterministic fb.mode then select_first layers else layers;
        selected_result = fb.result;
        selected_mode = fb.mode;
        fallback_path = some path;
      }

  -- A successful call.
  unfoldable pub record_success : ExecutionMode → Bool → DetectorResult → Run S → Run S
  unfolding deselect layer_from_result
  record_success mode crossed result run =
      let layer : LayerResult = record (layer_from_result mode result true) {
        external_egress = crossed;
      } in
      record run {
        layers = map deselect run.layers ++ layer ∷ [];
        selected_result = result;
        selected_mode = mode;
        cur_mode = mode;
        cur_risk = result.risk_score;
        cur_conf = result.confidence;
      }

  -- How a call ended: the run, and whether the loop goes on.
  unfoldable pub settle : ExecutionMode → Bool → Attempt → Run S → Run S × Bool
  unfolding record_fallback record_success
  settle mode crossed (returned result) run = (record_success mode crossed result run, true)
  settle mode crossed (unavailable err) run = (record_fallback mode err run, false)

  -- `gate` is `_gate` for the backend at hand, `text` the evaluated text.
  module _ (text : Text) (caller : Caller)
      (gate : ExecutionMode → DetectorBackend → EgressGate S) where
    -- ml and legacy: gate once before the single call.
    unfoldable pub call_once : ExecutionMode → DetectorBackend → Caller → Run S → Run S × Bool
    unfolding settle
    call_once mode b use_caller run =
        let (prep, s') = gate mode b text run.sink in
        let run' = record run { sink = s' } in
        if prep.proceed
        then settle mode prep.decision.is_egress (use_caller b prep.call_text strategy.timeout_ms)
            run'
        else (record_fallback mode (or_text prep.reason []) run', false)

    unfoldable pub call_backend :
        JudgeCaller S → ExecutionMode → DetectorBackend → Run S → Run S × Bool
    unfolding call_once
    call_backend no_judge mode b run = call_once mode b caller run
    call_backend (legacy_judge judge_caller) mode b run =
        call_once mode b (if is_judge_kind (normalize_kind mode) then judge_caller else caller) run
    call_backend (gated_judge judge_caller) mode b run =
        if is_judge_kind (normalize_kind mode)
        then (let (attempt, s') = judge_caller b text strategy.timeout_ms (gate mode b) run.sink in
            settle mode (is_boundary_crossing mode b.in_boundary) attempt
              (record run { sink = s' }))
        else call_once mode b caller run

    -- The body of the loop, for a mode that is not the deterministic one.
    unfoldable pub step : JudgeCaller S → ExecutionMode → Run S → Run S × Bool
    unfolding call_backend
    step judge_caller mode run =
        if not (should_escalate strategy.escalate_when run.cur_mode run.cur_risk run.cur_conf)
        then (run, false)
        else elim (backend_for strategy mode) [
          | none ↦ (
            record_fallback mode (codes "no backend configured for mode " ++ mode_value mode) run,
            false,
          )
          | some b ↦ call_backend judge_caller mode b run
        ]

    -- `for mode in strategy.order`
    unfoldable pub escalate : JudgeCaller S → List ExecutionMode → Run S → Run S
    unfolding step
    escalate judge_caller [] run = run
    escalate judge_caller (mode ∷ order) run =
        let skipped = escalate judge_caller order run in
        if is_deterministic mode
        then skipped
        else (let (run', go_on) = step judge_caller mode run in
            let rest = escalate judge_caller order run' in if go_on then rest else run')

  unfoldable pub start : S → Run S
  start s = record {
    layers =
        record (plain_layer local_deterministic deterministic_result.decision true) {
          native_score = some deterministic_result.risk_score;
          normalized_score = some deterministic_result.risk_score;
        }
        ∷ [];
    selected_result = deterministic_result;
    selected_mode = local_deterministic;
    fallback_path = none;
    cur_mode = local_deterministic;
    cur_risk = deterministic_result.risk_score;
    cur_conf = deterministic_result.confidence;
    sink = s;
  }

  -- The additive merge, and the fields that the escalation adds.
  unfoldable pub finish : Text → Run S → DetectorResult
  unfolding select_first
  finish text run =
      let merges =
        strategy.additive
        && (no_path run.fallback_path && not (is_deterministic run.selected_mode)) in
      let result =
        if merges
        then additive_merge deterministic_result run.selected_result text
        else run.selected_result in
      let layers = if merges then select_first run.layers else run.layers in
      record result {
        execution_mode = some run.selected_mode;
        fallback_path = run.fallback_path;
        external_egress = any (λ (l : LayerResult). l.external_egress) layers;
        layer_results = layers;
      }

unfoldable pub egress_request : BackendStrategy → DetectorBackend → EgressRequest
egress_request strategy b = record {
  endpoint_url = effective_endpoint b.provider b.endpoint_url;
  region = b.region;
  in_boundary = b.in_boundary;
  no_external_calls = strategy.no_external_calls;
  egress_allowlist = strategy.egress_allowlist;
  allowed_regions = strategy.allowed_regions;
  redact_pii = strategy.redact_pii;
  redact_secrets = strategy.redact_secrets;
}

module _ {S : Type 0} (urlparse : Text → Option Url) (pii secrets : Redactor)
    (egress_sink : Option (Sink S)) (context : AuditContext) (strategy : BackendStrategy) where
  -- The closure `_gate`.
  unfoldable pub gate_of : ExecutionMode → DetectorBackend → EgressGate S
  unfolding egress_request
  gate_of mode b text s =
      prepare_and_audit_egress pii secrets egress_sink urlparse mode text
        (egress_request strategy b)
        (record context { model_version = Backends.model_version b.spec }) s

  -- The result, and the state in which the sink is left.
  unfoldable pub run_with_strategy :
      DetectorResult → Text → Caller → JudgeCaller S → S → DetectorResult × S
  unfolding start escalate finish
  run_with_strategy deterministic_result text caller judge_caller s =
      let run =
        escalate strategy deterministic_result text caller gate_of judge_caller strategy.order
          (start strategy deterministic_result s) in
      (finish strategy deterministic_result text run, run.sink)
