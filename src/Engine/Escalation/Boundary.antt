-- ===== src/Engine/Escalation/Boundary.antt =====
-- `run_with_strategy` of engine/escalation.py under the switch against external calls.
use znyx_runtime.Prelude.{
  Text, Bool, true, false, false≢true, ◌||◌, Option, none, List, [], ◌∷◌, ◌++◌, map, any, ◌≡◌, refl,
  sym, ◌∙◌, inl, inr, arith, if◌then◌else◌, Bool-cases,
}
use znyx_runtime.Core.Models.{ExecutionMode, LayerResult, DetectorResult}
use znyx_runtime.Engine.Egress.{
  EgressDecision, cleared, Url, Redactor, Sink, AuditContext, EgressRequest, is_boundary_crossing,
  prepare_and_audit_egress,
}
use znyx_runtime.Engine.Backends.{DetectorBackend, BackendStrategy, is_deterministic}
use znyx_runtime.Engine.Escalation.{
  Caller, JudgeCaller, Run, deselect, select_first, record_fallback, record_success, start, finish,
  gate_of, run_with_strategy, is_gated, egress_request,
}
use znyx_runtime.Engine.Escalation.Induct.{Keeps, escalate_keeps}
use znyx_runtime.Engine.Egress.Gate.{allowed-evaluate_egress, reason-evaluate_egress}
use znyx_runtime.Engine.Egress.Audit.{crossing-IsCovered, prepare-inside}
use znyx_runtime.Engine.Backends

-- What `no_external_calls` leaves: a layer that did not cross the boundary.
Inside : {S : Type 0} → Run S → Type 0
Inside run = any (λ (l : LayerResult). l.external_egress) run.layers ≡ false

abbrev crosses : LayerResult → Bool
crosses l = l.external_egress

any-append :
    (xs ys : List LayerResult) → any crosses (xs ++ ys) ≡ (any crosses xs || any crosses ys)
any-append [] ys = refl
any-append (x ∷ xs) ys = ground (arith, any-append xs ys)

any-deselect : (xs : List LayerResult) → any crosses (map deselect xs) ≡ any crosses xs
unfolding deselect
any-deselect [] = refl
any-deselect (x ∷ xs) = rw (any-deselect xs) refl

any-select_first : (xs : List LayerResult) → any crosses (select_first xs) ≡ any crosses xs
unfolding select_first
any-select_first [] = refl
any-select_first (x ∷ xs) = refl

Stays : Bool → Type 0
Stays c = c ≡ false

reselected :
    (t : Bool) (xs : List LayerResult)
    → any crosses (if t then select_first xs else xs) ≡ any crosses xs
reselected true xs = any-select_first xs
reselected false xs = refl

Inside-Keeps :
    {S : Type 0} (strategy : BackendStrategy) (det : DetectorResult)
    → Keeps {S = S} strategy det Stays Inside
unfolding Stays Inside record_fallback record_success
Inside-Keeps strategy det = record {
  sink = λ run s h. h;
  fallback = λ mode reason run m n h. rw (reselected, any-append, any-deselect, h) refl;
  success = λ mode crossed result run m n c h. rw (any-append, any-deselect, h, c) refl;
}

start-Inside :
    {S : Type 0} (strategy : BackendStrategy) (det : DetectorResult) (s : S)
    → Inside (start strategy det s)
unfolding Inside start
start-Inside strategy det s = refl

external_egress-finish :
    {S : Type 0} (strategy : BackendStrategy) (det : DetectorResult) (text : Text) (run : Run S)
    → Inside run
    → (finish strategy det text run).external_egress ≡ false
unfolding Inside finish
external_egress-finish strategy det text run h = reselected _ run.layers ∙ h

cleared-is_egress :
    (d : EgressDecision) (t : Text) (r : Bool) (w : Option Text)
    → (cleared d t r w).decision.is_egress ≡ d.is_egress
unfolding cleared
cleared-is_egress d t r w = refl

module _ {S : Type 0} (urlparse : Text → Option Url) (pii secrets : Redactor)
    (egress_sink : Option (Sink S)) where
  -- With external calls switched off, what may proceed does not cross the boundary.
  proceeds_inside :
      (mode : ExecutionMode) (text : Text) (r : EgressRequest) (ctx : AuditContext) (s : S)
      → r.no_external_calls ≡ true
      → let p = (prepare_and_audit_egress pii secrets egress_sink urlparse mode text r ctx s).0 in
        p.proceed ≡ true → p.decision.is_egress ≡ false
  proceeds_inside mode text r ctx s off go =
      elim (Bool-cases (is_boundary_crossing mode r.in_boundary)) [
        | inl out ↦
            let allowed =
              (crossing-IsCovered pii secrets egress_sink urlparse mode text r ctx s go out).1 in
            absurd (
              false≢true
                (sym (allowed-evaluate_egress urlparse mode r ∙ rw (out, off) refl) ∙ allowed))
        | inr in' ↦ rw (prepare-inside pii secrets egress_sink urlparse mode text r ctx s in') (
            cleared-is_egress _ text false none
            ∙ ((reason-evaluate_egress urlparse mode r).0 ∙ in'))
      ]

  module _ (context : AuditContext) (strategy : BackendStrategy) where
    -- With external calls switched off, and a judge that does not gate its own members, the result
    -- of an escalation reports no external egress, whatever the backends answer.
    pub external_egress-run_with_strategy :
        (det : DetectorResult) (text : Text) (caller : Caller) (judge_caller : JudgeCaller S)
        (s : S)
        → strategy.no_external_calls ≡ true
        → is_gated judge_caller ≡ false
        → (run_with_strategy urlparse pii secrets egress_sink context strategy det text caller
            judge_caller s).0.external_egress
          ≡ false
    unfolding run_with_strategy gate_of egress_request Stays
    external_egress-run_with_strategy det text caller judge_caller s off plain =
        external_egress-finish strategy det text _ (
          escalate_keeps strategy det (Inside-Keeps strategy det) text caller
            (gate_of urlparse pii secrets egress_sink context strategy)
            (λ mode b s' go.
              proceeds_inside mode text (egress_request strategy b)
                (record context { model_version = Backends.model_version b.spec }) s' off go)
            judge_caller (λ mode b g. absurd (false≢true (sym plain ∙ g))) strategy.order
            (start strategy det s) refl (start-Inside strategy det s))
