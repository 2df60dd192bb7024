-- ===== src/Engine/Escalation/Induct.antt =====
-- An induction rule for the loop of `run_with_strategy` in engine/escalation.py, over the two ways to
-- record an attempt.
use znyx_runtime.Prelude.{
  Text, codes, or_text, Bool, true, false, none, List, [], ◌∷◌, ◌++◌, ◌≡◌, refl, Bool-cases, inl,
  inr, Option-cases, if◌then◌else◌, false≢true,
}
use znyx_runtime.Core.Models.{ExecutionMode, DetectorResult}
use znyx_runtime.Engine.Egress.{is_boundary_crossing}
use znyx_runtime.Engine.Backends.{
  DetectorBackend, BackendStrategy, backend_for, should_escalate, is_deterministic,
}
use znyx_runtime.Engine.Attempt.{mode_value, normalize_kind}
use znyx_runtime.Engine.Escalation.{
  Attempt, returned, unavailable, Caller, EgressGate, JudgeCaller, no_judge, legacy_judge,
  gated_judge, Run, record_fallback, record_success, settle, call_once, call_backend, is_judge_kind,
  step, escalate, is_gated,
}

-- What `P` has to keep; `Seen` is what is known of the crossing that a successful call reports.
module _ {S : Type 0} (strategy : BackendStrategy) (det : DetectorResult) (Seen : Bool → Type 0)
    (P : Run S → Type 0) where
  -- `P` does not look at the sink, and an attempt in a model's mode keeps it. An attempt follows no
  -- fallback.
  pub record Keeps : Type 0 where
    pub sink : (run : Run S) (s : S) → P run → P (record run { sink = s })
    pub fallback :
        (mode : ExecutionMode) (reason : Text) (run : Run S)
        → is_deterministic mode ≡ false
        → run.fallback_path ≡ none
        → P run
        → P (record_fallback strategy det mode reason run)
    pub success :
        (mode : ExecutionMode) (crossed : Bool) (result : DetectorResult) (run : Run S)
        → is_deterministic mode ≡ false
        → run.fallback_path ≡ none
        → Seen crossed
        → P run
        → P (record_success strategy det mode crossed result run)

  -- `P` holds of the run, and the loop goes on only without a fallback.
  Kept : Run S × Bool → Type 0
  Kept r = P r.0 × (r.1 ≡ true → r.0.fallback_path ≡ none)

module _ {S : Type 0} (strategy : BackendStrategy) (det : DetectorResult) {Seen : Bool → Type 0}
    {P : Run S → Type 0} (keeps : Keeps strategy det Seen P) where
  fallback_Kept :
      (mode : ExecutionMode) (reason : Text) (run : Run S)
      → is_deterministic mode ≡ false
      → run.fallback_path ≡ none
      → P run
      → Kept strategy det Seen P (record_fallback strategy det mode reason run, false)
  unfolding Kept
  fallback_Kept mode reason run m n h =
      (keeps.fallback mode reason run m n h, λ e. absurd (false≢true e))

  settle-Kept :
      (mode : ExecutionMode) (crossed : Bool) (a : Attempt) (run : Run S)
      → is_deterministic mode ≡ false
      → run.fallback_path ≡ none
      → Seen crossed
      → P run
      → Kept strategy det Seen P (settle strategy det mode crossed a run)
  unfolding settle Kept record_success
  settle-Kept mode crossed (returned r) run m n c h =
      (keeps.success mode crossed r run m n c h, λ e. n)
  settle-Kept mode crossed (unavailable e) run m n c h = fallback_Kept mode e run m n h

  module _ (text : Text) (caller : Caller) (gate : ExecutionMode → DetectorBackend → EgressGate S)
      (gate_Seen : (mode : ExecutionMode) (b : DetectorBackend) (s : S)
        → (gate mode b text s).0.proceed ≡ true
        → Seen (gate mode b text s).0.decision.is_egress) where
    call_once-Kept :
        (mode : ExecutionMode) (b : DetectorBackend) (use_caller : Caller) (run : Run S)
        → is_deterministic mode ≡ false
        → run.fallback_path ≡ none
        → P run
        → Kept strategy det Seen P (call_once strategy det text caller gate mode b use_caller run)
    unfolding call_once
    call_once-Kept mode b use_caller run m n h =
        let (prep, s') = gate mode b text run.sink in
        let run' = record run { sink = s' } in
        let h' : P run' = keeps.sink run s' h in
        elim (Bool-cases prep.proceed) [
          | inl e ↦ rw e (
              settle-Kept mode prep.decision.is_egress
                (use_caller b prep.call_text strategy.timeout_ms) run' m n
                (gate_Seen mode b run.sink e) h')
          | inr e ↦ rw e (fallback_Kept mode (or_text prep.reason []) run' m n h')
        ]

    module _ (judge_caller : JudgeCaller S)
        (judge_Seen : (mode : ExecutionMode) (b : DetectorBackend)
          → is_gated judge_caller ≡ true
          → Seen (is_boundary_crossing mode b.in_boundary)) where
      call_backend-Kept :
          (jc : JudgeCaller S)
          (seen : (mode : ExecutionMode) (b : DetectorBackend)
            → is_gated jc ≡ true
            → Seen (is_boundary_crossing mode b.in_boundary))
          (mode : ExecutionMode) (b : DetectorBackend) (run : Run S)
          → is_deterministic mode ≡ false
          → run.fallback_path ≡ none
          → P run
          → Kept strategy det Seen P (call_backend strategy det text caller gate jc mode b run)
      unfolding call_backend is_gated
      call_backend-Kept no_judge seen mode b run m n h = call_once-Kept mode b caller run m n h
      call_backend-Kept (legacy_judge c) seen mode b run m n h =
          call_once-Kept mode b (if is_judge_kind (normalize_kind mode) then c else caller) run m n
            h
      call_backend-Kept (gated_judge c) seen mode b run m n h =
          let (attempt, s') = c b text strategy.timeout_ms (gate mode b) run.sink in
          elim (Bool-cases (is_judge_kind (normalize_kind mode))) [
            | inl e ↦ rw e (
                settle-Kept mode (is_boundary_crossing mode b.in_boundary) attempt
                  (record run { sink = s' }) m n (seen mode b refl) (keeps.sink run s' h))
            | inr e ↦ rw e (call_once-Kept mode b caller run m n h)
          ]

      step-Kept :
          (mode : ExecutionMode) (run : Run S)
          → is_deterministic mode ≡ false
          → run.fallback_path ≡ none
          → P run
          → Kept strategy det Seen P (step strategy det text caller gate judge_caller mode run)
      unfolding step Kept
      step-Kept mode run m n h =
          elim (Bool-cases
            (should_escalate strategy.escalate_when run.cur_mode run.cur_risk run.cur_conf)) [
              | inr e ↦ rw e (h, λ e. absurd (false≢true e))
              | inl e ↦ rw e (elim (Option-cases (backend_for strategy mode)) [
                | inl o ↦ rw o (
                    fallback_Kept mode (codes "no backend configured for mode " ++ mode_value mode)
                      run m n h)
                | inr (b, o) ↦ rw o (call_backend-Kept judge_caller judge_Seen mode b run m n h)
              ])
            ]

      -- The rule: what holds at the start holds at the end of the loop.
      pub escalate_keeps :
          (order : List ExecutionMode) (run : Run S)
          → run.fallback_path ≡ none
          → P run
          → P (escalate strategy det text caller gate judge_caller order run)
      unfolding escalate Kept
      escalate_keeps [] run n h = h
      escalate_keeps (mode ∷ order) run n h = elim (Bool-cases (is_deterministic mode)) [
        | inl e ↦ rw e (escalate_keeps order run n h)
        | inr e ↦
            let (run', go_on) = step strategy det text caller gate judge_caller mode run in
            let kept : Kept strategy det Seen P (run', go_on) = step-Kept mode run e n h in
            rw e (elim (Bool-cases go_on) [
              | inl g ↦ rw g (escalate_keeps order run' (kept.1 g) kept.0)
              | inr g ↦ rw g kept.0
            ])
      ]
