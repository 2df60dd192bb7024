-- ===== src/Engine/Egress/Audit.antt =====
-- `prepare_and_audit_egress` of engine/egress.py, stage by stage.
use znyx_runtime.Prelude.{
  Text, Bool, true, false, ◌&&◌, ◌||◌, Option, none, some, ◌≡◌, refl, sym, ap, ◌∙◌, arith, inl, inr,
  Bool-cases, if◌then◌else◌,
}
use znyx_runtime.Core.Models.{ExecutionMode}
use znyx_runtime.Engine.Egress.{
  Url, EgressRequest, EgressDecision, EgressEvent, PreparedEgress, AuditContext, Redactor, Sink,
  denied, cleared, audit_event, redact_for_egress, evaluate_egress, is_boundary_crossing,
  audit_redacted, carry_out, prepare_and_audit_egress,
}
use znyx_runtime.Engine.Egress.Gate.{
  reason-evaluate_egress, flags-evaluate_egress, inside-evaluate_egress,
}

-- A sink is wired, and it persisted this event.
abbrev pub Persisted : {S : Type 0} → Option (Sink S) → EgressEvent → S → S → Type 0
Persisted none ev s s' = ⊥
Persisted (some sink) ev s s' = sink ev s ≡ (true, s')

module _ {S : Type 0} (mode : ExecutionMode) (d : EgressDecision) (ctx : AuditContext) (text : Text)
    (s : S) where
  audit_redacted-Persisted :
      (sink : Option (Sink S)) (o : Option (Text × Bool))
      → d.is_egress ≡ true
      → let (p, s') = audit_redacted sink mode d ctx text o s in
        p.proceed ≡ true
        → Persisted sink (audit_event mode d ctx p.call_text p.redacted) s s'
          × (p.decision ≡ d)
          × (o ≡ some (p.call_text, p.redacted))
  unfolding audit_redacted
  audit_redacted-Persisted sink none out go = cc
  audit_redacted-Persisted none (some (t, b)) out go = ground arith
  audit_redacted-Persisted (some sink) (some (t, b)) out go = ground arith

module _ (pii secrets : Redactor) (text : Text) where
  -- Nothing to redact leaves the text as it is.
  redact_for_egress_off : redact_for_egress pii secrets text false false true ≡ some (text, false)
  unfolding redact_for_egress
  redact_for_egress_off = refl

  redaction_skipped :
      (x y : Bool)
      → (if x || y then redact_for_egress pii secrets text x y true else some (text, false))
        ≡ redact_for_egress pii secrets text x y true
  redaction_skipped true y = refl
  redaction_skipped false true = refl
  redaction_skipped false false = sym redact_for_egress_off

module _ {S : Type 0} (pii secrets : Redactor) (sink : Option (Sink S)) where
  decision-audit_redacted :
      (sink : Option (Sink S)) (mode : ExecutionMode) (d : EgressDecision) (ctx : AuditContext)
      (text : Text) (o : Option (Text × Bool)) (s : S)
      → (audit_redacted sink mode d ctx text o s).0.decision ≡ d
  unfolding audit_redacted
  decision-audit_redacted sink mode d ctx text none s = refl
  decision-audit_redacted none mode d ctx text (some (t, b)) s = ground arith
  decision-audit_redacted (some sink) mode d ctx text (some (t, b)) s = ground arith

  -- What a decision that is carried out has behind it.
  abbrev IsCarried :
      ExecutionMode → EgressDecision → AuditContext → Text → S → PreparedEgress → S → Type 0
  IsCarried mode d ctx text s p s' =
      (p.decision ≡ d)
      × (d.allowed ≡ true)
      × Persisted sink (audit_event mode d ctx p.call_text p.redacted) s s'
      × (redact_for_egress pii secrets text d.redact_pii d.redact_secrets true
          ≡ some (p.call_text, p.redacted))

  -- What a call has behind it that crosses the boundary and may proceed: the redactors are those that
  -- the request asks for.
  abbrev pub IsCovered :
      (Text → Option Url)
      → ExecutionMode
      → EgressRequest
      → AuditContext
      → Text
      → S
      → PreparedEgress
      → S
      → Type 0
  IsCovered urlparse mode r ctx text s p s' =
      (p.decision ≡ evaluate_egress urlparse mode r)
      × ((evaluate_egress urlparse mode r).allowed ≡ true)
      × Persisted sink
          (audit_event mode (evaluate_egress urlparse mode r) ctx p.call_text p.redacted) s s'
      × (redact_for_egress pii secrets text r.redact_pii r.redact_secrets true
          ≡ some (p.call_text, p.redacted))

  carry_out-denied :
      (mode : ExecutionMode) (d : EgressDecision) (ctx : AuditContext) (text : Text) (s : S)
      → d.allowed ≡ false
      → carry_out pii secrets sink mode d ctx text s ≡ (denied d text d.reason, s)
  unfolding carry_out
  carry_out-denied mode d ctx text s e = rw e

  carry_out-allowed :
      (mode : ExecutionMode) (d : EgressDecision) (ctx : AuditContext) (text : Text) (s : S)
      → d.allowed ≡ true
      → d.is_egress ≡ true
      → carry_out pii secrets sink mode d ctx text s
        ≡ audit_redacted sink mode d ctx text
            (redact_for_egress pii secrets text d.redact_pii d.redact_secrets true)
            s
  unfolding carry_out
  carry_out-allowed mode d ctx text s e out =
      rw (e, out) (rw (redaction_skipped pii secrets text d.redact_pii d.redact_secrets))

  not_denied :
      (d : EgressDecision) (text : Text) (why : Option Text)
      → (denied d text why).proceed ≡ true
      → ⊥
  unfolding denied
  not_denied d text why h = cc

  carry_out-IsCarried :
      (mode : ExecutionMode) (d : EgressDecision) (ctx : AuditContext) (text : Text) (s : S)
      → let (p, s') = carry_out pii secrets sink mode d ctx text s in
        p.proceed ≡ true → d.is_egress ≡ true → IsCarried mode d ctx text s p s'
  carry_out-IsCarried mode d ctx text s go out = elim (Bool-cases d.allowed) [
    | inl e ↦
        let q = carry_out-allowed mode d ctx text s e out in
        let r =
          audit_redacted-Persisted mode d ctx text s sink
            (redact_for_egress pii secrets text d.redact_pii d.redact_secrets true) out
            (rw q at go) in
        rw q (r.1, e, r.0, r.2)
    | inr e ↦ absurd (not_denied d text d.reason (rw (carry_out-denied mode d ctx text s e) at go))
  ]

  decision-carry_out :
      (mode : ExecutionMode) (d : EgressDecision) (ctx : AuditContext) (text : Text) (s : S)
      → (carry_out pii secrets sink mode d ctx text s).0.decision ≡ d
  unfolding carry_out
  decision-carry_out mode d ctx text s = ground (
    arith,
    decision-audit_redacted sink mode d ctx text
        (if d.is_egress && (d.redact_pii || d.redact_secrets)
          then redact_for_egress pii secrets text d.redact_pii d.redact_secrets true
          else some (text, false))
        s,
  )

  -- A call that crosses the boundary and may proceed was allowed by the gate; its audit event, with
  -- the destination of the decision and the size of the text that is sent, was persisted by a
  -- configured sink; and that text is what the redactors made of the original that the request asks
  -- for by its flags redact_pii and redact_secrets.
  pub crossing-IsCovered :
      (urlparse : Text → Option Url) (mode : ExecutionMode) (text : Text) (r : EgressRequest)
      (ctx : AuditContext) (s : S)
      → (prepare_and_audit_egress pii secrets sink urlparse mode text r ctx s).0.proceed ≡ true
      → is_boundary_crossing mode r.in_boundary ≡ true
      → let (p, s') = prepare_and_audit_egress pii secrets sink urlparse mode text r ctx s in
        IsCovered urlparse mode r ctx text s p s'
  unfolding prepare_and_audit_egress
  crossing-IsCovered urlparse mode text r ctx s go out =
      let d = evaluate_egress urlparse mode r in
      let (same, allowed, recorded, redacted) =
        carry_out-IsCarried mode d ctx text s go
          ((reason-evaluate_egress urlparse mode r).0 ∙ out) in
      let (by_pii, by_secrets) = flags-evaluate_egress urlparse mode r allowed out in
      (
        same,
        allowed,
        recorded,
        ap (λ b. redact_for_egress pii secrets text b r.redact_secrets true) (sym by_pii)
            ∙ ap (λ b. redact_for_egress pii secrets text d.redact_pii b true) (sym by_secrets)
            ∙ redacted,
      )

  -- A call that the gate denies does not proceed; it reports the gate's reason, keeps the original
  -- text, and leaves the sink's state alone.
  pub prepare-denied :
      (urlparse : Text → Option Url) (mode : ExecutionMode) (text : Text) (r : EgressRequest)
      (ctx : AuditContext) (s : S)
      → (evaluate_egress urlparse mode r).allowed ≡ false
      → prepare_and_audit_egress pii secrets sink urlparse mode text r ctx s ≡ (
        denied (evaluate_egress urlparse mode r) text (evaluate_egress urlparse mode r).reason,
        s,
      )
  unfolding prepare_and_audit_egress
  prepare-denied urlparse mode text r ctx s e =
      carry_out-denied mode (evaluate_egress urlparse mode r) ctx text s e

  -- A call that stays inside the boundary proceeds with its text as it is and records nothing,
  -- whatever the policy says of external calls.
  pub prepare-inside :
      (urlparse : Text → Option Url) (mode : ExecutionMode) (text : Text) (r : EgressRequest)
      (ctx : AuditContext) (s : S)
      → is_boundary_crossing mode r.in_boundary ≡ false
      → prepare_and_audit_egress pii secrets sink urlparse mode text r ctx s
        ≡ (cleared (evaluate_egress urlparse mode r) text false none, s)
  unfolding prepare_and_audit_egress
  prepare-inside urlparse mode text r ctx s e =
      let h = inside-evaluate_egress urlparse mode r e in rw (h.0, h.1)
