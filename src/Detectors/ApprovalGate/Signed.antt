-- ===== src/Detectors/ApprovalGate/Signed.antt =====
-- What an action that detectors/human_approval_gate.py lets pass has been approved with.
use znyx_runtime.Prelude.{
  ℕ, ltb, ℤ, Text, Bool, true, false, false≢true, ◌&&◌, map, eq_text, eq_text→eq, has_text, or_text,
  Option, none, some, List, [], ◌∷◌, if◌then◌else◌, ◌≡◌, refl, sym, ap, ◌∙◌, arith, Bool-cases, inl,
  inr,
}
use znyx_runtime.Core.Models.{Decision, allow, block, warn, RuleHit, DetectorResult}
use znyx_runtime.Policy.Value.{Value, Object}
use znyx_runtime.Detectors.Metadata.{is_empty}
use znyx_runtime.Detectors.ApprovalGate.{
  Settings, Evidence, Check, verified, refused, raises, age_of, is_outside, unapproved,
  approval_action_hash, issue_approval_token, compared, in_time, with_token, verify_signature,
  approval_evidence, gated_categories_in, with_hits, approved_hits, checked, gated, with_evidence,
  detect,
}

abbrev decision_of : Option DetectorResult → Option Decision
decision_of none = none
decision_of (some r) = r.decision

abbrev is_verified : Check → Bool
is_verified verified = true
is_verified (refused h) = false
is_verified raises = false

not_block : some block ≡ some allow → ⊥
not_block e = cc

not_warn : some warn ≡ some allow → ⊥
not_warn e = cc

none_not_some : (r : DetectorResult) → none ≡ some r → ⊥
none_not_some r e = cc

is_empty-map : (f : Text → RuleHit) (xs : List Text) → is_empty (map f xs) ≡ is_empty xs
is_empty-map f [] = refl
is_empty-map f (x ∷ xs) = refl

module _ (mac : (secret message : Text) → Text) (sha256 : Text → Text) where
  is_verified-compared :
      (expected token : Text)
      → is_verified (compared mac sha256 expected token) ≡ true
      → eq_text expected token ≡ true
  unfolding compared
  is_verified-compared expected token e = ground (arith, e)

  is_verified-in_time :
      (c : Settings) (now : ℕ) (t : Text) (e : Evidence) (token : Text) (issued_at : ℤ)
      → is_verified (in_time mac sha256 c now t e token issued_at) ≡ true
      → ((ltb 0 c.max_approval_age_seconds
            && is_outside c.max_approval_age_seconds (age_of now issued_at))
          ≡ false)
        × (is_verified (
              compared mac sha256
                (issue_approval_token mac sha256
                  (approval_action_hash mac sha256 t)
                  issued_at
                  (or_text e.approver [])
                  c.signing_secret)
                token)
            ≡ true)
  is_verified-in_time c now t e token issued_at h =
      elim (Bool-cases (
        ltb 0 c.max_approval_age_seconds
        && is_outside c.max_approval_age_seconds (age_of now issued_at))) [
          | inl late ↦ absurd (ground (arith, h, late))
          | inr fresh ↦ (fresh, ground (arith, h, fresh))
        ]

  -- A token that the evidence carries, with the time it was issued at, is the one that the secret gives
  -- for this text and this approver, and its age is within the limit where there is one.
  abbrev pub IsSigned : Settings → (now : ℕ) → Text → Evidence → Type 0
  IsSigned c now t e =
      (token : Text) × (issued_at : ℤ) × (e.token ≡ some token)
      × (e.issued_at ≡ some issued_at)
      × (token
          ≡ issue_approval_token mac sha256 (approval_action_hash mac sha256 t) issued_at
              (or_text e.approver []) c.signing_secret)
      × ((ltb 0 c.max_approval_age_seconds
            && is_outside c.max_approval_age_seconds (age_of now issued_at))
          ≡ false)

  with_token-IsSigned :
      (c : Settings) (now : ℕ) (t : Text) (e : Evidence) (token : Option Text)
      (issued_at : Option ℤ)
      → e.token ≡ token
      → e.issued_at ≡ issued_at
      → is_verified (with_token mac sha256 c now t e token issued_at) ≡ true
      → IsSigned c now t e
  with_token-IsSigned c now t e none issued_at p q h = absurd (false≢true h)
  with_token-IsSigned c now t e (some token) none p q h = absurd (false≢true h)
  with_token-IsSigned c now t e (some token) (some issued_at) p q h =
      let (fresh, same) = is_verified-in_time c now t e token issued_at h in
      (token, issued_at, p, q, sym (eq_text→eq _ token (is_verified-compared _ token same)), fresh)

  verify_signature-IsSigned :
      (c : Settings) (now : ℕ) (t : Text) (e : Evidence)
      → is_verified (verify_signature mac sha256 c now t e) ≡ true
      → (has_text (some c.signing_secret) ≡ true) × IsSigned c now t e
  unfolding verify_signature
  verify_signature-IsSigned c now t e h = elim (Bool-cases (has_text (some c.signing_secret))) [
    | inl s ↦ (s, with_token-IsSigned c now t e e.token e.issued_at refl refl (sym (rw s refl) ∙ h))
    | inr s ↦ absurd (false≢true (sym (rw s refl) ∙ h))
  ]

  module _ (loads : Text → Option Value) (search : (name scan_text : Text) → Bool)
      (truncate : Text → Option ℤ) (is_one : Text → Bool) (c : Settings) where
    clear :
        (hits : List RuleHit)
        → (with_hits mac sha256 loads search truncate is_one c hits).decision ≡ some allow
        → is_empty hits ≡ true
    clear [] e = refl
    clear (h ∷ hits) e = elim (Bool-cases c.blocks) [
      | inl b ↦ absurd (not_block (sym (rw b refl) ∙ e))
      | inr b ↦ absurd (not_warn (sym (rw b refl) ∙ e))
    ]

    approved_hits-clear :
        (categories : List Text) (e : Evidence)
        → is_empty categories ≡ false
        → is_empty (approved_hits mac sha256 loads search truncate is_one c categories e) ≡ true
        → e.approved ≡ true
    approved_hits-clear categories e some_gated h = elim (Bool-cases e.approved) [
      | inl a ↦ a
      | inr a ↦ absurd (
          false≢true
            (sym some_gated ∙ sym (is_empty-map unapproved categories) ∙ sym (rw a refl) ∙ h))
    ]

    checked-clear :
        (categories : List Text) (e : Evidence) (check : Check)
        → is_empty categories ≡ false
        → decision_of (checked mac sha256 loads search truncate is_one c categories e check)
          ≡ some allow
        → (is_verified check ≡ true) × (e.approved ≡ true)
    checked-clear categories e verified some_gated h =
        (refl, approved_hits-clear categories e some_gated (clear _ h))
    checked-clear categories e (refused hit) some_gated h =
        absurd (false≢true (clear (hit ∷ map unapproved categories) h))
    checked-clear categories e raises some_gated h = absurd (ground (arith, h))

    gated-IsSigned :
        (now : ℕ) (t : Text) (categories : List Text) (e : Evidence)
        → c.require_signed_approval ≡ true
        → is_empty categories ≡ false
        → decision_of (gated mac sha256 loads search truncate is_one c now t categories e)
          ≡ some allow
        → (e.approved ≡ true) × (has_text (some c.signing_secret) ≡ true) × IsSigned c now t e
    gated-IsSigned now t categories e signs some_gated h =
        let (v, a) =
          checked-clear categories e
            (if c.require_signed_approval then verify_signature mac sha256 c now t e else verified)
            some_gated h in
        let (secret, signed) = verify_signature-IsSigned c now t e (sym (rw signs refl) ∙ v) in
        (a, secret, signed)

    with_evidence-IsSigned :
        (now : ℕ) (t : Text) (categories : List Text) (found : Option Evidence)
        → c.require_signed_approval ≡ true
        → is_empty categories ≡ false
        → decision_of
            (with_evidence mac sha256 loads search truncate is_one c now t categories found)
          ≡ some allow
        → (e : Evidence) × (found ≡ some e)
          × (e.approved ≡ true)
          × (has_text (some c.signing_secret) ≡ true)
          × IsSigned c now t e
    with_evidence-IsSigned now t categories none signs some_gated h = absurd (ground (arith, h))
    with_evidence-IsSigned now t categories (some e) signs some_gated h =
        let (approved, secret, signed) = gated-IsSigned now t categories e signs some_gated h in
        (e, refl, approved, secret, signed)

    on-detect :
        (now : ℕ) (t : Text) (metadata : Object)
        → c.enabled ≡ true
        → has_text (some t) ≡ true
        → is_empty (gated_categories_in mac sha256 loads search truncate is_one c t) ≡ false
        → detect mac sha256 loads search truncate is_one c now t metadata
          ≡ with_evidence mac sha256 loads search truncate is_one c now t
              (gated_categories_in mac sha256 loads search truncate is_one c t)
              (approval_evidence mac sha256 loads search truncate is_one metadata)
    unfolding detect
    on-detect now t metadata on t_some some_gated = rw (on, t_some, some_gated) refl

    -- No action passes on a word alone. Where the gate is enabled and requires signed approvals, a text
    -- with a gated category is allowed only if the evidence in the metadata says it is approved and has a
    -- token and a time of issue, a signing secret is configured, the token is the one that this secret
    -- gives for this very text, that time and the named approver, and the age is within the limit.
    pub detect-IsSigned :
        (now : ℕ) (t : Text) (metadata : Object) (r : DetectorResult)
        → c.enabled ≡ true
        → c.require_signed_approval ≡ true
        → has_text (some t) ≡ true
        → is_empty (gated_categories_in mac sha256 loads search truncate is_one c t) ≡ false
        → detect mac sha256 loads search truncate is_one c now t metadata ≡ some r
        → r.decision ≡ some allow
        → (e : Evidence) × (approval_evidence mac sha256 loads search truncate is_one metadata
            ≡ some e)
          × (e.approved ≡ true)
          × (has_text (some c.signing_secret) ≡ true)
          × IsSigned c now t e
    detect-IsSigned now t metadata r on signs t_some some_gated returned allowed =
        with_evidence-IsSigned now t
          (gated_categories_in mac sha256 loads search truncate is_one c t)
          (approval_evidence mac sha256 loads search truncate is_one metadata) signs some_gated
          (sym (ap decision_of (on-detect now t metadata on t_some some_gated))
            ∙ ap decision_of returned
            ∙ allowed)
