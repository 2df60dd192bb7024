-- ===== src/Witnesses/Gates.antt =====
-- The theorems on the scorecard gate, its stamps and its enforcement, at concrete inputs.
use znyx_runtime.Witnesses.Base64.{b64encode, b64decode}
use znyx_runtime.Prelude.{
  ℕ, pos, Text, codes, eq_text, Bool, true, false, ◌&&◌, Option, none, some, [], ◌∷◌, ◌≡◌, refl,
}
use znyx_runtime.Engine.Config.{GateStamp, StampFields, stamp}
use znyx_runtime.Engine.ScorecardGate.{Scorecard, number, count, instant}
use znyx_runtime.Engine.ScorecardStamp.{sign_stamp, verify_stamp}
use znyx_runtime.Engine.ScorecardStamp.Roundtrip.{verify_stamp-sign_stamp}
use znyx_runtime.Engine.Enforcement.{verify_and_apply_scorecard_gate}
use znyx_runtime.Engine.Enforcement.FailClosed.{
  is_enforcing, signed_authority, enforcing-verify_and_apply,
}
use znyx_runtime.Witnesses.Samples.{blocked_result, config}

abbrev good : Scorecard
good = record {
  f1 = number (pos 9000);
  auroc = number (pos 9200);
  ece = number (pos 300);
  fp_rate = number (pos 100);
  p95_latency_ms = number (pos 2_000_000);
  per_language = (codes "en", count 400) ∷ [];
  validated_at = instant 1000;
}

abbrev no_iso : Text → Option ℕ
no_iso t = none

abbrev always : Text → GateStamp → Text → Bool
always detector_id gate key = true

-- A key pair that signs everything with the same three bytes.
abbrev sign : ℕ → Text → Text
sign k message = 255 ∷ 0 ∷ k ∷ []

abbrev verify : ℕ → Text → Text → Bool
verify k sig message = eq_text sig (sign k message)

verify_stamp-sign_stamp_example :
    (s : StampFields) × (sign_stamp
        (λ pem. some 17)
        sign
        b64encode
        (codes "pii")
        true
        (codes "m@1")
        (codes "2026")
        (codes "pem")
      ≡ some s)
    × (verify_stamp (λ pem. some 17) verify b64decode (codes "pii") (stamp s) (codes "pub") ≡ true)
unfolding eq_text
verify_stamp-sign_stamp_example =
    verify_stamp-sign_stamp (λ pem. some 17) (λ pem. some 17) sign verify b64encode b64decode
      (codes "pem") (codes "pub") 17 17 refl refl (λ m. refl) (λ m. refl) (λ m. refl) (codes "pii")
      true (codes "m@1") (codes "2026")

enforcing-verify_and_apply_example :
    is_enforcing
      (verify_and_apply_scorecard_gate always
        (some (codes "key"))
        false
        (codes "pii")
        config
        blocked_result).decision
    ≡ (is_enforcing blocked_result.decision
        && signed_authority always (some (codes "key")) (codes "pii") config config.scorecard_gate)
enforcing-verify_and_apply_example =
    enforcing-verify_and_apply always (some (codes "key")) (codes "pii") config blocked_result
