-- ===== src/Witnesses/Approvals.antt =====
-- The theorems on approvals, at concrete inputs.
use znyx_runtime.Prelude.{
  ℕ, pos, Text, codes, true, false, eq_text, has_text, none, some, [], ◌∷◌, ◌++◌, ◌≡◌, refl,
}
use znyx_runtime.Core.Models.{allow, plain_result}
use znyx_runtime.Policy.Value.{Object, boolean, integer, text, object, empty, entry}
use znyx_runtime.Detectors.ApprovalGate.{Settings, Evidence, approval_evidence}
use znyx_runtime.Detectors.ExcessiveAgency as Agency
use znyx_runtime.Detectors.ExcessiveAgency.{rule_of}
use znyx_runtime.Detectors.ApprovalGate.Agreement.{has_rule, gated_categories_in-detect}
use znyx_runtime.Detectors.ApprovalGate.Signed.{IsSigned, detect-IsSigned}

abbrev mac : Text → Text → Text
mac secret message = secret ++ message

abbrev settings : Settings
settings = record {
  enabled = true;
  blocks = true;
  gated_categories = codes "code_execution" ∷ codes "destructive_action" ∷ [];
  require_approver_identity = true;
  require_signed_approval = true;
  signing_secret = codes "k";
  max_approval_age_seconds = 900;
}

abbrev approval : Object
approval = entry (codes "approved") (boolean true) (
    entry (codes "approver") (text (codes "ann")) (
      entry (codes "token") (text (codes "krm x.1000.ann"))
        (entry (codes "iat") (integer (pos 1000)) empty)))

abbrev metadata : Object
metadata = entry (codes "approval") (object approval) empty

detect-IsSigned_example :
    (e : Evidence) × (approval_evidence mac
        (λ t. t)
        (λ t. none)
        (λ name t. eq_text name (codes "destructive_action"))
        (λ t. none)
        (λ t. false)
        metadata
      ≡ some e)
    × (e.approved ≡ true)
    × (has_text (some settings.signing_secret) ≡ true)
    × IsSigned mac (λ t. t) settings 1060 (codes "rm  x") e
unfolding znyx_runtime.Detectors.ApprovalGate.detect znyx_runtime.Policy.Value.get
    znyx_runtime.Prelude.eq_text znyx_runtime.Prelude.mem_text znyx_runtime.Prelude.strip
detect-IsSigned_example =
    detect-IsSigned mac (λ t. t) (λ t. none) (λ name t. eq_text name (codes "destructive_action"))
      (λ t. none) (λ t. false) settings 1060 (codes "rm  x") metadata (plain_result (some allow) 0)
      refl refl refl refl refl refl

abbrev agency_settings : Agency.Settings
agency_settings = record {
  enabled = true;
  blocks = true;
  block_threshold = 50;
  warn_threshold = 30;
  extra = none;
}

gated_categories_in-detect_example :
    has_rule
      (rule_of (codes "destructive_action"))
      (Agency.detect
        (λ t. none)
        (λ name t. eq_text name (codes "destructive_action"))
        agency_settings
        (codes "rm  x")).rule_hits
    ≡ true
unfolding znyx_runtime.Detectors.ApprovalGate.gated_categories_in znyx_runtime.Prelude.eq_text
    znyx_runtime.Prelude.mem_text
gated_categories_in-detect_example =
    gated_categories_in-detect (λ t. none) (λ name t. eq_text name (codes "destructive_action")) mac
      (λ t. t) (λ t. none) (λ t. false) settings agency_settings (codes "rm  x")
      (codes "destructive_action") refl refl refl
