-- ===== src/Detectors/ApprovalGate.antt =====
-- detectors/human_approval_gate.py. `mac` is HMAC-SHA256 of a message under a secret and `sha256` the
-- hash of a text, both as hex digits; `now` is the clock in seconds. A number given as a float is
-- read by `truncate` (`int`, with `none` where it raises) and `is_one`. A call that raises answers `none`.
pub mod Signed
pub mod Agreement
use znyx_runtime.Prelude.{
  ℕ, zero, suc, ◌+◌, ◌-◌, ltb, leb, ◌==◌, ℤ, pos, negsuc, ltb_ℤ, Text, codes, Bool, true, false,
  not, ◌&&◌, ◌||◌, any, all, map, eq_text, mem_text, has_text, is_space, strip, lower, or_text,
  Option, none, some, List, [], ◌∷◌, ◌++◌, if◌then◌else◌,
}
use znyx_runtime.Core.Models.{
  Decision, allow, block, warn, high, medium, RuleHit, DetectorResult, plain_result,
}
use znyx_runtime.Core.Labels.{calculate_risk_score}
use znyx_runtime.Policy.Value.{
  Value, null, boolean, integer, float, text, array, object, Object, empty, get,
}
use znyx_runtime.Detectors.Metadata.{
  name_of, or_else, with_default, first_dict, decimal, is_empty, hit_if,
}
use znyx_runtime.Detectors.ExcessiveAgency.{Pattern, compiled_actions, build_action_scan_text}

abbrev pub approval_blocks : List Text
approval_blocks = codes "approval" ∷ codes "human_approval" ∷ []

abbrev pub approved_flags : List Text
approved_flags = codes "human_approved" ∷ codes "approved" ∷ codes "is_approved" ∷ []

abbrev pub approver_keys : List Text
approver_keys =
    codes "approved_by" ∷ codes "approver" ∷ codes "approver_id" ∷ codes "approver_email" ∷ []

abbrev pub token_keys : List Text
token_keys = codes "token" ∷ codes "signature" ∷ codes "approval_token" ∷ codes "hmac" ∷ []

abbrev pub issued_at_keys : List Text
issued_at_keys = codes "issued_at" ∷ codes "approved_at" ∷ codes "timestamp" ∷ codes "iat" ∷ []

-- `" ".join(text.split())` of a stripped text, after a space or not.
abbrev squeezed : (after : Bool) → Text → Text
squeezed after [] = []
squeezed after (c ∷ t) =
    let in_run = squeezed true t in
    let outside = squeezed false t in
    if is_space c then in_run else if after then b' ' ∷ c ∷ outside else c ∷ outside

-- `str(z)`
abbrev shown : ℤ → Text
shown (pos n) = decimal n
shown (negsuc n) = b'-' ∷ decimal (suc n)

-- `_first_str`
unfoldable pub first_str : Object → (keys : List Text) → Option Text
first_str source [] = none
first_str source (k ∷ ks) = or_else (name_of (get k source)) (first_str source ks)

pub record Settings : Type 0 where
  pub enabled : Bool
  pub blocks : Bool
  pub gated_categories : List Text
  pub require_approver_identity : Bool
  pub require_signed_approval : Bool
  pub signing_secret : Text
  pub max_approval_age_seconds : ℕ

-- The evidence, without the approval id, which nothing reads.
pub record Evidence : Type 0 where
  pub approved : Bool
  pub approver : Option Text
  pub token : Option Text
  pub issued_at : Option ℤ

-- `now - issued_at`
unfoldable pub age_of : (now : ℕ) → (issued_at : ℤ) → ℤ
age_of now (pos n) = if leb n now then pos (now - n) else negsuc (n - now - 1)
age_of now (negsuc n) = pos (now + suc n)

unfoldable pub is_outside : (max_age : ℕ) → (age : ℤ) → Bool
is_outside max_age age = ltb_ℤ (pos max_age) age || ltb_ℤ age (negsuc 59)

pub data Check : Type 0 where
  verified : Check
  refused : RuleHit → Check
  raises : Check

abbrev refused_with : (rule : Text) (message : Text) → Check
refused_with rule message = refused (record { rule_id = rule; severity = high; message = message })

-- The hit of one category when the action is not approved.
unfoldable pub unapproved : (name : Text) → RuleHit
unapproved name = record {
  rule_id = codes "human_approval_gate.unapproved_" ++ name;
  severity = high;
  message =
      map (λ c. if c == b'_' then b' ' else c) name
      ++ codes " requires human approval and none was supplied";
}

unfoldable pub anonymous_approval : RuleHit
anonymous_approval = record {
  rule_id = codes "human_approval_gate.anonymous_approval";
  severity = medium;
  message =
      codes "Approval carries no approver identity; an unattributable approval cannot be audited";
}

module _ (mac : (secret message : Text) → Text) (sha256 : Text → Text) where
  unfoldable pub approval_action_hash : Text → Text
  approval_action_hash t = sha256 (squeezed false (strip t))

  unfoldable pub issue_approval_token :
      (action_hash : Text) (issued_at : ℤ) (approver secret : Text) → Text
  issue_approval_token action_hash issued_at approver secret =
      mac secret (action_hash ++ (b'.' ∷ shown issued_at ++ (b'.' ∷ approver)))

  -- `hmac.compare_digest` of two texts: it raises on one that is not ASCII, and `expected` is hex digits.
  unfoldable pub compared : (expected token : Text) → Check
  compared expected token =
      if all (λ c. ltb c 128) token
      then if eq_text expected token
        then verified
        else refused_with (codes "human_approval_gate.invalid_approval_signature") (
            codes "Approval signature does not verify for this action and approver; "
            ++ codes "it is forged, or issued for a different action")
      else raises

  abbrev pub in_time :
      Settings → (now : ℕ) → Text → Evidence → (token : Text) (issued_at : ℤ) → Check
  in_time c now t e token issued_at =
      if ltb 0 c.max_approval_age_seconds
        && is_outside c.max_approval_age_seconds (age_of now issued_at)
      then refused_with (codes "human_approval_gate.expired_approval") (
          codes "Approval is "
          ++ (shown (age_of now issued_at)
              ++ (codes "s old, outside the "
                  ++ (decimal c.max_approval_age_seconds ++ codes "s window"))))
      else compared
          (issue_approval_token (approval_action_hash t) issued_at (or_text e.approver [])
            c.signing_secret)
          token

  abbrev unsigned_approval : Check
  unsigned_approval =
      refused_with (codes "human_approval_gate.unsigned_approval")
        (codes "Approval carries no signed token bound to this action")

  abbrev pub with_token : Settings → (now : ℕ) → Text → Evidence → Option Text → Option ℤ → Check
  with_token c now t e none issued_at = unsigned_approval
  with_token c now t e (some token) none = unsigned_approval
  with_token c now t e (some token) (some issued_at) = in_time c now t e token issued_at

  -- `_verify_signature`
  unfoldable pub verify_signature : Settings → (now : ℕ) → Text → Evidence → Check
  unfolding compared is_outside age_of approval_action_hash issue_approval_token
  verify_signature c now t e =
      if has_text (some c.signing_secret)
      then with_token c now t e e.token e.issued_at
      else refused_with (codes "human_approval_gate.approval_signing_unconfigured") (
          codes "Signed approval is required but no signing secret is configured; "
          ++ codes "no approval can be verified")

  module _ (loads : Text → Option Value) (search : (name scan_text : Text) → Bool)
      (truncate : Text → Option ℤ) (is_one : Text → Bool) where
    -- `_truthy`
    unfoldable pub truthy : Option Value → Bool
    truthy none = false
    truthy (some null) = false
    truthy (some (boolean b)) = b
    truthy (some (integer (pos n))) = n == 1
    truthy (some (integer (negsuc n))) = false
    truthy (some (float f)) = is_one f
    truthy (some (text t)) =
        mem_text (lower (strip t))
          (codes "true" ∷ codes "yes" ∷ codes "y" ∷ codes "1" ∷ codes "approved" ∷ [])
    truthy (some (array xs)) = false
    truthy (some (object o)) = false

    -- The number under a key, read as `int`: none, or one that raises, or its value.
    abbrev number : Option Value → Option (Option ℤ)
    number none = none
    number (some null) = none
    number (some (boolean b)) = none
    number (some (integer z)) = some (some z)
    number (some (float f)) = some (truncate f)
    number (some (text t)) = none
    number (some (array xs)) = none
    number (some (object o)) = none

    abbrev first_number : (keys : List Text) → Object → Option (Option ℤ)
    first_number [] o = none
    first_number (k ∷ ks) o = or_else (number (get k o)) (first_number ks o)

    abbrev flagged : Object → Bool
    flagged o = any (λ f. truthy (get f o)) approved_flags

    abbrev issued : Option (Option ℤ) → Evidence → Option Evidence
    issued none e = some e
    issued (some none) e = none
    issued (some (some z)) e = some (record e { issued_at = some z })

    abbrev evidence_in : (approval metadata : Object) → Option Evidence
    evidence_in approval metadata =
        issued
          (or_else (first_number issued_at_keys approval) (first_number issued_at_keys metadata))
          (record {
            approved = flagged approval || flagged metadata;
            approver =
                or_else (first_str approval approver_keys) (first_str metadata approver_keys);
            token = or_else (first_str approval token_keys) (first_str metadata token_keys);
            issued_at = none;
          })

    -- `_approval_evidence` of a dict.
    unfoldable pub approval_evidence : Object → Option Evidence
    unfolding truthy first_str
    approval_evidence metadata =
        evidence_in (with_default (first_dict approval_blocks metadata) empty) metadata

    abbrev pub matching : List Text → List Pattern → (scan_text : Text) → List Text
    matching gated_names [] scan_text = []
    matching gated_names (p ∷ ps) scan_text =
        let rest = matching gated_names ps scan_text in
        if mem_text p.name gated_names && search p.name scan_text then p.name ∷ rest else rest

    -- `_gated_categories_in`
    unfoldable pub gated_categories_in : Settings → Text → List Text
    unfolding build_action_scan_text
    gated_categories_in c t =
        matching c.gated_categories compiled_actions (build_action_scan_text loads t)

    abbrev pub with_hits : Settings → List RuleHit → DetectorResult
    with_hits c [] = plain_result (some allow) 0
    with_hits c (h ∷ hits) = record (plain_result (some warn) (calculate_risk_score (h ∷ hits))) {
      rule_hits = h ∷ hits;
      decision = some (if c.blocks then block else warn);
    }

    abbrev pub approved_hits : Settings → (categories : List Text) → Evidence → List RuleHit
    approved_hits c categories e =
        if e.approved
        then hit_if (c.require_approver_identity && not (has_text e.approver)) anonymous_approval
        else map unapproved categories

    abbrev pub checked :
        Settings → (categories : List Text) → Evidence → Check → Option DetectorResult
    checked c categories e verified = some (with_hits c (approved_hits c categories e))
    checked c categories e (refused h) = some (with_hits c (h ∷ map unapproved categories))
    checked c categories e raises = none

    abbrev pub gated :
        Settings → (now : ℕ) → Text → (categories : List Text) → Evidence → Option DetectorResult
    gated c now t categories e =
        checked c categories e
          (if c.require_signed_approval then verify_signature c now t e else verified)

    abbrev pub with_evidence :
        Settings → (now : ℕ) → Text → List Text → Option Evidence → Option DetectorResult
    with_evidence c now t categories none = none
    with_evidence c now t categories (some e) = gated c now t categories e

    -- `detect`, without its two messages to the developer and the user.
    unfoldable pub detect :
        Settings → (now : ℕ) → Text → (metadata : Object) → Option DetectorResult
    unfolding gated_categories_in approval_evidence verify_signature unapproved anonymous_approval
        calculate_risk_score
    detect c now t metadata =
        if c.enabled && (has_text (some t) && not (is_empty (gated_categories_in c t)))
        then with_evidence c now t (gated_categories_in c t) (approval_evidence metadata)
        else some (plain_result (some allow) 0)
