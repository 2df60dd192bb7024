-- ===== src/Detectors/ApprovalGate/Agreement.antt =====
-- detectors/human_approval_gate.py and detectors/excessive_agency.py on the same text.
use znyx_runtime.Prelude.{
  ℤ, Text, Bool, true, ◌||◌, any, eq_text, eq_text_refl, eq_text→eq, mem_text, has_text, Option,
  none, some, List, [], ◌∷◌, ◌++◌, if◌then◌else◌, ◌≡◌, refl, sym, subst, arith, Bool-cases,
  false≢true, inl, inr,
}
use znyx_runtime.Core.Models.{RuleHit}
use znyx_runtime.Policy.Value.{Value}
use znyx_runtime.Detectors.ExcessiveAgency as Agency
use znyx_runtime.Detectors.ExcessiveAgency.{
  Pattern, compiled_actions, compiled_scope, rule_of, hit_once, pattern_hit, scan, with_extra,
  hits_in, build_action_scan_text,
}
use znyx_runtime.Detectors.ApprovalGate.{matching, gated_categories_in}
use znyx_runtime.Detectors.ApprovalGate

-- Whether a rule has hit.
abbrev pub has_rule : Text → List RuleHit → Bool
has_rule rule hits = any (λ (g : RuleHit). eq_text g.rule_id rule) hits

has_rule-append :
    (rule : Text) (a b : List RuleHit)
    → has_rule rule (a ++ b) ≡ (has_rule rule a || has_rule rule b)
has_rule-append rule [] b = refl
has_rule-append rule (g ∷ a) b = ground (arith, has_rule-append rule a b)

has_rule-snoc : (h : RuleHit) (hits : List RuleHit) → has_rule h.rule_id (hits ++ h ∷ []) ≡ true
has_rule-snoc h hits =
    ground (arith, has_rule-append h.rule_id hits (h ∷ []), eq_text_refl h.rule_id)

hit_once_keeps :
    (rule : Text) (h : RuleHit) (hits : List RuleHit)
    → has_rule rule hits ≡ true
    → has_rule rule (hit_once h hits) ≡ true
hit_once_keeps rule h hits e = ground (arith, e, has_rule-append rule hits (h ∷ []))

hit_once_hits : (h : RuleHit) (hits : List RuleHit) → has_rule h.rule_id (hit_once h hits) ≡ true
hit_once_hits h hits = ground (arith, has_rule-snoc h hits)

rule_of_eq :
    (n m : Text) (hits : List RuleHit)
    → eq_text n m ≡ true
    → has_rule (rule_of m) hits ≡ true
    → has_rule (rule_of n) hits ≡ true
rule_of_eq n m hits e h = subst (λ k. has_rule (rule_of k) hits ≡ true) (sym (eq_text→eq n m e)) h

module _ (loads : Text → Option Value) (search : (name scan_text : Text) → Bool) where
  scan_step :
      (rule : Text) (p : Pattern) (scan_text : Text) (hits : List RuleHit)
      → has_rule rule hits ≡ true
      → has_rule rule (if search p.name scan_text then hit_once (pattern_hit p) hits else hits)
        ≡ true
  scan_step rule p scan_text hits e = elim (Bool-cases (search p.name scan_text)) [
    | inl s ↦ rw s (hit_once_keeps rule (pattern_hit p) hits e)
    | inr s ↦ rw s e
  ]

  keeps-scan :
      (rule : Text) (ps : List Pattern) (scan_text : Text) (hits : List RuleHit)
      → has_rule rule hits ≡ true
      → has_rule rule (scan loads search ps scan_text hits) ≡ true
  unfolding scan
  keeps-scan rule [] scan_text hits e = e
  keeps-scan rule (p ∷ ps) scan_text hits e =
      keeps-scan rule ps scan_text _ (scan_step rule p scan_text hits e)

  extra_keeps :
      (rule : Text) (extra : Option (Text → Bool)) (scan_text : Text) (hits : List RuleHit)
      → has_rule rule hits ≡ true
      → has_rule rule (with_extra loads search extra scan_text hits) ≡ true
  extra_keeps rule none scan_text hits e = e
  extra_keeps rule (some extra) scan_text hits e = elim (Bool-cases (extra scan_text)) [
    | inl s ↦ rw s (hit_once_keeps rule _ hits e)
    | inr s ↦ rw s e
  ]

  with_hits_rules :
      (c : Agency.Settings) (hits : List RuleHit)
      → (Agency.with_hits loads search c hits).rule_hits ≡ hits
  with_hits_rules c [] = refl
  with_hits_rules c (h ∷ hits) = refl

  module _ (mac : (secret message : Text) → Text) (sha256 : Text → Text)
      (truncate : Text → Option ℤ) (is_one : Text → Bool) where
    matching-scan :
        (gated_names : List Text) (ps : List Pattern) (scan_text name : Text) (hits : List RuleHit)
        → mem_text name (matching mac sha256 loads search truncate is_one gated_names ps scan_text)
          ≡ true
        → has_rule (rule_of name) (scan loads search ps scan_text hits) ≡ true
    unfolding scan mem_text
    matching-scan gated_names [] scan_text name hits m = absurd (false≢true m)
    matching-scan gated_names (p ∷ ps) scan_text name hits m =
        elim (Bool-cases (search p.name scan_text)) [
          | inl s ↦ elim (Bool-cases (eq_text name p.name)) [
            | inl same ↦ rw s (
                keeps-scan (rule_of name) ps scan_text _
                  (rule_of_eq name p.name _ same (hit_once_hits (pattern_hit p) hits)))
            | inr other ↦
                matching-scan gated_names ps scan_text name _ (ground (arith, m, s, other))
          ]
          | inr s ↦ matching-scan gated_names ps scan_text name _ (ground (arith, m, s))
        ]

    -- The two detectors agree on what an action is: a category that the approval gate finds in a text is
    -- among the rules that the excessive-agency detector reports for it, where that one is enabled and
    -- the text is not empty.
    pub gated_categories_in-detect :
        (gate : ApprovalGate.Settings) (agency : Agency.Settings) (t name : Text)
        → agency.enabled ≡ true
        → has_text (some t) ≡ true
        → mem_text name (gated_categories_in mac sha256 loads search truncate is_one gate t) ≡ true
        → has_rule (rule_of name) (Agency.detect loads search agency t).rule_hits ≡ true
    unfolding gated_categories_in Agency.detect hits_in
    gated_categories_in-detect gate agency t name on t_some m =
        let scan_text = build_action_scan_text loads t in
        rw (on, t_some, with_hits_rules agency (hits_in loads search agency scan_text))
          (extra_keeps (rule_of name) agency.extra scan_text _ (
            keeps-scan (rule_of name) compiled_scope scan_text _
              (matching-scan gate.gated_categories compiled_actions scan_text name [] m)))
