-- ===== src/Detectors/ExcessiveAgency.antt =====
-- detectors/excessive_agency.py: its patterns, the text that they are matched against, and detect. The
-- regular expressions are not modelled: `search name` is the search of the one of that name.
-- `loads` is `json.loads`, with `none` where it raises one of the three exceptions caught.
use znyx_runtime.Prelude.{
  ℕ, suc, ltb, leb, ◌==◌, any, eq_text, ◌&&◌, Text, codes, Bool, true, false, ◌||◌, has_text,
  Option, none, some, List, [], ◌∷◌, ◌++◌, if◌then◌else◌,
}
use znyx_runtime.Core.Models.{
  Decision, allow, block, warn, Severity, high, medium, RuleHit, DetectorResult, plain_result,
}
use znyx_runtime.Core.Labels.{calculate_risk_score}
use znyx_runtime.Policy.Value.{
  Value, null, boolean, integer, float, text, array, object, Items, nil, item, Object, empty, entry,
  get,
}

-- A compiled pattern, by its name in place of its regular expression.
pub record Pattern : Type 0 where
  pub severity : Severity
  pub name : Text
  pub message : Text

-- `_COMPILED_ACTIONS`
abbrev pub compiled_actions : List Pattern
compiled_actions =
    record {
      severity = high;
      name = codes "destructive_action";
      message = codes "destructive/irreversible operation";
    }
    ∷ record {
      severity = high;
      name = codes "external_side_effect";
      message = codes "financial or external side-effect";
    }
    ∷ record {
      severity = high;
      name = codes "privilege_escalation";
      message = codes "privilege / scope escalation";
    }
    ∷ record {
      severity = high;
      name = codes "code_execution";
      message = codes "raw code/shell execution";
    }
    ∷ record {
      severity = medium;
      name = codes "mutating_action";
      message = codes "state-mutating operation";
    }
    ∷ []

-- `_COMPILED_SCOPE`
abbrev pub compiled_scope : List Pattern
compiled_scope =
    record {
      severity = medium;
      name = codes "broad_scope";
      message = codes "broad blast radius / scope";
    }
    ∷ record {
      severity = medium;
      name = codes "wildcard_scope";
      message = codes "wildcard (*) target";
    }
    ∷ []

abbrev pub action_fields : List Text
action_fields =
    codes "action"
    ∷ codes "tool"
    ∷ codes "tool_name"
    ∷ codes "name"
    ∷ codes "operation"
    ∷ codes "op"
    ∷ codes "command"
    ∷ codes "method"
    ∷ codes "function"
    ∷ []

abbrev pub max_plan_depth : ℕ
max_plan_depth = 40

abbrev string_under : Option Value → List Text → List Text
string_under none ts = ts
string_under (some null) ts = ts
string_under (some (boolean b)) ts = ts
string_under (some (integer z)) ts = ts
string_under (some (float t)) ts = ts
string_under (some (text t)) ts = t ∷ ts
string_under (some (array xs)) ts = ts
string_under (some (object o)) ts = ts

abbrev strings_in : List Text → Object → List Text
strings_in [] o = []
strings_in (f ∷ fs) o = string_under (get f o) (strings_in fs o)

unfoldable mutual
  pub walk : Value → (depth : ℕ) → List Text
  walk null depth = []
  walk (boolean b) depth = []
  walk (integer z) depth = []
  walk (float t) depth = []
  walk (text t) depth = []
  walk (array xs) depth =
      let below = walk_items xs (suc depth) in if ltb max_plan_depth depth then [] else below
  walk (object o) depth =
      let below = walk_values o (suc depth) in
      if ltb max_plan_depth depth then [] else strings_in action_fields o ++ below

  pub walk_items : Items → (depth : ℕ) → List Text
  walk_items nil depth = []
  walk_items (item v xs) depth = walk v depth ++ walk_items xs depth

  pub walk_values : Object → (depth : ℕ) → List Text
  walk_values empty depth = []
  walk_values (entry k v o) depth = walk v depth ++ walk_values o depth

unfoldable pub extract_action_strings : Value → List Text
unfolding walk
extract_action_strings plan = walk plan 0

-- `re.sub(r'[_\-]+', ' ', text)`, after a separator or not.
abbrev separated : (after : Bool) → Text → Text
separated after [] = []
separated after (c ∷ t) =
    let in_run = separated true t in
    let outside = separated false t in
    if c == b'_' || c == b'-' then if after then in_run else b' ' ∷ in_run else c ∷ outside

unfoldable pub normalize_separators : Text → Text
normalize_separators t = separated false t

abbrev with_line : Text → Text → Text
with_line h [] = h
with_line h (c ∷ rest) = h ++ (b'\n' ∷ c ∷ rest)

-- `"\n".join(h for h in haystacks if h)`
abbrev lines : List Text → Text
lines [] = []
lines (h ∷ hs) = let rest = lines hs in if has_text (some h) then with_line h rest else rest

module _ (loads : Text → Option Value) where
  abbrev haystacks : Option Value → Text → List Text
  haystacks none t = t ∷ []
  haystacks (some parsed) t = t ∷ extract_action_strings parsed

  unfoldable pub build_action_scan_text : Text → Text
  unfolding extract_action_strings normalize_separators
  build_action_scan_text t =
      let raw = lines (haystacks (loads t) t) in raw ++ (b'\n' ∷ normalize_separators raw)

-- The settings of the detector. The two thresholds are whole numbers, as the score is; `extra` is the
-- search of the pattern made of `high_risk_actions`, where there are any.
pub record Settings : Type 0 where
  pub enabled : Bool
  pub blocks : Bool
  pub block_threshold : ℕ
  pub warn_threshold : ℕ
  pub extra : Option (Text → Bool)

abbrev pub rule_of : Text → Text
rule_of name = codes "excessive_agency." ++ name

-- `if rid not in seen`, with the hits so far in order; every rule that is seen has its hit.
abbrev pub hit_once : RuleHit → List RuleHit → List RuleHit
hit_once h hits =
    if any (λ (g : RuleHit). eq_text g.rule_id h.rule_id) hits then hits else hits ++ h ∷ []

abbrev pub pattern_hit : Pattern → RuleHit
pattern_hit p = record {
  rule_id = rule_of p.name;
  severity = p.severity;
  message = codes "Excessive agency: " ++ p.message;
}

abbrev org_hit : RuleHit
org_hit = record {
  rule_id = rule_of (codes "org_high_risk_action");
  severity = high;
  message = codes "Excessive agency: org-defined high-risk action";
}

module _ (loads : Text → Option Value) (search : (name scan_text : Text) → Bool) where
  -- The loop over the patterns of one list.
  unfoldable pub scan : List Pattern → (scan_text : Text) → List RuleHit → List RuleHit
  scan [] scan_text hits = hits
  scan (p ∷ ps) scan_text hits =
      scan ps scan_text (if search p.name scan_text then hit_once (pattern_hit p) hits else hits)

  abbrev pub with_extra : Option (Text → Bool) → (scan_text : Text) → List RuleHit → List RuleHit
  with_extra none scan_text hits = hits
  with_extra (some extra) scan_text hits = if extra scan_text then hit_once org_hit hits else hits

  unfoldable pub hits_in : Settings → (scan_text : Text) → List RuleHit
  unfolding scan
  hits_in c scan_text =
      with_extra c.extra scan_text
        (scan compiled_scope scan_text (scan compiled_actions scan_text []))

  abbrev pub decided : Settings → (score : ℕ) → Decision
  decided c score =
      if c.blocks && leb c.block_threshold score
      then block
      else if leb c.warn_threshold score
      then warn
      else allow

  abbrev pub with_hits : Settings → List RuleHit → DetectorResult
  with_hits c [] = plain_result (some allow) 0
  with_hits c (h ∷ hits) =
      record (plain_result (some (decided c (calculate_risk_score (h ∷ hits))))
        (calculate_risk_score (h ∷ hits))) { rule_hits = h ∷ hits }

  -- `detect`, without its messages to the developer and the user.
  unfoldable pub detect : Settings → Text → DetectorResult
  unfolding build_action_scan_text hits_in calculate_risk_score
  detect c t =
      if c.enabled && has_text (some t)
      then with_hits c (hits_in c (build_action_scan_text loads t))
      else plain_result (some allow) 0
