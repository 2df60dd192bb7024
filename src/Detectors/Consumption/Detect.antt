-- ===== src/Detectors/Consumption/Detect.antt =====
-- `UnboundedConsumptionDetector.detect` of detectors/unbounded_consumption.py.
use znyx_runtime.Prelude.{
  ℕ, ◌*◌, min, ℤ, pos, ltb_ℤ, Text, codes, not, ◌&&◌, leb, strip, take, Option, none, some, List,
  [], ◌∷◌, ◌++◌, length, if◌then◌else◌,
}
use znyx_runtime.Prelude.Dict
use znyx_runtime.Core.Models.{allow, block, warn}
use znyx_runtime.Policy.Value.{
  Value, null, boolean, integer, float, text, array, object, Object, empty, get, is_truthy,
}
use znyx_runtime.Detectors.Consumption.{
  Rule, iteration_cap_exceeded, tool_depth_exceeded, agent_loop_state_repeat, Settings, Session,
  Detector, Verdict, Usage, Reading, coerce_nonneg_int, coerce_nonneg_float, or_else, read, key,
  cleanup, account, touch, hit, budget_hits,
}

-- `isinstance(v, int) and not isinstance(v, bool)`
abbrev as_int : Option Value → Option ℤ
as_int none = none
as_int (some null) = none
as_int (some (boolean b)) = none
as_int (some (integer z)) = some z
as_int (some (float t)) = none
as_int (some (text t)) = none
as_int (some (array xs)) = none
as_int (some (object o)) = none

abbrev pub as_object : Option Value → Object
as_object none = empty
as_object (some null) = empty
as_object (some (boolean b)) = empty
as_object (some (integer z)) = empty
as_object (some (float t)) = empty
as_object (some (text t)) = empty
as_object (some (array xs)) = empty
as_object (some (object o)) = o

abbrev pub as_text : Option Value → Text
as_text none = []
as_text (some null) = []
as_text (some (boolean b)) = []
as_text (some (integer z)) = []
as_text (some (float t)) = []
as_text (some (text t)) = t
as_text (some (array xs)) = []
as_text (some (object o)) = []

abbrev pub or_stripped : Text → Text → Text
or_stripped [] t = strip t
or_stripped (c ∷ s) t = c ∷ s

abbrev capped : ℤ → Option ℤ → ℤ
capped cap none = cap
capped cap (some m) = if ltb_ℤ (pos 0) m && ltb_ℤ m cap then m else cap

abbrev iteration_hit : ℤ → Option ℤ → Option ℤ → List Rule
iteration_hit cap none caller_max = []
iteration_hit cap (some i) caller_max =
    hit (not (ltb_ℤ i (capped cap caller_max))) iteration_cap_exceeded

abbrev depth_hit : ℤ → Option ℤ → List Rule
depth_hit cap none = []
depth_hit cap (some d) = hit (ltb_ℤ cap d) tool_depth_exceeded

-- The caps on the reported steps: a value of the step goes before one of the metadata.
unfoldable pub depth_hits : Settings → (meta step : Object) → List Rule
unfolding hit
depth_hits c meta step =
    let field = λ (name : Text). as_int (or_else (get name step) (get name meta)) in
    iteration_hit c.max_iterations (field (codes "iteration")) (field (codes "max_iterations"))
    ++ depth_hit c.max_tool_depth (field (codes "tool_depth"))

abbrev pub with_states :
    Text → Session → Settings → Detector → Option (ℕ × Dict.Dict ℕ) → Option (List Rule × Detector)
with_states k s c d none = none
with_states k s c d (some (seen, states)) = some (
  hit (leb c.max_repeated_states seen) agent_loop_state_repeat,
  record d { sessions = Dict.insert k (record s { states = states }) d.sessions },
)

-- The loop detection, for a session that was just accounted; `none` where it raises.
unfoldable pub loop_hits :
    (sha256 : Text → Text)
    → Settings
    → (raw_state : Text) → Text
    → Session
    → Detector
    → Option (List Rule × Detector)
unfolding touch hit
loop_hits sha256 c [] k s d = some ([], d)
loop_hits sha256 c (b ∷ raw_state) k s d =
    with_states k s c d (touch c.max_tracked_states (take 16 (sha256 (b ∷ raw_state))) s.states)

unfoldable pub verdict : Settings → List Rule → Verdict
verdict c [] = record { decision = allow; risk_score = 0; rule_hits = [] }
verdict c (r ∷ rules) = record {
  decision = if c.blocks then block else warn;
  risk_score = min 100 (length (r ∷ rules) * 50);
  rule_hits = r ∷ rules;
}

abbrev pub concluded :
    Settings → List Rule → Option (List Rule × Detector) → Option (Verdict × Detector)
concluded c rules none = none
concluded c rules (some (loops, d)) = some (verdict c (rules ++ loops), d)

abbrev pub usage_of : Session → Usage
usage_of s = record { tokens = s.tokens; cost = s.cost; thinking = s.thinking }

abbrev usage_from : (tokens cost thinking : Option ℕ) → Option Usage
usage_from none cost thinking = none
usage_from (some tokens) none thinking = none
usage_from (some tokens) (some cost) none = none
usage_from (some tokens) (some cost) (some thinking) =
    some (record { tokens = tokens; cost = cost; thinking = thinking })

module _ (sha256 : Text → Text) (reads : Value → Reading) (c : Settings) where
  -- The usage that the metadata reports; `none` where reading it raises.
  unfoldable pub reported : Object → Option Usage
  unfolding coerce_nonneg_int coerce_nonneg_float
  reported meta =
      let field = λ (a b : Text). read reads (or_else (get a meta) (get b meta)) in
      usage_from (coerce_nonneg_int (field (codes "tokens") (codes "total_tokens")))
        (coerce_nonneg_float (read reads (get (codes "cost_usd") meta)))
        (coerce_nonneg_int (field (codes "thinking_tokens") (codes "reasoning_tokens")))

  -- With a key, and the request's accounting done.
  abbrev pub keyed : Object → Text → Text → Usage → Session × Detector → Option (Verdict × Detector)
  keyed meta t k u (s, d) =
      let step = as_object (get (codes "agent_step") meta) in
      let raw = or_stripped (strip (as_text (get (codes "state") step))) t in
      concluded c (budget_hits c u (usage_of s) ++ depth_hits c meta step)
        (loop_hits sha256 c (if is_truthy step then raw else []) k s d)

  -- Without a key, only the request itself is judged.
  abbrev unkeyed : Object → Usage → Detector → Option (Verdict × Detector)
  unkeyed meta u d =
      concluded c
        (budget_hits c u u ++ depth_hits c meta (as_object (get (codes "agent_step") meta)))
        (some ([], d))

  abbrev pub judged :
      (now : ℕ)
      → Object
      → Text
      → Option Usage
      → Option Text
      → Detector
      → Option (Verdict × Detector)
  judged now meta t none k d = none
  judged now meta t (some u) none d = unkeyed meta u d
  judged now meta t (some u) (some k) d = keyed meta t k u (account c now k u d)

  -- `detect`, with the metadata as the dict it is or the empty one; `none` where it raises.
  unfoldable pub detect :
      (now : ℕ) (text tenant_id app_id : Text) (session_id user_id : Option Text) (meta : Object)
      → Detector
      → Option (Verdict × Detector)
  unfolding reported budget_hits depth_hits loop_hits account cleanup key verdict
  detect now t tenant_id app_id session_id user_id meta d =
      if not c.enabled
      then some (record { decision = allow; risk_score = 0; rule_hits = [] }, d)
      else judged now meta t (reported meta) (key tenant_id app_id session_id user_id)
          (cleanup c now d)
