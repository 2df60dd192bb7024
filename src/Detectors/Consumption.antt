-- ===== src/Detectors/Consumption.antt =====
-- packages/znyx-core/src/znyx_core/detectors/unbounded_consumption.py. A float is a number of millionths
-- (`reads` is `float(v)`), a ratio bound a number of hundredths, a time a number of milliseconds. The messages are left out: a
-- rule hit is its rule. The lock is left out: each section that holds it runs from start to end.
pub mod Detect
pub mod Budgets
pub mod Loops
pub mod Verdicts
use znyx_runtime.Prelude.{
  ℕ, zero, suc, ◌+◌, ◌-◌, ◌*◌, ◌/◌, min, ℤ, pos, negsuc, Text, codes, Bool, true, false, not, ◌&&◌,
  ltb, leb, ◌==◌, eq_text, strip, has_text, take, Option, none, some, List, [], ◌∷◌, ◌++◌, length,
  if◌then◌else◌,
}
use znyx_runtime.Prelude.Dict
use znyx_runtime.Core.Models.{Decision, allow, block, warn}
use znyx_runtime.Inference.Cache.{move_to_end}
use znyx_runtime.Policy.Value.{
  Value, null, boolean, integer, float, text, array, object, Object, empty, entry, get,
}

pub data Rule : Type 0 where
  token_budget_exceeded : Rule
  cost_budget_exceeded : Rule
  thinking_tokens_per_request_exceeded : Rule
  thinking_token_budget_exceeded : Rule
  thinking_to_input_ratio_exceeded : Rule
  iteration_cap_exceeded : Rule
  tool_depth_exceeded : Rule
  agent_loop_state_repeat : Rule

-- The settings of `UnboundedConsumptionDetector.__init__`.
pub record Settings : Type 0 where
  pub enabled : Bool
  pub blocks : Bool
  pub max_session_tokens : ℕ
  pub max_session_cost_usd : ℕ
  pub max_iterations : ℤ
  pub max_tool_depth : ℤ
  pub session_window : ℕ
  pub max_thinking_tokens_per_request : ℕ
  pub max_session_thinking_tokens : ℕ
  pub max_thinking_to_input_ratio : ℕ
  pub ratio_min_thinking_tokens : ℕ
  pub max_repeated_states : ℕ
  pub max_tracked_states : ℕ

-- What is kept for a session. The states are in the order of the `OrderedDict`, the oldest first.
pub record Session : Type 0 where
  pub tokens : ℕ
  pub cost : ℕ
  pub thinking : ℕ
  pub states : Dict.Dict ℕ
  pub first_ts : ℕ

pub record Detector : Type 0 where
  pub sessions : Dict.Dict Session
  pub last_cleanup : ℕ

pub record Verdict : Type 0 where
  pub decision : Decision
  pub risk_score : ℕ
  pub rule_hits : List Rule

-- What `float(v)` does: `overflows` is an OverflowError, `unread` an error that is caught or a value
-- that is not finite.
pub data Reading : Type 0 where
  overflows : Reading
  unread : Reading
  finite : ℤ → Reading

-- `_coerce_nonneg_int` and `_coerce_nonneg_float`: `none` where they raise, which is on an integer that
-- is too large for a float.
unfoldable pub coerce_nonneg_int : Reading → Option ℕ
coerce_nonneg_int overflows = none
coerce_nonneg_int unread = some 0
coerce_nonneg_int (finite (pos n)) = some (n / 1000000)
coerce_nonneg_int (finite (negsuc n)) = some 0

unfoldable pub coerce_nonneg_float : Reading → Option ℕ
coerce_nonneg_float overflows = none
coerce_nonneg_float unread = some 0
coerce_nonneg_float (finite (pos n)) = some n
coerce_nonneg_float (finite (negsuc n)) = some 0

abbrev or_else : Option Value → Option Value → Option Value
or_else none w = w
or_else (some v) w = some v

abbrev read : (Value → Reading) → Option Value → Reading
read reads none = unread
read reads (some v) = reads v

-- `_key`
unfoldable pub key : (tenant_id app_id : Text) → (session_id user_id : Option Text) → Option Text
key tenant_id app_id (some (c ∷ s)) user_id =
    some (tenant_id ++ (b':' ∷ app_id ++ (codes ":s:" ++ c ∷ s)))
key tenant_id app_id none (some (c ∷ u)) =
    some (tenant_id ++ (b':' ∷ app_id ++ (codes ":u:" ++ c ∷ u)))
key tenant_id app_id (some []) (some (c ∷ u)) =
    some (tenant_id ++ (b':' ∷ app_id ++ (codes ":u:" ++ c ∷ u)))
key tenant_id app_id none none = none
key tenant_id app_id none (some []) = none
key tenant_id app_id (some []) none = none
key tenant_id app_id (some []) (some []) = none

-- The sessions whose window is not over.
unfoldable pub drop_stale : (window now : ℕ) → Dict.Dict Session → Dict.Dict Session
drop_stale window now [] = []
drop_stale window now ((k, s) ∷ d) =
    let rest = drop_stale window now d in
    if ltb window (now - s.first_ts) then rest else (k, s) ∷ rest

-- `_cleanup`
unfoldable pub cleanup : Settings → (now : ℕ) → Detector → Detector
unfolding drop_stale
cleanup c now d =
    if ltb (now - d.last_cleanup) 300000
    then d
    else record { sessions = drop_stale c.session_window now d.sessions; last_cleanup = now }

abbrev pub new_session : (now : ℕ) → Session
new_session now = record { tokens = 0; cost = 0; thinking = 0; states = []; first_ts = now }

-- The session that a request at `now` counts in: the one that is there, or a new one if its window is
-- over.
unfoldable pub current : (window now : ℕ) → Option Session → Session
current window now none = new_session now
current window now (some s) = if ltb window (now - s.first_ts) then new_session now else s

-- The usage that a request reports.
pub record Usage : Type 0 where
  pub tokens : ℕ
  pub cost : ℕ
  pub thinking : ℕ

unfoldable pub add_usage : Usage → Session → Session
add_usage u s = record s {
  tokens = s.tokens + u.tokens;
  cost = s.cost + u.cost;
  thinking = s.thinking + u.thinking;
}

-- The accounting of a request under its key: the session after it, and the detector.
unfoldable pub account : Settings → (now : ℕ) → Text → Usage → Detector → Session × Detector
unfolding current add_usage
account c now k u d =
    let s = add_usage u (current c.session_window now (Dict.lookup k d.sessions)) in
    (s, record d { sessions = Dict.insert k s d.sessions })

-- `states.get(digest, 0)`
abbrev pub seen_before : Option ℕ → ℕ
seen_before none = 0
seen_before (some n) = n

-- `popitem(last=False)`: raises on an empty table.
abbrev pub pop_oldest : Dict.Dict ℕ → Option (Dict.Dict ℕ)
pop_oldest [] = none
pop_oldest (e ∷ d) = some d

abbrev pub with_new : Text → Option (Dict.Dict ℕ) → Option (ℕ × Dict.Dict ℕ)
with_new digest none = none
with_new digest (some d) = some (1, d ++ (digest, 1) ∷ [])

-- What happens to a digest that the table does not have, or has with this count.
abbrev pub touched : ℕ → Text → Option ℕ → Dict.Dict ℕ → Option (ℕ × Dict.Dict ℕ)
touched cap digest none states =
    with_new digest (if leb cap (length states) then pop_oldest states else some states)
touched cap digest (some n) states =
    some (suc n, move_to_end digest (Dict.insert digest (suc n) states))

-- How often the state was seen, and the table of states; `none` where `popitem` raises.
unfoldable pub touch : (cap : ℕ) → Text → Dict.Dict ℕ → Option (ℕ × Dict.Dict ℕ)
unfolding move_to_end
touch cap digest states = touched cap digest (Dict.lookup digest states) states

unfoldable pub hit : Bool → Rule → List Rule
hit b r = if b then r ∷ [] else []

-- The budgets, on the totals and on the request's own usage.
unfoldable pub budget_hits : Settings → Usage → (total : Usage) → List Rule
unfolding hit
budget_hits c u total =
    hit (ltb c.max_session_tokens total.tokens) token_budget_exceeded
    ++ (hit (ltb c.max_session_cost_usd total.cost) cost_budget_exceeded
        ++ (hit (ltb c.max_thinking_tokens_per_request u.thinking)
              thinking_tokens_per_request_exceeded
            ++ (hit (ltb c.max_session_thinking_tokens total.thinking)
                  thinking_token_budget_exceeded
                ++ hit
                    (leb c.ratio_min_thinking_tokens u.thinking
                      && (ltb 0 u.tokens
                          && (ltb 0 c.max_thinking_to_input_ratio
                              && ltb (c.max_thinking_to_input_ratio * u.tokens)
                                  (u.thinking * 100))))
                    thinking_to_input_ratio_exceeded)))
