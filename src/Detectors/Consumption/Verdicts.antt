-- ===== src/Detectors/Consumption/Verdicts.antt =====
-- What `detect` of detectors/unbounded_consumption.py answers.
use znyx_runtime.Prelude.{
  ℕ, ◌-◌, ◌≤◌, ◌<◌, Text, codes, strip, take, leb, Bool, true, ltb, Option, none, some, List, [],
  ◌∷◌, ◌++◌, if◌then◌else◌, ◌≡◌, refl, ap, ◌∙◌, eq_text_refl, arith,
}
use znyx_runtime.Prelude.Dict
use znyx_runtime.Core.Models.{block, warn}
use znyx_runtime.Policy.Value.{Value, Object, get, is_truthy}
use znyx_runtime.Detectors.Consumption.{
  Rule, token_budget_exceeded, agent_loop_state_repeat, Settings, Session, Detector, Verdict, Usage,
  Reading, key, cleanup, account, current, add_usage, touch, hit, budget_hits,
}
use znyx_runtime.Detectors.Consumption.Detect.{
  as_object, as_text, or_stripped, with_states, depth_hits, loop_hits, verdict, concluded, reported,
  keyed, detect,
}
use znyx_runtime.Detectors.Consumption.Budgets.{lookup-cleanup, current_same}
use znyx_runtime.Detectors.Consumption.Loops.{touch-IsTouched}

-- The detector holds under the key a session that is over its token budget, and that began at `first`.
abbrev pub IsOver : Settings → (k : Text) → (first : ℕ) → Detector → Type 0
IsOver c k first d =
    (s : Session) × (Dict.lookup k d.sessions ≡ some s)
    × Dict.IsDict s.states
    × (s.first_ts ≡ first)
    × (c.max_session_tokens < s.tokens)

inserted_there :
    (k : Text) (s : Session) (d : Dict.Dict Session) → Dict.lookup k (Dict.insert k s d) ≡ some s
inserted_there k s d = Dict.lookup-insert k k s d ∙ rw (eq_text_refl k) refl

hit_first : (b : Bool) (r : Rule) (rest : List Rule) → b ≡ true → hit b r ++ rest ≡ r ∷ rest
unfolding hit
hit_first b r rest e = rw e refl

grows : (n : ℕ) (u : Usage) (s : Session) → n < s.tokens → n < (add_usage u s).tokens
unfolding add_usage
grows n u s h = omega (arith, h)

-- Rules that begin with a hit give a verdict of the configured action.
conclude :
    (c : Settings) (rules : List Rule) (r : Rule) (rest : List Rule)
    (o : Option (List Rule × Detector)) (loops : List Rule) (after : Detector)
    → rules ≡ r ∷ rest
    → o ≡ some (loops, after)
    → (v : Verdict) × (concluded c rules o ≡ some (v, after))
      × (v.decision ≡ (if c.blocks then block else warn))
unfolding verdict
conclude c rules r rest o loops after e f = (verdict c (r ∷ rest ++ loops), rw (e, f) refl, refl)

module _ (c : Settings) (k : Text) (first : ℕ) where
  from_touch :
      (s : Session) (d : Detector) (o : Option (ℕ × Dict.Dict ℕ)) (seen : ℕ) (states : Dict.Dict ℕ)
      → o ≡ some (seen, states)
      → Dict.IsDict states
      → s.first_ts ≡ first
      → c.max_session_tokens < s.tokens
      → (rules : List Rule) × (after : Detector) × (with_states k s c d o ≡ some (rules, after))
        × IsOver c k first after
  from_touch s d o seen states e kept begun over = (
    hit (leb c.max_repeated_states seen) agent_loop_state_repeat,
    record d { sessions = Dict.insert k (record s { states = states }) d.sessions },
    rw e refl,
    (
      record s { states = states },
      inserted_there k (record s { states = states }) d.sessions,
      kept,
      begun,
      over,
    ),
  )

  loop-IsOver :
      (sha256 : Text → Text) (raw_state : Text) (s : Session) (d : Detector)
      → 1 ≤ c.max_tracked_states
      → Dict.lookup k d.sessions ≡ some s
      → Dict.IsDict s.states
      → s.first_ts ≡ first
      → c.max_session_tokens < s.tokens
      → (rules : List Rule) × (after : Detector) × (loop_hits sha256 c raw_state k s d
          ≡ some (rules, after))
        × IsOver c k first after
  unfolding loop_hits
  loop-IsOver sha256 [] s d m there h begun over = ([], d, refl, (s, there, h, begun, over))
  loop-IsOver sha256 (b ∷ raw_state) s d m there h begun over =
      let digest = take 16 (sha256 (b ∷ raw_state)) in
      let (after, e, found, kept, size) =
        touch-IsTouched c.max_tracked_states digest s.states m h in
      from_touch s d (touch c.max_tracked_states digest s.states) _ after e kept begun over

-- A request, as `detect` takes it.
pub record Call : Type 0 where
  pub now : ℕ
  pub text : Text
  pub tenant_id : Text
  pub app_id : Text
  pub session_id : Option Text
  pub user_id : Option Text
  pub meta : Object

module _ (sha256 : Text → Text) (reads : Value → Reading) (c : Settings) where
  -- `detect` of a request.
  abbrev pub answer : Call → Detector → Option (Verdict × Detector)
  answer q d =
      detect sha256 reads c q.now q.text q.tenant_id q.app_id q.session_id q.user_id q.meta d

  abbrev pub prepend : Verdict → Option (List Verdict × Detector) → Option (List Verdict × Detector)
  prepend v none = none
  prepend v (some (vs, d)) = some (v ∷ vs, d)

  abbrev onward :
      Option (Verdict × Detector)
      → (Detector → Option (List Verdict × Detector))
      → Option (List Verdict × Detector)
  onward none rest = none
  onward (some (v, after)) rest = prepend v (rest after)

  -- The verdicts on requests in a row, each on the detector that the one before it has left.
  unfoldable pub detect_all : List Call → Detector → Option (List Verdict × Detector)
  detect_all [] d = some ([], d)
  detect_all (q ∷ qs) d = onward (answer q d) (λ after. detect_all qs after)

  -- A request under the key, before the window that began at `first` is over, whose usage can be read.
  abbrev pub IsOwn : (k : Text) → (first : ℕ) → Call → Type 0
  IsOwn k first q =
      (key q.tenant_id q.app_id q.session_id q.user_id ≡ some k)
      × (q.now - first ≤ c.session_window)
      × ((u : Usage) × (reported sha256 reads c q.meta ≡ some u))

  abbrev pub AreOwn : (k : Text) → (first : ℕ) → List Call → Type 0
  AreOwn k first [] = Unit
  AreOwn k first (q ∷ qs) = IsOwn k first q × AreOwn k first qs

  -- As many verdicts as requests, each the configured action.
  abbrev pub AreStopped : List Call → List Verdict → Type 0
  AreStopped [] [] = Unit
  AreStopped [] (v ∷ vs) = ⊥
  AreStopped (q ∷ qs) [] = ⊥
  AreStopped (q ∷ qs) (v ∷ vs) =
      (v.decision ≡ (if c.blocks then block else warn)) × AreStopped qs vs

  keyed-IsOver :
      (meta : Object) (t k : Text) (first : ℕ) (u : Usage) (s : Session) (d : Detector)
      → 1 ≤ c.max_tracked_states
      → Dict.lookup k d.sessions ≡ some s
      → Dict.IsDict s.states
      → s.first_ts ≡ first
      → c.max_session_tokens < s.tokens
      → (v : Verdict) × (after : Detector) × (keyed sha256 reads c meta t k u (s, d)
          ≡ some (v, after))
        × (v.decision ≡ (if c.blocks then block else warn))
        × IsOver c k first after
  unfolding budget_hits
  keyed-IsOver meta t k first u s d m there h begun over =
      let hit_tokens : ltb c.max_session_tokens s.tokens ≡ true = ground (arith, over) in
      let step = as_object (get (codes "agent_step") meta) in
      let raw = or_stripped (strip (as_text (get (codes "state") step))) t in
      let looked = if is_truthy step then raw else [] in
      let (loops, after, e, still) = loop-IsOver c k first sha256 looked s d m there h begun over in
      let (v, e', action) =
        conclude c _ token_budget_exceeded _ (loop_hits sha256 c looked k s d) loops after
          (ap (λ x. x ++ depth_hits c meta step) (hit_first _ token_budget_exceeded _ hit_tokens))
          e in
      (v, after, e', action, still)

  on-answer :
      (q : Call) (k : Text) (s : Session) (u : Usage) (d : Detector)
      → c.enabled ≡ true
      → key q.tenant_id q.app_id q.session_id q.user_id ≡ some k
      → reported sha256 reads c q.meta ≡ some u
      → current c.session_window q.now (Dict.lookup k (cleanup c q.now d).sessions) ≡ s
      → answer q d
        ≡ keyed sha256 reads c q.meta q.text k u (
          add_usage u s,
          record (cleanup c q.now d) {
            sessions = Dict.insert k (add_usage u s) (cleanup c q.now d).sessions;
          },
        )
  unfolding detect account
  on-answer q k s u d on ke read counted = rw (on, ke, read, counted) refl

  -- One request leaves the session over its budget.
  answer-IsOver :
      (q : Call) (k : Text) (first : ℕ) (d : Detector)
      → c.enabled ≡ true
      → 1 ≤ c.max_tracked_states
      → IsOwn k first q
      → IsOver c k first d
      → (v : Verdict) × (after : Detector) × (answer q d ≡ some (v, after))
        × (v.decision ≡ (if c.blocks then block else warn))
        × IsOver c k first after
  unfolding add_usage
  answer-IsOver q k first d on m (ke, w, (u, read)) (s, found, h, begun, over) =
      let w' : q.now - s.first_ts ≤ c.session_window = omega (arith, w, begun) in
      let kept = lookup-cleanup c q.now k s d w' found in
      let counted : current c.session_window q.now (Dict.lookup k (cleanup c q.now d).sessions)
          ≡ s =
        rw kept (current_same c.session_window q.now s w') in
      let (v, after, e, action, still) =
        keyed-IsOver q.meta q.text k first u (add_usage u s) _ m
          (inserted_there k (add_usage u s) (cleanup c q.now d).sessions) h begun
          (grows c.max_session_tokens u s over) in
      (v, after, on-answer q k s u d on ke read counted ∙ e, action, still)

  on-detect_all :
      (q : Call) (qs : List Call) (d next : Detector) (v : Verdict)
      → answer q d ≡ some (v, next)
      → detect_all (q ∷ qs) d ≡ prepend v (detect_all qs next)
  unfolding detect_all
  on-detect_all q qs d next v e = ap (λ o. onward o (λ after. detect_all qs after)) e

  -- A session that is over its token budget stays stopped for the rest of its window: each of any number
  -- of requests in a row under its key gets the configured action, however little it reports, none of
  -- them raises, and the session is over its budget after them too. The detector is enabled, has room for
  -- at least one state, and the usage that the requests report can be read without an overflow.
  pub detect_all-IsOver :
      (qs : List Call) (k : Text) (first : ℕ) (d : Detector)
      → c.enabled ≡ true
      → 1 ≤ c.max_tracked_states
      → AreOwn k first qs
      → IsOver c k first d
      → (vs : List Verdict) × (after : Detector) × (detect_all qs d ≡ some (vs, after))
        × AreStopped qs vs
        × IsOver c k first after
  unfolding detect_all
  detect_all-IsOver [] k first d on m own over = ([], d, refl, tt, over)
  detect_all-IsOver (q ∷ qs) k first d on m (own, owns) over =
      let (v, next, e, action, still) = answer-IsOver q k first d on m own over in
      let (vs, after, e', stopped, end) = detect_all-IsOver qs k first next on m owns still in
      (v ∷ vs, after, on-detect_all q qs d next v e ∙ ap (prepend v) e', (action, stopped), end)
