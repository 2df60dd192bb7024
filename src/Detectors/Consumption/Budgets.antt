-- ===== src/Detectors/Consumption/Budgets.antt =====
-- The accounting of detectors/unbounded_consumption.py over sequences of requests.
use znyx_runtime.Prelude.{
  ℕ, ◌+◌, ◌-◌, ◌≤◌, Text, true, false, ltb, eq_text, eq_text→eq, Option, none, some, List, [], ◌∷◌,
  if◌then◌else◌, ◌≡◌, refl, sym, ap, ◌∙◌, arith, Bool-cases, inl, inr,
}
use znyx_runtime.Prelude.Dict
use znyx_runtime.Detectors.Consumption.{
  Settings, Session, Detector, Usage, cleanup, drop_stale, current, add_usage, account,
}

-- A request that is accounted: its time, its key, and its usage.
pub record Request : Type 0 where
  pub now : ℕ
  pub key : Text
  pub usage : Usage

-- What `detect` does to the totals of the sessions, for a request with a key: the clean-up and the
-- accounting, without the write of the loop state, which leaves the totals alone.
unfoldable pub serve : Settings → Request → Detector → Detector
unfolding account cleanup
serve c r d = (account c r.now r.key r.usage (cleanup c r.now d)).1

unfoldable pub serve_all : Settings → List Request → Detector → Detector
unfolding serve
serve_all c [] d = d
serve_all c (r ∷ rs) d = serve_all c rs (serve c r d)

-- The tokens that the requests under a key report.
abbrev pub tokens_for : Text → List Request → ℕ
tokens_for k [] = 0
tokens_for k (r ∷ rs) = (if eq_text r.key k then r.usage.tokens else 0) + tokens_for k rs

-- The requests come before the window that starts at `first` is over.
abbrev pub AreWithin : (window first : ℕ) → List Request → Type 0
AreWithin window first [] = Unit
AreWithin window first (r ∷ rs) = (r.now - first ≤ window) × AreWithin window first rs

first_there :
    (j k : Text) (v : Session) (d : Dict.Dict Session)
    → eq_text j k ≡ true
    → Dict.lookup k ((j, v) ∷ d) ≡ some v
unfolding Dict.lookup
first_there j k v d p = rw p refl

not_there :
    (j k : Text) (v : Session) (d : Dict.Dict Session)
    → eq_text j k ≡ false
    → Dict.lookup k ((j, v) ∷ d) ≡ Dict.lookup k d
unfolding Dict.lookup
not_there j k v d n = rw n refl

abbrev start_of : ℕ → Option Session → ℕ
start_of n none = n
start_of n (some s) = s.first_ts

in_window :
    (window now : ℕ) (v s : Session)
    → some v ≡ some s
    → now - s.first_ts ≤ window
    → ltb window (now - v.first_ts) ≡ false
in_window window now v s e h =
    let same : v.first_ts ≡ s.first_ts = ap (start_of 0) e in ground (arith, same, h)

lookup-drop_stale :
    (window now : ℕ) (k : Text) (s : Session) (d : Dict.Dict Session)
    → now - s.first_ts ≤ window
    → Dict.lookup k d ≡ some s
    → Dict.lookup k (drop_stale window now d) ≡ some s
unfolding drop_stale Dict.lookup
lookup-drop_stale window now k s [] h e = e
lookup-drop_stale window now k s ((j, v) ∷ d) h e = elim (Bool-cases (eq_text j k)) [
  | inl p ↦
      let same : some v ≡ some s = sym (first_there j k v d p) ∙ e in
      let fresh : ltb window (now - v.first_ts) ≡ false = in_window window now v s same h in
      rw (fresh, p) same
  | inr n ↦
      let later = lookup-drop_stale window now k s d h (sym (not_there j k v d n) ∙ e) in
      elim (Bool-cases (ltb window (now - v.first_ts))) [
        | inl old ↦ rw old later
        | inr young ↦ rw (young, n) later
      ]
]

-- A session whose window is not over outlives the clean-up.
pub lookup-cleanup :
    (c : Settings) (now : ℕ) (k : Text) (s : Session) (d : Detector)
    → now - s.first_ts ≤ c.session_window
    → Dict.lookup k d.sessions ≡ some s
    → Dict.lookup k (cleanup c now d).sessions ≡ some s
unfolding cleanup
lookup-cleanup c now k s d h e = elim (Bool-cases (ltb (now - d.last_cleanup) 300000)) [
  | inl r ↦ rw (cleanup, r) e
  | inr r ↦ rw (cleanup, r) (lookup-drop_stale c.session_window now k s d.sessions h e)
]

pub current_same :
    (window now : ℕ) (s : Session) → now - s.first_ts ≤ window → current window now (some s) ≡ s
unfolding current
current_same window now s h =
    let n : ltb window (now - s.first_ts) ≡ false = ground (arith, h) in rw n refl

-- One request, seen from a session whose window is not over: its own are added, others leave it alone.
serve-lookup :
    (c : Settings) (r : Request) (k : Text) (s : Session) (d : Detector)
    → r.now - s.first_ts ≤ c.session_window
    → Dict.lookup k d.sessions ≡ some s
    → Dict.lookup k (serve c r d).sessions
      ≡ some (if eq_text r.key k then add_usage r.usage s else s)
unfolding serve account
serve-lookup c r k s d h e =
    let kept = lookup-cleanup c r.now k s d h e in
    Dict.lookup-insert r.key k _ (cleanup c r.now d).sessions
    ∙ elim (Bool-cases (eq_text r.key k)) [
      | inl same ↦
          rw (same, eq_text→eq r.key k same, kept, current_same c.session_window r.now s h) refl
      | inr other ↦ rw (other, kept) refl
    ]

-- The budget of a session counts exactly its own requests: while its window lasts, the tokens of the
-- session grow by the sum of what the requests under its key report, whatever other sessions do and
-- whenever stale ones are cleaned up.
pub tokens-serve_all :
    (c : Settings) (rs : List Request) (k : Text) (s : Session) (d : Detector)
    → AreWithin c.session_window s.first_ts rs
    → Dict.lookup k d.sessions ≡ some s
    → (after : Session) × (Dict.lookup k (serve_all c rs d).sessions ≡ some after)
      × (after.tokens ≡ s.tokens + tokens_for k rs)
      × (after.first_ts ≡ s.first_ts)
unfolding serve_all add_usage
tokens-serve_all c [] k s d h e = (s, e, omega arith, refl)
tokens-serve_all c (r ∷ rs) k s d h e = elim (Bool-cases (eq_text r.key k)) [
  | inl same ↦
      let there : Dict.lookup k (serve c r d).sessions ≡ some (add_usage r.usage s) =
        serve-lookup c r k s d h.0 e ∙ rw same refl in
      let (after, found, sum, start) =
        tokens-serve_all c rs k (add_usage r.usage s) (serve c r d) h.1 there in
      (after, found, sum ∙ rw same (omega arith), start)
  | inr other ↦
      let there : Dict.lookup k (serve c r d).sessions ≡ some s =
        serve-lookup c r k s d h.0 e ∙ rw other refl in
      let (after, found, sum, start) = tokens-serve_all c rs k s (serve c r d) h.1 there in
      (after, found, sum ∙ rw other (omega arith), start)
]
