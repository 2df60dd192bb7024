-- ===== src/RateLimit/Cleanup.antt =====
-- `SlidingWindowCounter.cleanup` of middleware/rate_limit.py.
use znyx_runtime.Prelude.{
  ℕ, ◌≤◌, Text, eq_text, eq_text→eq, true, false, none, List, [], ◌∷◌, if◌then◌else◌, ◌≡◌, refl,
  sym, ap, ◌∙◌, arith, Bool-cases, inl, inr,
}
use znyx_runtime.Prelude.Dict
use znyx_runtime.RateLimit.{Requests, is_live, live, or_empty, timestamps, all_stale, cleanup}

live-stale :
    (earlier now : ℕ) (ts : List ℕ) → earlier ≤ now → all_stale earlier ts ≡ true → live now ts ≡ []
unfolding live all_stale
live-stale earlier now [] le h = refl
live-stale earlier now (t ∷ ts) le h =
    let gone : is_live now t ≡ false = ground (arith, le, h) in
    let rest : all_stale earlier ts ≡ true = ground (arith, h) in
    rw gone (live-stale earlier now ts le rest)

lookup-cleanup :
    (key : Text) (now : ℕ) (s : Requests)
    → Dict.lookup key s ≡ none
    → Dict.lookup key (cleanup now s) ≡ none
unfolding cleanup Dict.lookup
lookup-cleanup key now [] h = refl
lookup-cleanup key now ((k, ts) ∷ s) h = ground (arith, h, lookup-cleanup key now s)

timestamps-none : (key : Text) (s : Requests) → Dict.lookup key s ≡ none → timestamps key s ≡ []
unfolding timestamps
timestamps-none key s h = ap or_empty h

timestamps-here :
    (key k : Text) (ts : List ℕ) (s : Requests)
    → timestamps key ((k, ts) ∷ s) ≡ (if eq_text k key then ts else timestamps key s)
unfolding timestamps Dict.lookup
timestamps-here key k ts s = elim (Bool-cases (eq_text k key)) [
  | inl e ↦ rw e refl
  | inr e ↦ rw e refl
]

-- Cleaning up is not seen by the limiter: at the time of the cleanup and later, each key has the
-- live requests that it had before, if no key stands twice.
pub live-cleanup :
    (key : Text) (earlier now : ℕ) (s : Requests)
    → Dict.IsDict s
    → earlier ≤ now
    → live now (timestamps key (cleanup earlier s)) ≡ live now (timestamps key s)
unfolding cleanup Dict.IsDict live
live-cleanup key earlier now [] d h = refl
live-cleanup key earlier now ((k, ts) ∷ s) d h =
    let rest = live-cleanup key earlier now s d.1 h in
    let here = timestamps-here key k ts s in
    let cleaned = timestamps-here key k ts (cleanup earlier s) in
    elim (Bool-cases (all_stale earlier ts)) [
      | inl a ↦ elim (Bool-cases (eq_text k key)) [
        | inl e ↦
            rw (a, here, e)
              (ap (live now) (
                  timestamps-none key (cleanup earlier s) (
                    lookup-cleanup key earlier s
                      (ap (λ x. Dict.lookup x s) (sym (eq_text→eq k key e)) ∙ d.0)))
                ∙ sym (live-stale earlier now ts h a))
        | inr e ↦ rw (a, here, e) rest
      ]
      | inr a ↦
          rw (a, here, cleaned)
            (elim (Bool-cases (eq_text k key)) [ inl e ↦ rw e refl | inr e ↦ rw e rest ])
    ]
