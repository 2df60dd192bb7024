-- ===== src/Witnesses/Batches.antt =====
-- The theorems on batching, at concrete inputs.
use znyx_runtime.Prelude.{
  ℕ, suc, ◌≤◌, Text, codes, Bool, true, false, ◌||◌, Option, none, some, List, [], ◌∷◌, map, length,
  ◌≡◌, ◌⊎◌, refl, inl, inr,
}
use znyx_runtime.Inference.Batching.{pending, new}
use znyx_runtime.Inference.Batching.Bounds.{
  Event, submitted, gave_up, advanced, inferred, launched, directed, in_hand, run, IsBounded,
  run-IsBounded,
}
use znyx_runtime.Inference.Batching.Answers.{AllRight, run-AllRight}
use znyx_runtime.Inference.Batching.Held.{IsHeld}
use znyx_runtime.Inference.Batching.Pending.{IsComplete, AreComplete, run-held}

-- The runner returns the length of each text.
abbrev lengths : List Text → Option (List ℕ)
lengths ts = some (map (λ (t : Text). length t) ts)

lengths-length : (ts : List Text) → length (map (λ (t : Text). length t) ts) ≡ length ts
lengths-length [] = refl
lengths-length (t ∷ ts) = znyx_runtime.Prelude.ap suc (lengths-length ts)

counted : IsComplete lengths
counted ts = inr (map (λ (t : Text). length t) ts, refl, lengths-length ts)

-- Three calls, of which one gives up; two of them share a batch, and the last one waits.
abbrev events : List (Event ℕ)
events =
    launched
    ∷ submitted 0 (codes "ab")
    ∷ submitted 1 (codes "abc")
    ∷ advanced 2 2
    ∷ advanced 2 3
    ∷ gave_up 1
    ∷ advanced 3 3
    ∷ submitted 4 (codes "a")
    ∷ inferred lengths
    ∷ directed
    ∷ []

run-IsBounded_example : IsBounded (run events (new 2 10 5 2000))
run-IsBounded_example = run-IsBounded events 2 10 5 2000

run-AllRight_example : AllRight (λ t. length t) (run events (new 2 10 5 2000)).waiters
run-AllRight_example =
    run-AllRight (λ t. length t) events 2 10 5 2000
      (tt, (tt, (tt, (tt, (tt, (tt, (tt, (tt, ((λ ts. inr refl), (tt, tt))))))))))

complete : AreComplete events
complete = (tt, (tt, (tt, (tt, (tt, (tt, (tt, (tt, (counted, (tt, tt))))))))))

run-held_example :
    IsHeld 2 (run events (new 2 10 5 2000)).queue (in_hand (run events (new 2 10 5 2000)).worker)
unfolding znyx_runtime.Inference.Batching.waiter_at run new
run-held_example =
    run-held events 2 10 5 2000 2 complete
      (record { text = codes "a"; future = pending }, refl, refl)
