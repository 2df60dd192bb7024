-- ===== src/Inference/Batching/Pending.antt =====
-- No call of `submit` of batching.py is forgotten.
use znyx_runtime.Prelude.{
  ℕ, Text, Bool, true, false, ltb, leb, Option, none, some, List, [], ◌∷◌, map, length, ◌≡◌, ◌⊎◌,
  refl, ap, ◌∙◌, arith, Bool-cases, inl, inr,
}
use znyx_runtime.Inference.Batching.{
  result, runner_error, Waiter, Item, Phase, stopped, idle, filling, inferring, Processor, new,
  time_out, settle_at, waiter_at, drop_if_stale, begun, filled, first_from, more_from, advance,
  hand_out, fail_all, delivered, deliver, start, stop, run_direct, direct_done, direct_time_out,
}
use znyx_runtime.Inference.Batching.Bounds.{
  Event, submitted, gave_up, advanced, inferred, launched, halted, directed, direct_ended,
  direct_gave_up, in_hand, step, run,
}
use znyx_runtime.Inference.Batching.Held.{
  holds, IsHeld, taken_up, as_held, in_queue, length-map, held_only, in_hand-started, IsPending,
  IsPending-settle_at, Keeps, submit-Keeps, timed_out-Keeps, DropKeeps, drop-keeps, drop-same,
  held_or,
}

module _ {Out : Type 0} where
  begun-Keeps :
      (item : Item) (now : ℕ) (queue : List Item) (r : Bool × Processor Out)
      → r.1.queue ≡ queue
      → in_hand r.1.worker ≡ []
      → DropKeeps item queue [] r
      → Keeps (begun item now r)
  begun-Keeps item now queue (true, p) q e d i w = rw (q, e) (held_only i queue [] item (d i w))
  begun-Keeps item now queue (false, p) q e d i w =
      rw q (taken_up i queue [] item (held_or i queue [] item (false, p) (d i w)))

  filled-Keeps :
      (item : Item) (batch : List Item) (deadline : ℕ) (queue : List Item)
      (r : Bool × Processor Out)
      → r.1.queue ≡ queue
      → in_hand r.1.worker ≡ batch
      → DropKeeps item queue batch r
      → Keeps (filled item batch deadline r)
  filled-Keeps item batch deadline queue (true, p) q e d i w =
      rw (q, e) (held_only i queue batch item (d i w))
  filled-Keeps item batch deadline queue (false, p) q e d i w =
      rw q (taken_up i queue batch item (held_or i queue batch item (false, p) (d i w)))

  first-Keeps :
      (queue : List Item) (now : ℕ) (p : Processor Out)
      → p.queue ≡ queue
      → in_hand p.worker ≡ []
      → Keeps p
      → Keeps (first_from queue now p)
  first-Keeps [] now p q e h = h
  first-Keeps (item ∷ queue) now p q e h =
      let left : Processor Out = record p { queue = queue } in
      let (same, still) = drop-same item now left in
      begun-Keeps item now queue (drop_if_stale item now left) same (ap in_hand still ∙ e)
        (drop-keeps item queue [] now left (λ i w. as_held i q e (h i w)))

  more-Keeps :
      (queue batch : List Item) (deadline taken : ℕ) (p : Processor Out)
      → p.queue ≡ queue
      → in_hand p.worker ≡ batch
      → Keeps p
      → Keeps (more_from queue batch deadline taken p)
  more-Keeps [] batch deadline taken p q e h = h
  more-Keeps (item ∷ queue) batch deadline taken p q e h =
      let left : Processor Out = record p { queue = queue } in
      let (same, still) = drop-same item taken left in
      filled-Keeps item batch deadline queue (drop_if_stale item taken left) same
        (ap in_hand still ∙ e)
        (drop-keeps item queue batch taken left (λ i w. as_held i q e (h i w)))

  advance-Keeps :
      (checked taken : ℕ) (v : Phase) (p : Processor Out)
      → p.worker ≡ v
      → Keeps p
      → Keeps (advance checked taken v p)
  unfolding advance
  advance-Keeps checked taken stopped p e h i = h i
  advance-Keeps checked taken idle p e h i = first-Keeps p.queue taken p refl (ap in_hand e) h i
  advance-Keeps checked taken (filling batch deadline) p e h i =
      let held = λ (w : IsPending i p.waiters). as_held i refl (ap in_hand e) (h i w) in
      elim (Bool-cases (ltb (length batch) p.max_batch_size)) [
        | inr full ↦ rw (advance, full) held
        | inl l ↦ elim (Bool-cases (leb deadline checked)) [
          | inl over ↦ rw (advance, l, over) held
          | inr room ↦
              rw (advance, l, room)
                (more-Keeps p.queue batch deadline taken p refl (ap in_hand e) h i)
        ]
      ]
  advance-Keeps checked taken (inferring batch) p e h i = h i

  IsPending-hand_out :
      (i : ℕ) (batch : List Item) (outputs : List Out) (ws : List (Waiter Out))
      → length outputs ≡ length batch
      → IsPending i (hand_out batch outputs ws)
      → IsPending i ws × (holds i batch ≡ false)
  unfolding hand_out
  IsPending-hand_out i [] outputs ws l h = (h, refl)
  IsPending-hand_out i (item ∷ batch) [] ws l h = absurd (omega (arith, l))
  IsPending-hand_out i (item ∷ batch) (o ∷ outputs) ws l h =
      let (later, rest) =
        IsPending-hand_out i batch outputs (settle_at item.ticket (result o) ws) (omega (arith, l))
          h in
      let (before, other) = IsPending-settle_at i item.ticket (result o) ws refl later in
      (before, ground (arith, other, rest))

  IsPending-fail_all :
      (i : ℕ) (batch : List Item) (ws : List (Waiter Out))
      → IsPending i (fail_all batch ws)
      → IsPending i ws × (holds i batch ≡ false)
  unfolding fail_all
  IsPending-fail_all i [] ws h = (h, refl)
  IsPending-fail_all i (item ∷ batch) ws h =
      let (later, rest) = IsPending-fail_all i batch (settle_at item.ticket runner_error ws) h in
      let (before, other) = IsPending-settle_at i item.ticket runner_error ws refl later in
      (before, ground (arith, other, rest))

  -- The runner raises, or returns as many outputs as there are texts.
  abbrev pub IsComplete : (List Text → Option (List Out)) → Type 0
  IsComplete infer_batch =
      (ts : List Text)
      → (infer_batch ts ≡ none)
        ⊎ ((outputs : List Out) × (infer_batch ts ≡ some outputs) × (length outputs ≡ length ts))

  delivered-Keeps :
      (batch : List Item) (o : Option (List Out)) (p : Processor Out)
      → (o ≡ none)
        ⊎ ((outputs : List Out) × (o ≡ some outputs)
            × (length outputs ≡ length (map (λ (item : Item). item.text) batch)))
      → in_hand p.worker ≡ batch
      → Keeps p
      → Keeps (delivered batch o p)
  delivered-Keeps batch o p (inl e) b h i = rw e (λ w.
      let (before, none_left) = IsPending-fail_all i batch p.waiters w in
      in_queue i p.queue batch (as_held i refl b (h i before)) none_left)
  delivered-Keeps batch o p (inr (outputs, e, l)) b h i = rw e (λ w.
      let (before, none_left) =
        IsPending-hand_out i batch outputs p.waiters (l ∙ length-map batch) w in
      in_queue i p.queue batch (as_held i refl b (h i before)) none_left)

  deliver-Keeps :
      (infer_batch : List Text → Option (List Out)) (v : Phase) (p : Processor Out)
      → IsComplete infer_batch
      → p.worker ≡ v
      → Keeps p
      → Keeps (deliver infer_batch v p)
  unfolding deliver
  deliver-Keeps infer_batch stopped p r e h = h
  deliver-Keeps infer_batch idle p r e h = h
  deliver-Keeps infer_batch (filling batch deadline) p r e h = h
  deliver-Keeps infer_batch (inferring batch) p r e h =
      delivered-Keeps batch (infer_batch (map (λ (item : Item). item.text) batch)) p
        (r (map (λ (item : Item). item.text) batch)) (ap in_hand e) h

  direct-Keeps : (p : Processor Out) → Keeps p → Keeps (run_direct p)
  unfolding run_direct
  direct-Keeps p h i = elim (Bool-cases (leb p.max_queue p.direct_inflight)) [
    | inl e ↦ rw (run_direct, e) (h i)
    | inr e ↦ rw (run_direct, e) (h i)
  ]

  started-Keeps : (p : Processor Out) → Keeps p → Keeps (start p)
  unfolding start
  started-Keeps p h i w = as_held i refl (in_hand-started p.worker) (h i w)

  -- The worker is not stopped, and every runner that returns has an output for each text.
  abbrev AllowsEvent : Event Out → Type 0
  AllowsEvent (submitted now text) = Unit
  AllowsEvent (gave_up ticket) = Unit
  AllowsEvent (advanced checked taken) = Unit
  AllowsEvent (inferred infer_batch) = IsComplete infer_batch
  AllowsEvent launched = Unit
  AllowsEvent halted = ⊥
  AllowsEvent directed = Unit
  AllowsEvent direct_ended = Unit
  AllowsEvent direct_gave_up = Unit

  abbrev pub AreComplete : List (Event Out) → Type 0
  AreComplete [] = Unit
  AreComplete (e ∷ es) = AllowsEvent e × AreComplete es

  step-Keeps : (e : Event Out) (p : Processor Out) → AllowsEvent e → Keeps p → Keeps (step e p)
  unfolding step time_out stop direct_done direct_time_out
  step-Keeps (submitted now text) p r h = submit-Keeps now text p h
  step-Keeps (gave_up ticket) p r h = timed_out-Keeps (waiter_at ticket p.waiters) ticket p h
  step-Keeps (advanced checked taken) p r h = advance-Keeps checked taken p.worker p refl h
  step-Keeps (inferred infer_batch) p r h = deliver-Keeps infer_batch p.worker p r refl h
  step-Keeps launched p r h = started-Keeps p h
  step-Keeps halted p r h = absurd r
  step-Keeps directed p r h = direct-Keeps p h
  step-Keeps direct_ended p r h = h
  step-Keeps direct_gave_up p r h = h

  run-Keeps :
      (es : List (Event Out)) (p : Processor Out) → AreComplete es → Keeps p → Keeps (run es p)
  unfolding run
  run-Keeps [] p r h = h
  run-Keeps (e ∷ es) p r h = run-Keeps es (step e p) r.1 (step-Keeps e p r.0 h)

  new-Keeps : (a b c d : ℕ) → Keeps {Out = Out} (new a b c d)
  unfolding new waiter_at
  new-Keeps a b c d i (w, e, n) = cc

  -- No call of `submit` is forgotten: as long as the worker is not stopped and the runner raises or
  -- returns an output for each text, a call whose future is not done has its item in the queue or in the
  -- worker's batch, after any sequence of events.
  pub run-held :
      (es : List (Event Out)) (max_batch_size max_wait_ms max_queue budget_ms i : ℕ)
      → AreComplete es
      → IsPending i (run es (new max_batch_size max_wait_ms max_queue budget_ms)).waiters
      → IsHeld i
          (run es (new max_batch_size max_wait_ms max_queue budget_ms)).queue
          (in_hand (run es (new max_batch_size max_wait_ms max_queue budget_ms)).worker)
  run-held es a b c d i r w = run-Keeps es (new a b c d) r (new-Keeps a b c d) i w
