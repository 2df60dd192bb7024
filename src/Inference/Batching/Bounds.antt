-- ===== src/Inference/Batching/Bounds.antt =====
-- The runs of the batch processor of batching.py as sequences of events, and its bounds.
use znyx_runtime.Prelude.{
  ℕ, ◌≤◌, ◌<◌, Text, Bool, true, false, ltb, leb, Option, none, some, List, [], ◌∷◌, map, length,
  length-snoc, ltb→lt, ◌≡◌, refl, subst, arith, Bool-cases, inl, inr,
}
use znyx_runtime.Inference.Batching.{
  Waiter, Item, Phase, stopped, idle, filling, inferring, Processor, new, submit, time_out,
  timed_out, waiter_at, is_done, is_settled, drop_if_stale, begun, filled, first_from, more_from,
  advance, delivered, deliver, started, start, stop, run_direct, direct_done, direct_time_out,
}

-- What can happen next.
pub data Event (Out : Type 0) : Type 0 where
  submitted : (now : ℕ) → Text → Event Out
  gave_up : (ticket : ℕ) → Event Out
  advanced : (checked taken : ℕ) → Event Out
  inferred : (List Text → Option (List Out)) → Event Out
  launched : Event Out
  halted : Event Out
  directed : Event Out
  direct_ended : Event Out
  direct_gave_up : Event Out

-- The items that the worker has taken and not finished.
abbrev pub in_hand : Phase → List Item
in_hand stopped = []
in_hand idle = []
in_hand (filling batch deadline) = batch
in_hand (inferring batch) = batch

shorter :
    (items : List Item) (item : Item) (queue : List Item) (n : ℕ)
    → items ≡ item ∷ queue
    → length items ≤ n
    → length queue ≤ n
shorter items item queue n e h =
    let h' : length (item ∷ queue) ≤ n = subst (λ q. length q ≤ n) e h in omega (arith, h')

started-bounded : (w : Phase) (n : ℕ) → length (in_hand w) ≤ n → length (in_hand (started w)) ≤ n
started-bounded stopped n h = h
started-bounded idle n h = h
started-bounded (filling batch deadline) n h = h
started-bounded (inferring batch) n h = h

module _ {Out : Type 0} where
  unfoldable pub step : Event Out → Processor Out → Processor Out
  unfolding submit time_out advance deliver start stop run_direct direct_done direct_time_out
  step (submitted now text) p = submit now text p
  step (gave_up ticket) p = time_out ticket p
  step (advanced checked taken) p = advance checked taken p.worker p
  step (inferred infer_batch) p = deliver infer_batch p.worker p
  step launched p = start p
  step halted p = stop p
  step directed p = run_direct p
  step direct_ended p = direct_done p
  step direct_gave_up p = direct_time_out p

  unfoldable pub run : List (Event Out) → Processor Out → Processor Out
  unfolding step
  run [] p = p
  run (e ∷ es) p = run es (step e p)

  abbrev pub IsBounded : Processor Out → Type 0
  IsBounded p =
      (length p.queue ≤ p.max_queue)
      × (length (in_hand p.worker) ≤ p.max_batch_size)
      × (p.direct_inflight ≤ p.max_queue)
      × (1 ≤ p.max_batch_size)

  submit-IsBounded :
      (now : ℕ) (text : Text) (p : Processor Out) → IsBounded p → IsBounded (submit now text p)
  unfolding submit
  submit-IsBounded now text p h = elim (Bool-cases (ltb (length p.queue) p.max_queue)) [
    | inl e ↦ rw (submit, e) (rw (length-snoc p.queue) (ltb→lt _ _ e), h.1, h.2, h.3)
    | inr e ↦ rw (submit, e) h
  ]

  timed_out-IsBounded :
      (o : Option (Waiter Out)) (i : ℕ) (p : Processor Out)
      → IsBounded p
      → IsBounded (timed_out o i p)
  timed_out-IsBounded none i p h = h
  timed_out-IsBounded (some w) i p h = elim (Bool-cases (is_done w.future)) [
    | inl e ↦ rw e h
    | inr e ↦ rw e h
  ]

  -- A dropped item leaves all the sizes as they are.
  drop-IsBounded :
      (item : Item) (now : ℕ) (p : Processor Out)
      → IsBounded p
      → IsBounded (drop_if_stale item now p).1
        × ((drop_if_stale item now p).1.max_batch_size ≡ p.max_batch_size)
  unfolding drop_if_stale
  drop-IsBounded item now p h = elim (Bool-cases (is_settled (waiter_at item.ticket p.waiters))) [
    | inl s ↦ rw (drop_if_stale, s) (h, refl)
    | inr s ↦ elim (Bool-cases (ltb item.deadline now)) [
      | inl d ↦ rw (drop_if_stale, s, d) (h, refl)
      | inr d ↦ rw (drop_if_stale, s, d) (h, refl)
    ]
  ]

  begun-IsBounded :
      (item : Item) (now : ℕ) (r : Bool × Processor Out)
      → IsBounded r.1
      → IsBounded (begun item now r)
  begun-IsBounded item now (true, p) h = h
  begun-IsBounded item now (false, p) h = (h.0, h.3, h.2, h.3)

  filled-IsBounded :
      (item : Item) (batch : List Item) (deadline : ℕ) (r : Bool × Processor Out)
      → length batch < r.1.max_batch_size
      → IsBounded r.1
      → IsBounded (filled item batch deadline r)
  filled-IsBounded item batch deadline (true, p) l h = h
  filled-IsBounded item batch deadline (false, p) l h = (h.0, rw (length-snoc batch) l, h.2, h.3)

  first-IsBounded :
      (queue : List Item) (now : ℕ) (p : Processor Out)
      → p.queue ≡ queue
      → IsBounded p
      → IsBounded (first_from queue now p)
  first-IsBounded [] now p q h = h
  first-IsBounded (item ∷ queue) now p q h =
      let left : Processor Out = record p { queue = queue } in
      begun-IsBounded item now (drop_if_stale item now left)
        (drop-IsBounded item now left
          (shorter p.queue item queue p.max_queue q h.0, h.1, h.2, h.3)).0

  more-IsBounded :
      (queue batch : List Item) (deadline taken : ℕ) (p : Processor Out)
      → p.queue ≡ queue
      → length batch < p.max_batch_size
      → IsBounded p
      → IsBounded (more_from queue batch deadline taken p)
  more-IsBounded [] batch deadline taken p q l h = h
  more-IsBounded (item ∷ queue) batch deadline taken p q l h =
      let left : Processor Out = record p { queue = queue } in
      let (kept, same) =
        drop-IsBounded item taken left
          (shorter p.queue item queue p.max_queue q h.0, h.1, h.2, h.3) in
      filled-IsBounded item batch deadline (drop_if_stale item taken left) (rw same l) kept

  advance-IsBounded :
      (checked taken : ℕ) (w : Phase) (p : Processor Out)
      → p.worker ≡ w
      → IsBounded p
      → IsBounded (advance checked taken w p)
  unfolding advance
  advance-IsBounded checked taken stopped p e h = h
  advance-IsBounded checked taken idle p e h = first-IsBounded p.queue taken p refl h
  advance-IsBounded checked taken (filling batch deadline) p e h =
      let held : length batch ≤ p.max_batch_size =
        subst (λ w. length (in_hand w) ≤ p.max_batch_size) e h.1 in
      elim (Bool-cases (ltb (length batch) p.max_batch_size)) [
        | inr full ↦ rw (advance, full) (h.0, held, h.2, h.3)
        | inl l ↦ elim (Bool-cases (leb deadline checked)) [
          | inl over ↦ rw (advance, l, over) (h.0, held, h.2, h.3)
          | inr room ↦
              rw (advance, l, room)
                (more-IsBounded p.queue batch deadline taken p refl (ltb→lt _ _ l) h)
        ]
      ]
  advance-IsBounded checked taken (inferring batch) p e h = h

  delivered-IsBounded :
      (batch : List Item) (o : Option (List Out)) (p : Processor Out)
      → IsBounded p
      → IsBounded (delivered batch o p)
  delivered-IsBounded batch none p h = (h.0, omega arith, h.2, h.3)
  delivered-IsBounded batch (some outputs) p h = (h.0, omega arith, h.2, h.3)

  deliver-IsBounded :
      (infer_batch : List Text → Option (List Out)) (w : Phase) (p : Processor Out)
      → IsBounded p
      → IsBounded (deliver infer_batch w p)
  unfolding deliver
  deliver-IsBounded infer_batch stopped p h = h
  deliver-IsBounded infer_batch idle p h = h
  deliver-IsBounded infer_batch (filling batch deadline) p h = h
  deliver-IsBounded infer_batch (inferring batch) p h =
      delivered-IsBounded batch (infer_batch (map (λ (item : Item). item.text) batch)) p h

  direct-IsBounded : (p : Processor Out) → IsBounded p → IsBounded (run_direct p)
  unfolding run_direct
  direct-IsBounded p h = elim (Bool-cases (leb p.max_queue p.direct_inflight)) [
    | inl e ↦ rw (run_direct, e) h
    | inr e ↦ rw (run_direct, e) (h.0, h.1, ground (arith, e), h.3)
  ]

  step-IsBounded : (e : Event Out) (p : Processor Out) → IsBounded p → IsBounded (step e p)
  unfolding step time_out start stop direct_done direct_time_out
  step-IsBounded (submitted now text) p h = submit-IsBounded now text p h
  step-IsBounded (gave_up ticket) p h = timed_out-IsBounded (waiter_at ticket p.waiters) ticket p h
  step-IsBounded (advanced checked taken) p h = advance-IsBounded checked taken p.worker p refl h
  step-IsBounded (inferred infer_batch) p h = deliver-IsBounded infer_batch p.worker p h
  step-IsBounded launched p h = (h.0, started-bounded p.worker p.max_batch_size h.1, h.2, h.3)
  step-IsBounded halted p h = (h.0, omega arith, h.2, h.3)
  step-IsBounded directed p h = direct-IsBounded p h
  step-IsBounded direct_ended p h = (h.0, h.1, omega (arith, h.2), h.3)
  step-IsBounded direct_gave_up p h = h

  run_from-IsBounded :
      (es : List (Event Out)) (p : Processor Out) → IsBounded p → IsBounded (run es p)
  unfolding run
  run_from-IsBounded [] p h = h
  run_from-IsBounded (e ∷ es) p h = run_from-IsBounded es (step e p) (step-IsBounded e p h)

  -- Whatever happens in whatever order, the queue holds at most `max_queue` items, a batch at most
  -- `max_batch_size`, and at most `max_queue` direct requests are in flight.
  pub run-IsBounded :
      (es : List (Event Out)) (max_batch_size max_wait_ms max_queue budget_ms : ℕ)
      → IsBounded (run es (new max_batch_size max_wait_ms max_queue budget_ms))
  unfolding new
  run-IsBounded es max_batch_size max_wait_ms max_queue budget_ms =
      run_from-IsBounded es (new max_batch_size max_wait_ms max_queue budget_ms)
        (omega arith, omega arith, omega arith, omega arith)
