-- ===== src/Inference/Batching/Answers.antt =====
-- Which answer a call of `submit` of batching.py gets.
use znyx_runtime.Prelude.{
  ℕ, zero, suc, Text, Bool, true, false, ltb, leb, Option, none, some, List, [], ◌∷◌, ◌++◌, map,
  length, ◌≡◌, ◌⊎◌, refl, sym, ap, subst, ◌∙◌, Bool-cases, inl, inr,
}
use znyx_runtime.Inference.Batching.{
  Future, pending, result, expired, runner_error, cancelled, Waiter, Item, Phase, stopped, idle,
  filling, inferring, Processor, new, submit, time_out, timed_out, settle, settle_at, waiter_at,
  is_done, is_settled, drop_if_stale, begun, filled, first_from, more_from, advance, hand_out,
  fail_all, delivered, deliver, started, start, stop, run_direct, direct_done, direct_time_out,
}
use znyx_runtime.Inference.Batching.Bounds.{
  Event, submitted, gave_up, advanced, inferred, launched, halted, directed, direct_ended,
  direct_gave_up, in_hand, step, run,
}
use znyx_runtime.Inference.Batching.Tickets.{
  IsOwn, AllOwn, settle_at-AllOwn, append-AllOwn, snoc-AllOwn, waiter_at_last, text_or,
}

module _ {Out : Type 0} (f : Text → Out) where
  -- A result is the runner's for the text.
  abbrev pub IsRightFor : Text → Future Out → Type 0
  IsRightFor t pending = Unit
  IsRightFor t (result o) = o ≡ f t
  IsRightFor t expired = Unit
  IsRightFor t runner_error = Unit
  IsRightFor t cancelled = Unit

  abbrev pub AllRight : List (Waiter Out) → Type 0
  AllRight [] = Unit
  AllRight (w ∷ ws) = IsRightFor w.text w.future × AllRight ws

  settle-right :
      (x : Future Out) (w : Waiter Out)
      → IsRightFor w.text x
      → IsRightFor w.text w.future
      → IsRightFor (settle x w).text (settle x w).future
  settle-right x w hx h = elim (Bool-cases (is_done w.future)) [ inl e ↦ rw e h | inr e ↦ rw e hx ]

  settle_at-AllRight :
      (i : ℕ) (x : Future Out) (ws : List (Waiter Out))
      → ((w : Waiter Out) → waiter_at i ws ≡ some w → IsRightFor w.text x)
      → AllRight ws
      → AllRight (settle_at i x ws)
  unfolding settle_at waiter_at
  settle_at-AllRight i x [] k h = tt
  settle_at-AllRight zero x (w ∷ ws) k h = (settle-right x w (k w refl) h.0, h.1)
  settle_at-AllRight (suc i) x (w ∷ ws) k h = (h.0, settle_at-AllRight i x ws k h.1)

  append-AllRight :
      (ws : List (Waiter Out)) (u : Waiter Out)
      → IsRightFor u.text u.future
      → AllRight ws
      → AllRight (ws ++ u ∷ [])
  append-AllRight [] u hu h = (hu, tt)
  append-AllRight (w ∷ ws) u hu h = (h.0, append-AllRight ws u hu h.1)

  -- The queue and the batch in hand belong to their waiters, and no waiter has a wrong answer.
  abbrev pub IsSound : Processor Out → Type 0
  IsSound p = AllOwn p.waiters p.queue × AllOwn p.waiters (in_hand p.worker) × AllRight p.waiters

  submit-IsSound :
      (now : ℕ) (text : Text) (p : Processor Out) → IsSound p → IsSound (submit now text p)
  unfolding submit
  submit-IsSound now text p h = elim (Bool-cases (ltb (length p.queue) p.max_queue)) [
    | inl e ↦
        let w : Waiter Out = record { text = text; future = pending } in
        rw (submit, e)
          (
            snoc-AllOwn (p.waiters ++ w ∷ []) p.queue _ (append-AllOwn p.waiters w p.queue h.0)
                (w, waiter_at_last p.waiters w, refl),
            append-AllOwn p.waiters w (in_hand p.worker) h.1,
            append-AllRight p.waiters w tt h.2,
          )
    | inr e ↦ rw (submit, e) h
  ]

  timed_out-IsSound :
      (o : Option (Waiter Out)) (i : ℕ) (p : Processor Out) → IsSound p → IsSound (timed_out o i p)
  timed_out-IsSound none i p h = h
  timed_out-IsSound (some w) i p h = elim (Bool-cases (is_done w.future)) [
    | inl e ↦ rw e h
    | inr e ↦ rw e (
      settle_at-AllOwn i cancelled p.waiters p.queue h.0,
      settle_at-AllOwn i cancelled p.waiters (in_hand p.worker) h.1,
      settle_at-AllRight i cancelled p.waiters (λ v q. tt) h.2,
    )
  ]

  -- An item that is checked still belongs to its waiter afterwards.
  drop-IsSound :
      (item : Item) (now : ℕ) (p : Processor Out)
      → IsSound p
      → IsOwn p.waiters item
      → IsSound (drop_if_stale item now p).1
        × AllOwn (drop_if_stale item now p).1.waiters (item ∷ [])
        × ((drop_if_stale item now p).1.worker ≡ p.worker)
  unfolding drop_if_stale
  drop-IsSound item now p h o = elim (Bool-cases (is_settled (waiter_at item.ticket p.waiters))) [
    | inl s ↦ rw (drop_if_stale, s) (h, (o, tt), refl)
    | inr s ↦ elim (Bool-cases (ltb item.deadline now)) [
      | inl d ↦
          rw (drop_if_stale, s, d)
            (
              (
                settle_at-AllOwn item.ticket expired p.waiters p.queue h.0,
                settle_at-AllOwn item.ticket expired p.waiters (in_hand p.worker) h.1,
                settle_at-AllRight item.ticket expired p.waiters (λ v q. tt) h.2,
              ),
              settle_at-AllOwn item.ticket expired p.waiters (item ∷ []) (o, tt),
              refl,
            )
      | inr d ↦ rw (drop_if_stale, s, d) (h, (o, tt), refl)
    ]
  ]

  begun-IsSound :
      (item : Item) (now : ℕ) (r : Bool × Processor Out)
      → IsSound r.1
      → AllOwn r.1.waiters (item ∷ [])
      → IsSound (begun item now r)
  begun-IsSound item now (true, p) h o = h
  begun-IsSound item now (false, p) h o = (h.0, o, h.2)

  filled-IsSound :
      (item : Item) (batch : List Item) (deadline : ℕ) (r : Bool × Processor Out)
      → IsSound r.1
      → AllOwn r.1.waiters batch
      → AllOwn r.1.waiters (item ∷ [])
      → IsSound (filled item batch deadline r)
  filled-IsSound item batch deadline (true, p) h b o = h
  filled-IsSound item batch deadline (false, p) h b o =
      (h.0, snoc-AllOwn p.waiters batch item b o.0, h.2)

  first-IsSound :
      (queue : List Item) (now : ℕ) (p : Processor Out)
      → p.queue ≡ queue
      → IsSound p
      → IsSound (first_from queue now p)
  first-IsSound [] now p q h = h
  first-IsSound (item ∷ queue) now p q h =
      let left : Processor Out = record p { queue = queue } in
      let own = subst (λ items. AllOwn p.waiters items) q h.0 in
      let (kept, still, same) = drop-IsSound item now left (own.1, h.1, h.2) own.0 in
      begun-IsSound item now (drop_if_stale item now left) kept still

  more-IsSound :
      (queue batch : List Item) (deadline taken : ℕ) (p : Processor Out)
      → p.queue ≡ queue
      → p.worker ≡ filling batch deadline
      → IsSound p
      → IsSound (more_from queue batch deadline taken p)
  more-IsSound [] batch deadline taken p q w h = h
  more-IsSound (item ∷ queue) batch deadline taken p q w h =
      let left : Processor Out = record p { queue = queue } in
      let own = subst (λ items. AllOwn p.waiters items) q h.0 in
      let r = drop-IsSound item taken left (own.1, h.1, h.2) own.0 in
      filled-IsSound item batch deadline (drop_if_stale item taken left) r.0
        (subst (λ v. AllOwn (drop_if_stale item taken left).1.waiters (in_hand v)) (r.2 ∙ w) r.0.1)
        r.1

  advance-IsSound :
      (checked taken : ℕ) (w : Phase) (p : Processor Out)
      → p.worker ≡ w
      → IsSound p
      → IsSound (advance checked taken w p)
  unfolding advance
  advance-IsSound checked taken stopped p e h = h
  advance-IsSound checked taken idle p e h = first-IsSound p.queue taken p refl h
  advance-IsSound checked taken (filling batch deadline) p e h =
      let held : AllOwn p.waiters batch = subst (λ w. AllOwn p.waiters (in_hand w)) e h.1 in
      elim (Bool-cases (ltb (length batch) p.max_batch_size)) [
        | inr full ↦ rw (advance, full) (h.0, held, h.2)
        | inl l ↦ elim (Bool-cases (leb deadline checked)) [
          | inl over ↦ rw (advance, l, over) (h.0, held, h.2)
          | inr room ↦ rw (advance, l, room) (more-IsSound p.queue batch deadline taken p refl e h)
        ]
      ]
  advance-IsSound checked taken (inferring batch) p e h = h

  hand_out-AllOwn :
      (batch : List Item) (outputs : List Out) (ws : List (Waiter Out)) (items : List Item)
      → AllOwn ws items
      → AllOwn (hand_out batch outputs ws) items
  unfolding hand_out
  hand_out-AllOwn [] outputs ws items h = h
  hand_out-AllOwn (item ∷ batch) [] ws items h = h
  hand_out-AllOwn (item ∷ batch) (o ∷ outputs) ws items h =
      hand_out-AllOwn batch outputs (settle_at item.ticket (result o) ws) items
        (settle_at-AllOwn item.ticket (result o) ws items h)

  hand_out-AllRight :
      (batch : List Item) (ws : List (Waiter Out))
      → AllOwn ws batch
      → AllRight ws
      → AllRight (hand_out batch (map f (map (λ (item : Item). item.text) batch)) ws)
  unfolding hand_out
  hand_out-AllRight [] ws o h = h
  hand_out-AllRight (item ∷ batch) ws ((w, e, t), o) h =
      hand_out-AllRight batch (settle_at item.ticket (result (f item.text)) ws)
        (settle_at-AllOwn item.ticket (result (f item.text)) ws batch o)
        (settle_at-AllRight item.ticket (result (f item.text)) ws
          (λ v q. ap f (sym t ∙ ap (text_or w) (sym e ∙ q))) h)

  fail_all-AllOwn :
      (batch : List Item) (ws : List (Waiter Out)) (items : List Item)
      → AllOwn ws items
      → AllOwn (fail_all batch ws) items
  unfolding fail_all
  fail_all-AllOwn [] ws items h = h
  fail_all-AllOwn (item ∷ batch) ws items h =
      fail_all-AllOwn batch (settle_at item.ticket runner_error ws) items
        (settle_at-AllOwn item.ticket runner_error ws items h)

  fail_all-AllRight :
      (batch : List Item) (ws : List (Waiter Out)) → AllRight ws → AllRight (fail_all batch ws)
  unfolding fail_all
  fail_all-AllRight [] ws h = h
  fail_all-AllRight (item ∷ batch) ws h =
      fail_all-AllRight batch (settle_at item.ticket runner_error ws)
        (settle_at-AllRight item.ticket runner_error ws (λ v q. tt) h)

  -- The runner raises, or returns for each text its own output, in the order of the texts.
  abbrev pub IsElementwise : (List Text → Option (List Out)) → Type 0
  IsElementwise infer_batch =
      (ts : List Text) → (infer_batch ts ≡ none) ⊎ (infer_batch ts ≡ some (map f ts))

  delivered-IsSound :
      (batch : List Item) (o : Option (List Out)) (p : Processor Out)
      → (o ≡ none) ⊎ (o ≡ some (map f (map (λ (item : Item). item.text) batch)))
      → AllOwn p.waiters batch
      → IsSound p
      → IsSound (delivered batch o p)
  delivered-IsSound batch o p (inl e) b h =
      rw e (fail_all-AllOwn batch p.waiters p.queue h.0, tt, fail_all-AllRight batch p.waiters h.2)
  delivered-IsSound batch o p (inr e) b h =
      rw e
        (hand_out-AllOwn batch _ p.waiters p.queue h.0, tt, hand_out-AllRight batch p.waiters b h.2)

  deliver-IsSound :
      (infer_batch : List Text → Option (List Out)) (w : Phase) (p : Processor Out)
      → IsElementwise infer_batch
      → p.worker ≡ w
      → IsSound p
      → IsSound (deliver infer_batch w p)
  unfolding deliver
  deliver-IsSound infer_batch stopped p r e h = h
  deliver-IsSound infer_batch idle p r e h = h
  deliver-IsSound infer_batch (filling batch deadline) p r e h = h
  deliver-IsSound infer_batch (inferring batch) p r e h =
      delivered-IsSound batch (infer_batch (map (λ (item : Item). item.text) batch)) p
        (r (map (λ (item : Item). item.text) batch))
        (subst (λ w. AllOwn p.waiters (in_hand w)) e h.1) h

  started-AllOwn :
      (w : Phase) (ws : List (Waiter Out)) → AllOwn ws (in_hand w) → AllOwn ws (in_hand (started w))
  started-AllOwn stopped ws h = h
  started-AllOwn idle ws h = h
  started-AllOwn (filling batch deadline) ws h = h
  started-AllOwn (inferring batch) ws h = h

  direct-IsSound : (p : Processor Out) → IsSound p → IsSound (run_direct p)
  unfolding run_direct
  direct-IsSound p h = elim (Bool-cases (leb p.max_queue p.direct_inflight)) [
    | inl e ↦ rw (run_direct, e) h
    | inr e ↦ rw (run_direct, e) h
  ]

  -- Every runner that returns in the events is one for each text.
  abbrev AllowsEvent : Event Out → Type 0
  AllowsEvent (submitted now text) = Unit
  AllowsEvent (gave_up ticket) = Unit
  AllowsEvent (advanced checked taken) = Unit
  AllowsEvent (inferred infer_batch) = IsElementwise infer_batch
  AllowsEvent launched = Unit
  AllowsEvent halted = Unit
  AllowsEvent directed = Unit
  AllowsEvent direct_ended = Unit
  AllowsEvent direct_gave_up = Unit

  abbrev pub AreElementwise : List (Event Out) → Type 0
  AreElementwise [] = Unit
  AreElementwise (e ∷ es) = AllowsEvent e × AreElementwise es

  step-IsSound :
      (e : Event Out) (p : Processor Out) → AllowsEvent e → IsSound p → IsSound (step e p)
  unfolding step time_out start stop direct_done direct_time_out
  step-IsSound (submitted now text) p r h = submit-IsSound now text p h
  step-IsSound (gave_up ticket) p r h = timed_out-IsSound (waiter_at ticket p.waiters) ticket p h
  step-IsSound (advanced checked taken) p r h = advance-IsSound checked taken p.worker p refl h
  step-IsSound (inferred infer_batch) p r h = deliver-IsSound infer_batch p.worker p r refl h
  step-IsSound launched p r h = (h.0, started-AllOwn p.worker p.waiters h.1, h.2)
  step-IsSound halted p r h = (h.0, tt, h.2)
  step-IsSound directed p r h = direct-IsSound p h
  step-IsSound direct_ended p r h = h
  step-IsSound direct_gave_up p r h = h

  run-IsSound :
      (es : List (Event Out)) (p : Processor Out)
      → AreElementwise es
      → IsSound p
      → IsSound (run es p)
  unfolding run
  run-IsSound [] p r h = h
  run-IsSound (e ∷ es) p r h = run-IsSound es (step e p) r.1 (step-IsSound e p r.0 h)

  -- Batching never mixes up the callers: where the runner answers each text with its own output, every
  -- call of `submit` that gets a result gets the one for its own text, however the submits, timeouts,
  -- batches, failures and stops interleave.
  pub run-AllRight :
      (es : List (Event Out)) (max_batch_size max_wait_ms max_queue budget_ms : ℕ)
      → AreElementwise es
      → AllRight (run es (new max_batch_size max_wait_ms max_queue budget_ms)).waiters
  unfolding new
  run-AllRight es max_batch_size max_wait_ms max_queue budget_ms r =
      (run-IsSound es (new max_batch_size max_wait_ms max_queue budget_ms) r (tt, tt, tt)).2
