-- ===== src/Inference/Batching/Held.antt =====
-- Which calls of batching.py are pending, and where their items are.
use znyx_runtime.Prelude.{
  ℕ, zero, suc, ◌+◌, Text, Bool, true, false, false≢true, ◌||◌, ltb, ◌==◌, ==_iff, Option, none,
  some, List, [], ◌∷◌, ◌++◌, map, length, ◌≡◌, ◌⊎◌, refl, sym, ap, ◌∙◌, arith, Bool-cases, inl, inr,
}
use znyx_runtime.Inference.Batching.{
  Future, expired, cancelled, Waiter, Item, Phase, stopped, idle, filling, inferring, Processor,
  submit, timed_out, settle, settle_at, waiter_at, is_done, is_settled, drop_if_stale, started,
}
use znyx_runtime.Inference.Batching.Bounds.{in_hand}

-- An item with the ticket is in the list.
abbrev pub holds : ℕ → List Item → Bool
holds i [] = false
holds i (item ∷ items) = (item.ticket == i) || holds i items

pub holds-append : (i : ℕ) (xs ys : List Item) → holds i (xs ++ ys) ≡ (holds i xs || holds i ys)
holds-append i [] ys = refl
holds-append i (x ∷ xs) ys = ground (arith, holds-append i xs ys)

-- The ticket is in the queue or with the worker.
abbrev pub IsHeld : ℕ → List Item → List Item → Type 0
IsHeld i queue batch = (holds i queue || holds i batch) ≡ true

-- A ticket that is not the first item's.
pub released :
    (i : ℕ) (item : Item) (queue batch : List Item)
    → IsHeld i (item ∷ queue) batch
    → (item.ticket == i) ≡ false
    → IsHeld i queue batch
released i item queue batch h n = ground (arith, h, n)

-- An item that the worker has taken.
pub taken_up :
    (i : ℕ) (queue batch : List Item) (item : Item)
    → IsHeld i queue batch ⊎ ((item.ticket == i) ≡ true)
    → IsHeld i queue (batch ++ item ∷ [])
taken_up i queue batch item h = rw (holds-append i batch (item ∷ [])) (ground (arith, h))

-- An item at the end of the queue, or a ticket that was held before.
pub enqueued :
    (i : ℕ) (queue : List Item) (item : Item) (batch : List Item)
    → ((holds i queue || holds i batch) ≡ true) ⊎ ((item.ticket == i) ≡ true)
    → (holds i (queue ++ item ∷ []) || holds i batch) ≡ true
enqueued i queue item batch h = rw (holds-append i queue (item ∷ [])) (ground (arith, h))

pub as_held :
    {queue queue' batch batch' : List Item} (i : ℕ)
    → queue ≡ queue'
    → batch ≡ batch'
    → IsHeld i queue batch
    → IsHeld i queue' batch'
as_held {queue} {queue'} {batch} {batch'} i q e h = rw (← q, ← e) h

pub in_queue :
    (i : ℕ) (queue batch : List Item)
    → IsHeld i queue batch
    → holds i batch ≡ false
    → IsHeld i queue []
in_queue i queue batch h n = ground (arith, h, n)

pub length-map :
    (items : List Item) → length (map (λ (item : Item). item.text) items) ≡ length items
length-map [] = refl
length-map (item ∷ items) = ap suc (length-map items)

pub held_only :
    (i : ℕ) (queue batch : List Item) (item : Item)
    → IsHeld i queue batch ⊎ ((true ≡ false) × ((item.ticket == i) ≡ true))
    → IsHeld i queue batch
held_only i queue batch item (inl h) = h
held_only i queue batch item (inr (f, s)) = absurd (false≢true (sym f))

pub in_hand-started : (v : Phase) → in_hand v ≡ in_hand (started v)
in_hand-started stopped = refl
in_hand-started idle = refl
in_hand-started (filling batch deadline) = refl
in_hand-started (inferring batch) = refl

module _ {Out : Type 0} where
  -- The call with the ticket waits, and its future is not done.
  abbrev pub IsPending : ℕ → List (Waiter Out) → Type 0
  IsPending i ws = (w : Waiter Out) × (waiter_at i ws ≡ some w) × (is_done w.future ≡ false)

  pub not_settled :
      (i : ℕ) (ws : List (Waiter Out)) → IsPending i ws → is_settled (waiter_at i ws) ≡ false
  not_settled i ws (w, e, n) = rw e n

  pub settle_done :
      (x : Future Out) (w : Waiter Out) → is_done x ≡ true → is_done (settle x w).future ≡ true
  settle_done x w d = elim (Bool-cases (is_done w.future)) [ inl e ↦ rw e e | inr e ↦ rw e d ]

  abbrev pub done_or : Waiter Out → Option (Waiter Out) → Bool
  done_or w none = is_done w.future
  done_or w (some v) = is_done v.future

  -- Who is still pending after a future was settled was pending before, and is not the one settled.
  pub IsPending-settle_at :
      (i j : ℕ) (x : Future Out) (ws : List (Waiter Out))
      → is_done x ≡ true
      → IsPending i (settle_at j x ws)
      → IsPending i ws × ((j == i) ≡ false)
  unfolding waiter_at settle_at
  IsPending-settle_at i j x [] d (w, e, n) = cc
  IsPending-settle_at zero zero x (w ∷ ws) d (v, e, n) =
      absurd (false≢true (sym n ∙ sym (ap (done_or v) e) ∙ settle_done x w d))
  IsPending-settle_at zero (suc j) x (w ∷ ws) d h = (h, ground arith)
  IsPending-settle_at (suc i) zero x (w ∷ ws) d h = (h, ground arith)
  IsPending-settle_at (suc i) (suc j) x (w ∷ ws) d h =
      let (before, other) = IsPending-settle_at i j x ws d h in (before, ground (arith, other))

  pub IsPending-append :
      (i : ℕ) (ws : List (Waiter Out)) (u : Waiter Out)
      → IsPending i (ws ++ u ∷ [])
      → IsPending i ws ⊎ ((length ws == i) ≡ true)
  unfolding waiter_at
  IsPending-append zero [] u h = inr refl
  IsPending-append (suc i) [] u (w, e, n) = cc
  IsPending-append zero (v ∷ ws) u h = inl h
  IsPending-append (suc i) (v ∷ ws) u h = elim (IsPending-append i ws u h) [
    | inl p ↦ inl p
    | inr e ↦ inr (ground (arith, e))
  ]

  -- Every call that is pending has its item in the queue or with the worker.
  abbrev pub Keeps : Processor Out → Type 0
  Keeps p = (i : ℕ) → IsPending i p.waiters → IsHeld i p.queue (in_hand p.worker)

  pub submit-Keeps :
      (now : ℕ) (text : Text) (p : Processor Out) → Keeps p → Keeps (submit now text p)
  unfolding submit
  submit-Keeps now text p h i = elim (Bool-cases (ltb (length p.queue) p.max_queue)) [
    | inl e ↦
        rw (submit, e)
          (λ w.
            enqueued i p.queue
              (record { text = text; ticket = length p.waiters; deadline = now + p.budget_ms })
              (in_hand p.worker)
              (elim (IsPending-append i p.waiters _ w) [
                | inl before ↦ inl (h i before)
                | inr same ↦ inr same
              ]))
    | inr e ↦ rw (submit, e) (h i)
  ]

  pub timed_out-Keeps :
      (o : Option (Waiter Out)) (j : ℕ) (p : Processor Out) → Keeps p → Keeps (timed_out o j p)
  timed_out-Keeps none j p h i = h i
  timed_out-Keeps (some v) j p h i = elim (Bool-cases (is_done v.future)) [
    | inl e ↦ rw e (h i)
    | inr e ↦ rw e (λ w. h i (IsPending-settle_at i j cancelled p.waiters refl w).0)
  ]

  -- After the check of an item, what is pending is held by the rest, unless the item is kept.
  abbrev pub DropKeeps : Item → List Item → List Item → Bool × Processor Out → Type 0
  DropKeeps item queue batch r =
      (i : ℕ)
      → IsPending i r.1.waiters
      → IsHeld i queue batch ⊎ ((r.0 ≡ false) × ((item.ticket == i) ≡ true))

  pub drop-keeps :
      (item : Item) (queue batch : List Item) (now : ℕ) (p : Processor Out)
      → ((i : ℕ) → IsPending i p.waiters → IsHeld i (item ∷ queue) batch)
      → DropKeeps item queue batch (drop_if_stale item now p)
  unfolding drop_if_stale
  drop-keeps item queue batch now p h i =
      elim (Bool-cases (is_settled (waiter_at item.ticket p.waiters))) [
        | inl s ↦
            rw (drop_if_stale, s)
              (λ w. elim (Bool-cases (item.ticket == i)) [
                | inl same ↦
                    let at : item.ticket ≡ i = (==_iff _ _).0 same in
                    absurd (false≢true (sym (not_settled i p.waiters w) ∙ rw (← at) s))
                | inr other ↦ inl (released i item queue batch (h i w) other)
              ])
        | inr s ↦ elim (Bool-cases (ltb item.deadline now)) [
          | inl d ↦
              rw (drop_if_stale, s, d)
                (λ w.
                  let (before, other) =
                    IsPending-settle_at i item.ticket expired p.waiters refl w in
                  inl (released i item queue batch (h i before) other))
          | inr d ↦
              rw (drop_if_stale, s, d)
                (λ w. elim (Bool-cases (item.ticket == i)) [
                  | inl same ↦ inr (refl, same)
                  | inr other ↦ inl (released i item queue batch (h i w) other)
                ])
        ]
      ]

  pub drop-same :
      (item : Item) (now : ℕ) (p : Processor Out)
      → ((drop_if_stale item now p).1.queue ≡ p.queue)
        × ((drop_if_stale item now p).1.worker ≡ p.worker)
  unfolding drop_if_stale
  drop-same item now p = elim (Bool-cases (is_settled (waiter_at item.ticket p.waiters))) [
    | inl s ↦ rw (drop_if_stale, s) (refl, refl)
    | inr s ↦ elim (Bool-cases (ltb item.deadline now)) [
      | inl d ↦ rw (drop_if_stale, s, d) (refl, refl)
      | inr d ↦ rw (drop_if_stale, s, d) (refl, refl)
    ]
  ]

  pub held_or :
      (i : ℕ) (queue batch : List Item) (item : Item) (r : Bool × Processor Out)
      → IsHeld i queue batch ⊎ ((r.0 ≡ false) × ((item.ticket == i) ≡ true))
      → IsHeld i queue batch ⊎ ((item.ticket == i) ≡ true)
  held_or i queue batch item r (inl h) = inl h
  held_or i queue batch item r (inr (f, s)) = inr s
