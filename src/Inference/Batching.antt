-- ===== src/Inference/Batching.antt =====
-- packages/znyx-inference/src/znyx_inference/batching.py. The event loop runs one piece of the code
-- between two awaits at a time; each such piece is a function, and an `Event` says which one runs next. A
-- call of `submit` that waits is a `Waiter`: its text, and the state of its future. The ticket of an item
-- is the position of its waiter. What the runner returns for a batch is an argument. Times are numbers of
-- milliseconds. `stats` is left out.
pub mod Bounds
pub mod Tickets
pub mod Answers
pub mod Held
pub mod Pending
use znyx_runtime.Prelude.{
  ℕ, zero, suc, ◌+◌, ◌-◌, max, Text, Bool, true, false, ltb, leb, Option, none, some, List, [], ◌∷◌,
  ◌++◌, map, length, if◌then◌else◌,
}

pub data Future (Out : Type 0) : Type 0 where
  pending : Future Out
  result : Out → Future Out
  expired : Future Out
  runner_error : Future Out
  cancelled : Future Out

pub record Waiter (Out : Type 0) : Type 0 where
  pub text : Text
  pub future : Future Out

-- The tuple in the queue.
pub record Item : Type 0 where
  pub text : Text
  pub ticket : ℕ
  pub deadline : ℕ

-- Where the worker stands: `filling` waits for the queue until its deadline, `inferring` for the runner.
pub data Phase : Type 0 where
  stopped : Phase
  idle : Phase
  filling : List Item → ℕ → Phase
  inferring : List Item → Phase

-- `BatchProcessor`, with the calls of `submit` that wait.
pub record Processor (Out : Type 0) : Type 0 where
  pub max_batch_size : ℕ
  pub max_wait_ms : ℕ
  pub max_queue : ℕ
  pub budget_ms : ℕ
  pub queue : List Item
  pub worker : Phase
  pub waiters : List (Waiter Out)
  pub direct_inflight : ℕ
  pub batches_processed : ℕ
  pub items_processed : ℕ
  pub rejected : ℕ
  pub expired_dropped : ℕ

abbrev started : Phase → Phase
started stopped = idle
started idle = idle
started (filling batch deadline) = filling batch deadline
started (inferring batch) = inferring batch

module _ {Out : Type 0} where
  -- `BatchProcessor(...)`, of sizes that are not negative.
  unfoldable pub new : (max_batch_size max_wait_ms max_queue budget_ms : ℕ) → Processor Out
  new max_batch_size max_wait_ms max_queue budget_ms = record {
    max_batch_size = max 1 max_batch_size;
    max_wait_ms = max_wait_ms;
    max_queue = max 1 max_queue;
    budget_ms = max 1 budget_ms;
    queue = [];
    worker = stopped;
    waiters = [];
    direct_inflight = 0;
    batches_processed = 0;
    items_processed = 0;
    rejected = 0;
    expired_dropped = 0;
  }

  abbrev pub is_done : Future Out → Bool
  is_done pending = false
  is_done (result o) = true
  is_done expired = true
  is_done runner_error = true
  is_done cancelled = true

  -- `if not fut.done(): fut.set_…`
  abbrev pub settle : Future Out → Waiter Out → Waiter Out
  settle f w = if is_done w.future then w else record w { future = f }

  unfoldable pub settle_at : ℕ → Future Out → List (Waiter Out) → List (Waiter Out)
  settle_at i f [] = []
  settle_at zero f (w ∷ ws) = settle f w ∷ ws
  settle_at (suc i) f (w ∷ ws) = w ∷ settle_at i f ws

  unfoldable pub waiter_at : ℕ → List (Waiter Out) → Option (Waiter Out)
  waiter_at i [] = none
  waiter_at zero (w ∷ ws) = some w
  waiter_at (suc i) (w ∷ ws) = waiter_at i ws

  -- The first part of `submit`: the item is enqueued, or the call raises.
  unfoldable pub submit : (now : ℕ) → Text → Processor Out → Processor Out
  submit now text p =
      if ltb (length p.queue) p.max_queue
      then record p {
        queue =
            p.queue
            ++ record { text = text; ticket = length p.waiters; deadline = now + p.budget_ms } ∷ [];
        waiters = p.waiters ++ record { text = text; future = pending } ∷ [];
      }
      else record p { rejected = suc p.rejected }

  abbrev timed_out : Option (Waiter Out) → ℕ → Processor Out → Processor Out
  timed_out none i p = p
  timed_out (some w) i p =
      if is_done w.future
      then p
      else record p { waiters = settle_at i cancelled p.waiters; rejected = suc p.rejected }

  -- `wait_for` of the `submit` with this ticket times out: it cancels the future and raises.
  unfoldable pub time_out : ℕ → Processor Out → Processor Out
  unfolding settle_at waiter_at
  time_out i p = timed_out (waiter_at i p.waiters) i p

  abbrev is_settled : Option (Waiter Out) → Bool
  is_settled none = true
  is_settled (some w) = is_done w.future

  -- `_drop_if_stale`: whether the item is dropped, and the state.
  unfoldable pub drop_if_stale : Item → ℕ → Processor Out → Bool × Processor Out
  unfolding settle_at waiter_at
  drop_if_stale item now p =
      if is_settled (waiter_at item.ticket p.waiters)
      then (true, record p { expired_dropped = suc p.expired_dropped })
      else if ltb item.deadline now
      then (
        true,
        record p {
          expired_dropped = suc p.expired_dropped;
          waiters = settle_at item.ticket expired p.waiters;
        },
      )
      else (false, p)

  -- `_run` has taken its first item.
  abbrev begun : Item → ℕ → Bool × Processor Out → Processor Out
  begun item now (true, p) = p
  begun item now (false, p) = record p { worker = filling (item ∷ []) (now + p.max_wait_ms) }

  -- `_fill_batch` has taken one more item.
  abbrev filled : Item → List Item → ℕ → Bool × Processor Out → Processor Out
  filled item batch deadline (true, p) = p
  filled item batch deadline (false, p) = record p {
    worker = filling (batch ++ item ∷ []) deadline;
  }

  abbrev first_from : List Item → ℕ → Processor Out → Processor Out
  first_from [] now p = p
  first_from (item ∷ queue) now p =
      begun item now (drop_if_stale item now (record p { queue = queue }))

  abbrev more_from : List Item → List Item → (deadline taken : ℕ) → Processor Out → Processor Out
  more_from [] batch deadline taken p = p
  more_from (item ∷ queue) batch deadline taken p =
      filled item batch deadline (drop_if_stale item taken (record p { queue = queue }))

  -- One turn of the worker's loops: `_run` waits for a first item, `_fill_batch` for more of them, until
  -- the batch is full or its window is over. The clock is read before an item is waited for, and after.
  unfoldable pub advance : (checked taken : ℕ) → Phase → Processor Out → Processor Out
  unfolding drop_if_stale
  advance checked taken stopped p = p
  advance checked taken idle p = first_from p.queue taken p
  advance checked taken (filling batch deadline) p =
      if ltb (length batch) p.max_batch_size
      then if leb deadline checked
        then record p { worker = inferring batch }
        else more_from p.queue batch deadline taken p
      else record p { worker = inferring batch }
  advance checked taken (inferring batch) p = p

  -- `for (_, fut, _), out in zip(batch, outputs)`
  unfoldable pub hand_out : List Item → List Out → List (Waiter Out) → List (Waiter Out)
  unfolding settle_at
  hand_out [] outputs ws = ws
  hand_out (item ∷ batch) [] ws = ws
  hand_out (item ∷ batch) (o ∷ outputs) ws =
      hand_out batch outputs (settle_at item.ticket (result o) ws)

  -- The exception of the runner, to every waiter of the batch.
  unfoldable pub fail_all : List Item → List (Waiter Out) → List (Waiter Out)
  unfolding settle_at
  fail_all [] ws = ws
  fail_all (item ∷ batch) ws = fail_all batch (settle_at item.ticket runner_error ws)

  abbrev delivered : List Item → Option (List Out) → Processor Out → Processor Out
  delivered batch none p = record p { worker = idle; waiters = fail_all batch p.waiters }
  delivered batch (some outputs) p = record p {
    worker = idle;
    batches_processed = suc p.batches_processed;
    items_processed = p.items_processed + length batch;
    waiters = hand_out batch outputs p.waiters;
  }

  -- The runner is done with the batch: with outputs, or `none` where it raises.
  unfoldable pub deliver :
      (infer_batch : List Text → Option (List Out)) → Phase → Processor Out → Processor Out
  unfolding hand_out fail_all
  deliver infer_batch stopped p = p
  deliver infer_batch idle p = p
  deliver infer_batch (filling batch deadline) p = p
  deliver infer_batch (inferring batch) p =
      delivered batch (infer_batch (map (λ (item : Item). item.text) batch)) p

  unfoldable pub start : Processor Out → Processor Out
  start p = record p { worker = started p.worker }

  -- `stop` cancels the worker, and what it holds.
  unfoldable pub stop : Processor Out → Processor Out
  stop p = record p { worker = stopped }

  -- `run_direct` up to its await, and its end: `_direct_done`, or the timeout of its caller.
  unfoldable pub run_direct : Processor Out → Processor Out
  run_direct p =
      if leb p.max_queue p.direct_inflight
      then record p { rejected = suc p.rejected }
      else record p { direct_inflight = suc p.direct_inflight }

  unfoldable pub direct_done : Processor Out → Processor Out
  direct_done p = record p { direct_inflight = p.direct_inflight - 1 }

  unfoldable pub direct_time_out : Processor Out → Processor Out
  direct_time_out p = record p { rejected = suc p.rejected }
