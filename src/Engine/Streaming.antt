-- ===== src/Engine/Streaming.antt =====
-- packages/znyx-core/src/znyx_core/engine/streaming.py and the body of `event_generator` in
-- packages/znyx-runtime/src/znyx_runtime/api/stream_routes.py. The detectors and the clock are
-- arguments: what the detectors answer on a window, and the milliseconds that the n-th window took.
pub mod Drain
pub mod Release
pub mod Delivery
use znyx_runtime.Prelude.{
  ℕ, zero, suc, ◌+◌, ◌-◌, ◌/◌, min, max, ℤ, pos, negsuc, Text, codes, Bool, true, false, not, ◌&&◌,
  Option, none, some, List, [], ◌∷◌, ◌++◌, map, ltb, leb, length, take, drop, if◌then◌else◌,
}
use znyx_runtime.Core.Models.{
  Decision, allow, block, redact, warn, transform, RuleHit, DetectorResult,
}
use znyx_runtime.Core.Aggregate.{aggregate}

-- What a consumer asks for; a negative overlap is not refused.
pub record Config : Type 0 where
  pub window_size : ℕ
  pub overlap : ℤ

abbrev clamp_window : ℤ → ℕ
clamp_window (pos n) = max 50 n
clamp_window (negsuc n) = 50

abbrev clamp_overlap : ℤ → ℕ → ℤ
clamp_overlap (pos n) half = pos (min n half)
clamp_overlap (negsuc n) half = negsuc n

-- `__init__`, as far as it clamps.
unfoldable pub configure : ℤ → ℤ → Config
configure window_size overlap =
    let w = clamp_window window_size in
    record { window_size = w; overlap = clamp_overlap overlap (w / 2) }

-- `self.window_size - self.overlap`
unfoldable pub advance : Config → ℕ
advance c = elim c.overlap [ pos n ↦ c.window_size - n | negsuc n ↦ c.window_size + suc n ]

pub record WindowData : Type 0 where
  pub window_index : ℕ
  pub decision : Decision
  pub risk_score : ℕ
  pub rule_hits : List (Text × Text)
  pub latency_ms : ℕ

pub record Summary : Type 0 where
  pub total_chunks : ℕ
  pub windows_evaluated : ℕ
  pub final_decision : Decision
  pub max_risk_score : ℕ
  pub total_rule_hits : ℕ
  pub total_latency_ms : ℕ
  pub full_text_length : ℕ
  pub released_text_length : ℕ

-- The SSE events. A `guardrail` event carries the preview of its window.
pub data Event : Type 0 where
  guardrail : WindowData → Text → Event
  chunk : Text → ℕ → Event
  blocked_window : WindowData → Event
  already_blocked : Event
  done : Summary → Event

pub record Stream : Type 0 where
  pub buffer : Text
  pub full_text : Text
  pub chunk_count : ℕ
  pub window_count : ℕ
  pub blocked : Bool
  pub released : Text
  pub release_count : ℕ
  pub all_hits : List RuleHit
  pub max_risk : ℕ
  pub total_latency_ms : ℕ

unfoldable pub fresh : Stream
fresh = record {
  buffer = [];
  full_text = [];
  chunk_count = 0;
  window_count = 0;
  blocked = false;
  released = [];
  release_count = 0;
  all_hits = [];
  max_risk = 0;
  total_latency_ms = 0;
}

abbrev pub or_allow : Option Decision → Decision
or_allow none = allow
or_allow (some d) = d

abbrev pub is_block : Decision → Bool
is_block block = true
is_block _ = false

abbrev preview : Text → Text
preview text = if ltb 80 (length text) then take 80 text ++ codes "..." else text

-- `_release`
unfoldable pub release : Text → Stream → Event × Stream
release text s = (
  chunk text (suc s.release_count),
  record s { released = s.released ++ text; release_count = suc s.release_count },
)

-- The end of a round whose window was not blocked: its events, and the stream for the next round.
unfoldable pub release_front : ℕ → Stream → Event × Stream
unfolding release
release_front adv s =
    let (e, s') = release (take adv s.buffer) s in (e, record s' { buffer = drop adv s'.buffer })

module _ (detect : Text → List DetectorResult) (elapsed : ℕ → ℕ) where
  -- The decision on a window.
  abbrev pub verdict : Text → Decision
  verdict text = or_allow (aggregate (detect text)).decision

  -- `_evaluate_window`
  unfoldable pub evaluate_window : Text → Stream → Event × Stream
  evaluate_window text s =
      let result = aggregate (detect text) in
      let n = suc s.window_count in
      let event_data : WindowData = record {
        window_index = n;
        decision = verdict text;
        risk_score = result.risk_score;
        rule_hits = map (λ (h : RuleHit). (h.rule_id, h.message)) result.rule_hits;
        latency_ms = elapsed n;
      } in
      let s' = record s {
        window_count = n;
        total_latency_ms = s.total_latency_ms + elapsed n;
        max_risk = max s.max_risk result.risk_score;
        all_hits = s.all_hits ++ result.rule_hits;
      } in
      if is_block (verdict text)
      then (blocked_window event_data, record s' { blocked = true })
      else (guardrail event_data (preview text), s')

  -- The loop of `push`, with a number of rounds that the length of the buffer bounds.
  unfoldable pub drain : Config → ℕ → Stream → List Event × Stream
  unfolding evaluate_window release_front
  drain c zero s = ([], s)
  drain c (suc fuel) s =
      let (verdict_event, evaluated) = evaluate_window (take c.window_size s.buffer) s in
      let (chunk_event, released) = release_front (advance c) evaluated in
      let (rest, last) = drain c fuel released in
      if leb c.window_size (length s.buffer) && not s.blocked
      then if evaluated.blocked
        then (verdict_event ∷ [], evaluated)
        else (verdict_event ∷ chunk_event ∷ rest, last)
      else ([], s)

  unfoldable pub push : Config → Text → Stream → List Event × Stream
  unfolding drain
  push c text s =
      let s' = record s {
        buffer = s.buffer ++ text;
        full_text = s.full_text ++ text;
        chunk_count = suc s.chunk_count;
      } in
      let drained = drain c (length s'.buffer) s' in
      if s.blocked then (already_blocked ∷ [], s) else drained

  unfoldable pub summary : Stream → Summary
  summary s = record {
    total_chunks = s.chunk_count;
    windows_evaluated = s.window_count;
    final_decision = if s.blocked then block else allow;
    max_risk_score = s.max_risk;
    total_rule_hits = length s.all_hits;
    total_latency_ms = s.total_latency_ms;
    full_text_length = length s.full_text;
    released_text_length = length s.released;
  }

  -- The last window of `flush`.
  unfoldable pub flush_tail : Stream → List Event × Stream
  unfolding evaluate_window release
  flush_tail s =
      let tail = s.buffer in
      let (verdict_event, evaluated) = evaluate_window tail (record s { buffer = [] }) in
      let (chunk_event, released) = release tail evaluated in
      if leb 1 (length s.buffer) && not s.blocked
      then if evaluated.blocked
        then (verdict_event ∷ [], evaluated)
        else (verdict_event ∷ chunk_event ∷ [], released)
      else ([], s)

  unfoldable pub flush : Stream → List Event × Stream
  unfolding flush_tail summary
  flush s = let (events, s') = flush_tail s in (events ++ done (summary s') ∷ [], s')

  -- The loop of `event_generator`: the pushes, up to a blocked one.
  unfoldable pub push_all : Config → List Text → Stream → List Event × Stream
  unfolding push
  push_all c [] s = ([], s)
  push_all c (text ∷ chunks) s =
      let (events, s') = push c text s in
      let (rest, last) = push_all c chunks s' in
      if s'.blocked then (events, s') else (events ++ rest, last)

  -- `event_generator`
  unfoldable pub event_generator : Config → List Text → List Event × Stream
  unfolding push_all flush fresh
  event_generator c chunks =
      let (events, s) = push_all c chunks fresh in
      let (rest, last) = flush s in (events ++ rest, last)
