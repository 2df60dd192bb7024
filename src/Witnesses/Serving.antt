-- ===== src/Witnesses/Serving.antt =====
-- The theorems on streaming, the rate limit and the inference cache, at concrete inputs.
use znyx_runtime.Prelude.{
  ℕ, ◌+◌, ◌-◌, ◌≤◌, ℤ, pos, Text, codes, Bool, true, false, Option, none, some, List, [], ◌∷◌, ◌++◌,
  ◌≡◌, refl, ltb, length, drop, if◌then◌else◌, arith,
}
use znyx_runtime.Prelude.Dict
use znyx_runtime.Core.Models.{DetectorResult}
use znyx_runtime.Engine.Streaming.{
  configure, Stream, fresh, is_block, verdict, push, flush_tail, event_generator,
}
use znyx_runtime.Engine.Streaming.Release.{chunk_texts}
use znyx_runtime.Engine.Streaming.Drain.{IsDrained}
use znyx_runtime.Engine.Streaming.Delivery.{
  IsFaithful, push-IsDrained, event_generator-IsFaithful, chunk_texts-flush_tail,
}
use znyx_runtime.RateLimit.{Limits, limit_of, live}
use znyx_runtime.RateLimit.Window.{serve_all, IsOrdered, granted-serve_all}
use znyx_runtime.Inference.Cache.{Cache}
use znyx_runtime.Witnesses.Samples.{warned, redacted_result}

abbrev detect : Text → List DetectorResult
detect t = if ltb 3 (length t) then warned ∷ [] else redacted_result ∷ []

abbrev no_time : ℕ → ℕ
no_time n = 0

abbrev buffered : Stream
buffered = record fresh { buffer = codes "abc"; full_text = codes "abc" }

event_generator-IsFaithful_example :
    IsFaithful detect no_time (codes "hello " ∷ codes "world" ∷ []) (
      event_generator detect no_time
        (configure (pos 60) (pos 10))
        (codes "hello " ∷ codes "world" ∷ []))
event_generator-IsFaithful_example =
    event_generator-IsFaithful detect no_time (pos 60) 10 (codes "hello " ∷ codes "world" ∷ [])

push-IsDrained_example :
    IsDrained detect no_time
      (configure (pos 60) (pos 10))
      (push detect no_time (configure (pos 60) (pos 10)) (codes "hello") fresh).1
push-IsDrained_example = push-IsDrained detect no_time (pos 60) (pos 10) (codes "hello") fresh

chunk_texts-flush_tail_example :
    chunk_texts (flush_tail detect no_time buffered).0
    ≡ (if is_block (verdict detect no_time buffered.buffer) then [] else buffered.buffer)
unfolding fresh
chunk_texts-flush_tail_example = chunk_texts-flush_tail detect no_time buffered refl

abbrev two : Limits
two = record { requests_per_minute = 1; burst = 1 }

abbrev calls : List (Text × ℕ)
calls =
    (codes "ip:a", 1000)
    ∷ (codes "ip:b", 1500)
    ∷ (codes "ip:a", 2000)
    ∷ (codes "ip:a", 3000)
    ∷ (codes "ip:a", 61500)
    ∷ []

calls-IsOrdered : IsOrdered 0 calls 61500
unfolding IsOrdered
calls-IsOrdered =
    (omega arith, (omega arith, (omega arith, (omega arith, (omega arith, omega arith)))))

granted-serve_all_example :
    length (live 61500 (serve_all two (codes "ip:a") calls []).0) ≤ limit_of two
granted-serve_all_example = granted-serve_all two (codes "ip:a") calls 61500 calls-IsOrdered

one-IsDict : Dict.IsDict {V = List ℕ} ((codes "ip:a", 900 ∷ []) ∷ [])
unfolding Dict.IsDict Dict.lookup
one-IsDict = (refl, tt)

abbrev full : Cache ℕ
full = record {
  maxsize = 2;
  store = (codes "t:a", 1) ∷ (codes "u:b", 2) ∷ [];
  hits = 0;
  misses = 0;
}

full-IsDict : Dict.IsDict full.store
unfolding Dict.IsDict Dict.lookup znyx_runtime.Prelude.eq_text
full-IsDict = (refl, (refl, tt))
