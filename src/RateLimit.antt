-- ===== src/RateLimit.antt =====
-- packages/znyx-core/src/znyx_core/middleware/rate_limit.py. Times are milliseconds. The Redis
-- client (with its state `R`, and `none` where a call raises), the hash of an API key and the
-- application behind the middleware are arguments.
pub mod Window
pub mod Cleanup
pub mod Proxy
use znyx_runtime.Prelude.{
  map, strip, ℕ, zero, suc, ◌+◌, ◌-◌, ◌*◌, ◌/◌, ◌%◌, min, max, Text, codes, eq_text, mem_text, Bool,
  true, false, not, ◌&&◌, ◌||◌, Option, none, some, List, [], ◌∷◌, ◌++◌, ltb, leb, ◌==◌, length,
  drop, if◌then◌else◌,
}
use znyx_runtime.Prelude.Dict

-- `self.window`
abbrev pub window : ℕ
window = 60000

pub record Limits : Type 0 where
  pub requests_per_minute : ℕ
  pub burst : ℕ

abbrev pub limit_of : Limits → ℕ
limit_of l = l.requests_per_minute + l.burst

-- The answer of a limiter: allowed, limit, remaining, reset_at.
pub record Answer : Type 0 where
  pub allowed : Bool
  pub limit : ℕ
  pub remaining : ℕ
  pub reset_at : ℕ

-- `self._requests`
abbrev pub Requests : Type 0
Requests = Dict.Dict (List ℕ)

-- `t > now - window`
abbrev pub is_live : ℕ → ℕ → Bool
is_live now t = ltb now (t + window)

unfoldable pub live : ℕ → List ℕ → List ℕ
live now [] = []
live now (t ∷ ts) = if is_live now t then t ∷ live now ts else live now ts

abbrev pub or_empty : Option (List ℕ) → List ℕ
or_empty none = []
or_empty (some ts) = ts

-- An entry of the `defaultdict`.
unfoldable pub timestamps : Text → Requests → List ℕ
timestamps key s = or_empty (Dict.lookup key s)

abbrev pub first_or : ℕ → List ℕ → ℕ
first_or d [] = d
first_or d (t ∷ ts) = t + window

module _ (limits : Limits) where
  -- `SlidingWindowCounter.is_allowed`
  unfoldable pub is_allowed : Text → ℕ → Requests → Answer × Requests
  unfolding live timestamps
  is_allowed key now s =
      let ts = live now (timestamps key s) in
      if leb (limit_of limits) (length ts)
      then (
        record {
          allowed = false;
          limit = limit_of limits;
          remaining = 0;
          reset_at = first_or (now + window) ts;
        },
        Dict.insert key ts s,
      )
      else (
        record {
          allowed = true;
          limit = limit_of limits;
          remaining = limit_of limits - length (ts ++ now ∷ []);
          reset_at = now + window;
        },
        Dict.insert key (ts ++ now ∷ []) s,
      )

-- `SlidingWindowCounter.cleanup`
unfoldable pub all_stale : ℕ → List ℕ → Bool
all_stale now [] = true
all_stale now (t ∷ ts) = leb (t + window) now && all_stale now ts

unfoldable pub cleanup : ℕ → Requests → Requests
unfolding all_stale
cleanup now [] = []
cleanup now ((key, ts) ∷ s) =
    let rest = cleanup now s in if all_stale now ts then rest else (key, ts) ∷ rest

-- `RedisFixedWindowCounter`
pub record RedisClient (R : Type 0) : Type 0 where
  pub incr : Text → R → Option ℕ × R
  pub expire : Text → ℕ → R → Bool × R

module _ {R : Type 0} (client : RedisClient R) (prefix : Text) (decimal : ℕ → Text)
    (limits : Limits) where
  abbrev redis_key : Text → ℕ → Text
  redis_key key window_id = prefix ++ (codes ":" ++ (key ++ (codes ":" ++ decimal window_id)))

  -- `is_allowed`; `none` where the client raises.
  unfoldable pub redis_allowed : Text → ℕ → R → Option Answer × R
  redis_allowed key now r =
      let window_id = now / window in
      let (counted, r') = client.incr (redis_key key window_id) r in
      elim counted [
        | none ↦ (none, r')
        | some count ↦
            let answer : Answer = record {
              allowed = leb count (limit_of limits);
              limit = limit_of limits;
              remaining = limit_of limits - count;
              reset_at = (window_id + 1) * window;
            } in
            let (expired, r'') = client.expire (redis_key key window_id) 120 r' in
            if count == 1 then (if expired then some answer else none, r'') else (some answer, r')
      ]

-- The middleware's state: both in-memory limiters and the Redis side.
pub record Middleware (R : Type 0) : Type 0 where
  pub ip_requests : Requests
  pub key_requests : Requests
  pub redis_degraded : Bool
  pub redis : R

-- `header.split(",")`
abbrev onto_first : ℕ → List Text → List Text
onto_first c [] = (c ∷ []) ∷ []
onto_first c (p ∷ ps) = (c ∷ p) ∷ ps

unfoldable pub split_at : ℕ → Text → List Text
split_at separator [] = [] ∷ []
split_at separator (c ∷ t) =
    let rest = split_at separator t in if c == separator then [] ∷ rest else onto_first c rest

-- `[p.strip() for p in header.split(",")]`
unfoldable pub parts_of : Text → List Text
unfolding split_at
parts_of header = map strip (split_at 44 header)

-- `_get_client_ip`, from the header and the peer's address. A proxy depth that is not positive is 0.
abbrev nth : ℕ → List Text → Option Text
nth i [] = none
nth zero (p ∷ ps) = some p
nth (suc i) (p ∷ ps) = nth i ps

abbrev or_peer : Option Text → Option Text → Text
or_peer (some p) peer = p
or_peer none (some h) = h
or_peer none none = codes "unknown"

-- `parts[-depth]`, if there are so many parts.
unfoldable pub from_right : ℕ → List Text → Option Text
from_right depth parts = if leb depth (length parts) then nth (length parts - depth) parts else none

unfoldable pub get_client_ip : ℕ → Option Text → Option Text → Text
unfolding from_right parts_of
get_client_ip zero header peer = or_peer none peer
get_client_ip (suc n) none peer = or_peer none peer
get_client_ip (suc n) (some []) peer = or_peer none peer
get_client_ip (suc n) (some (c ∷ h)) peer = or_peer (from_right (suc n) (parts_of (c ∷ h))) peer

-- `_check`: the answer, the in-memory limiter, the degraded flag and the Redis state.
unfoldable pub check :
    {R : Type 0}
    → Option (Text → ℕ → R → Option Answer × R)
    → Limits
    → Text
    → ℕ
    → Requests
    → Bool
    → R
    → Answer × Requests × Bool × R
unfolding is_allowed
check none limits key now s degraded r =
    let (a, s') = is_allowed limits key now s in (a, s', degraded, r)
check (some redis) limits key now s degraded r =
    let (a, s') = is_allowed limits key now s in
    let (answered, r') = redis key now r in
    elim answered [ some answer ↦ (answer, s, false, r') | none ↦ (a, s', true, r') ]

-- What `dispatch` returns: status 429 with its headers, or the application's response with headers.
pub data Reply (X : Type 0) : Type 0 where
  too_many : (retry_after limit reset : ℕ) → Reply X
  untouched : X → Reply X
  served : X → (limit remaining reset : ℕ) → Reply X

pub record Request : Type 0 where
  pub path : Text
  pub forwarded_for : Option Text
  pub peer : Option Text
  pub api_key : Option Text

abbrev bypass_paths : List Text
bypass_paths = codes "/healthz" ∷ codes "/readyz" ∷ []

module _ {R X : Type 0} (enabled : Bool) (trusted_proxy_depth : ℕ) (limits : Limits)
    (redis : Option (Text → ℕ → R → Option Answer × R)) (hash : Text → Text)
    (call_next : Request → X) where
  -- `max(1, int(reset_at - time.time()))`, in seconds.
  abbrev too_many_of : ℕ → Answer → Reply X
  too_many_of now a = too_many (max 1 ((a.reset_at - now) / 1000)) a.limit (a.reset_at / 1000)

  -- The limit per API key, after the one per address has allowed the request.
  unfoldable pub check_key : Request → ℕ → Answer → Middleware R → Reply X × Middleware R
  unfolding check
  check_key req now ip m = elim req.api_key [
    | none ↦ (served (call_next req) ip.limit ip.remaining (ip.reset_at / 1000), m)
    | some [] ↦ (served (call_next req) ip.limit ip.remaining (ip.reset_at / 1000), m)
    | some (c ∷ k) ↦
        let (a, s', degraded, r') =
          check redis limits (codes "key:" ++ hash (c ∷ k)) now m.key_requests m.redis_degraded
            m.redis in
        let m' = record m { key_requests = s'; redis_degraded = degraded; redis = r' } in
        if a.allowed
        then (
          served (call_next req) (min ip.limit a.limit) (min ip.remaining a.remaining)
              (min ip.reset_at a.reset_at / 1000),
          m',
        )
        else (too_many_of now a, m')
  ]

  -- `dispatch`, at one moment of the clock.
  unfoldable pub dispatch : Request → ℕ → Middleware R → Reply X × Middleware R
  unfolding check_key
  dispatch req now m =
      let (ip, s', degraded, r') =
        check redis limits
          (codes "ip:" ++ get_client_ip trusted_proxy_depth req.forwarded_for req.peer) now
          m.ip_requests m.redis_degraded m.redis in
      let m' = record m { ip_requests = s'; redis_degraded = degraded; redis = r' } in
      if not enabled || mem_text req.path bypass_paths
      then (untouched (call_next req), m)
      else if ip.allowed
      then check_key req now ip m'
      else (too_many_of now ip, m')
