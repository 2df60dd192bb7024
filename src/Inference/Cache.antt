-- ===== src/Inference/Cache.antt =====
-- packages/znyx-inference/src/znyx_inference/cache.py. The store is in the order of the
-- `OrderedDict`, the oldest entry first. SHA-256, the UTF-8 encoding and the JSON text of the
-- parameters are arguments. The lock is left out: each operation holds it from start to end.
pub mod Keys
pub mod Order
use znyx_runtime.Prelude.{
  ℕ, zero, suc, ◌+◌, ◌-◌, ◌*◌, ◌/◌, ◌%◌, max, ℤ, pos, negsuc, Text, codes, eq_text, Bool, true,
  false, not, ◌&&◌, Option, none, some, List, [], ◌∷◌, ◌++◌, ltb, leb, ◌==◌, length, if◌then◌else◌,
}
use znyx_runtime.Prelude.Dict

pub record Cache (V : Type 0) : Type 0 where
  pub maxsize : ℕ
  pub store : Dict.Dict V
  pub hits : ℕ
  pub misses : ℕ

abbrev at_least_one : ℤ → ℕ
at_least_one (pos n) = max 1 n
at_least_one (negsuc n) = 1

unfoldable pub starts_with : Text → Text → Bool
starts_with [] t = true
starts_with (c ∷ p) [] = false
starts_with (c ∷ p) (d ∷ t) = (c == d) && starts_with p t

module _ {V : Type 0} where
  -- `ContentHashCache(maxsize)`
  unfoldable pub new : ℤ → Cache V
  new maxsize = record { maxsize = at_least_one maxsize; store = []; hits = 0; misses = 0 }

  -- `OrderedDict.move_to_end`, for a key that is present.
  unfoldable pub move_to_end : Text → Dict.Dict V → Dict.Dict V
  move_to_end key d = elim (Dict.lookup key d) [
    | none ↦ d
    | some v ↦ Dict.erase key d ++ (key, v) ∷ []
  ]

  unfoldable pub get : Text → Cache V → Option V × Cache V
  unfolding move_to_end
  get key c = elim (Dict.lookup key c.store) [
    | none ↦ (none, record c { misses = suc c.misses })
    | some v ↦ (some v, record c { store = move_to_end key c.store; hits = suc c.hits })
  ]

  -- The loop of `put`: `popitem(last=False)` while there are too many.
  unfoldable pub evict : ℕ → Dict.Dict V → Dict.Dict V
  evict maxsize [] = []
  evict maxsize (e ∷ d) =
      let rest = evict maxsize d in if ltb maxsize (length (e ∷ d)) then rest else e ∷ d

  unfoldable pub put : Text → V → Cache V → Cache V
  unfolding move_to_end evict
  put key v c = record c { store = evict c.maxsize (move_to_end key (Dict.insert key v c.store)) }

  unfoldable pub drop_task : Text → Dict.Dict V → Dict.Dict V
  unfolding starts_with
  drop_task prefix [] = []
  drop_task prefix ((key, v) ∷ d) =
      let rest = drop_task prefix d in if starts_with prefix key then rest else (key, v) ∷ rest

  -- `invalidate_task`: the number of dropped entries, and the cache.
  unfoldable pub invalidate_task : Text → Cache V → ℕ × Cache V
  unfolding drop_task
  invalidate_task task c =
      let store = drop_task (task ++ codes ":") c.store in
      (length c.store - length store, record c { store = store })

  unfoldable pub clear : Cache V → Cache V
  clear c = record c { store = [] }

-- `len(b).to_bytes(4, "big")`; `none` where it raises OverflowError.
unfoldable pub length_bytes : ℕ → Option (List ℕ)
length_bytes n =
    if ltb n 4294967296
    then some ((n / 16777216) ∷ ((n / 65536) % 256) ∷ ((n / 256) % 256) ∷ (n % 256) ∷ [])
    else none

-- The bytes that the hash takes in, part by part.
unfoldable pub framed : List (List ℕ) → Option (List ℕ)
unfolding length_bytes
framed [] = some []
framed (b ∷ parts) = elim (length_bytes (length b)) [
  | none ↦ none
  | some head ↦ elim (framed parts) [ none ↦ none | some rest ↦ some (head ++ (b ++ rest)) ]
]

-- `content_key`
unfoldable pub content_key :
    (sha256 : List ℕ → Text) (utf8 : Text → List ℕ) (params task model_version scope text : Text)
    → Option Text
unfolding framed
content_key sha256 utf8 params task model_version scope text =
    elim (framed (utf8 task ∷ utf8 model_version ∷ utf8 scope ∷ utf8 params ∷ utf8 text ∷ [])) [
      | none ↦ none
      | some bytes ↦ some (task ++ (codes ":" ++ sha256 bytes))
    ]
