-- ===== src/Inference/Cache/Order.antt =====
-- `ContentHashCache` of znyx_inference/cache.py as a bounded map.
use znyx_runtime.Prelude.{
  ℕ, zero, suc, ◌-◌, ◌≤◌, Text, codes, eq_text, eq_text_refl, eq_text→eq, false, none, some, [],
  ◌∷◌, ◌++◌, ltb, length, drop, if◌then◌else◌, ◌≡◌, refl, sym, ◌∙◌, arith, Bool-cases, Option-cases,
  inl, inr,
}
use znyx_runtime.Prelude.Dict
use znyx_runtime.Inference.Cache.{
  Cache, move_to_end, get, evict, put, drop_task, invalidate_task, starts_with,
}

module _ {V : Type 0} where
  drop_nil : (n : ℕ) → drop n [] ≡ drop {A = Text × V} 0 []
  drop_nil zero = refl
  drop_nil (suc n) = refl

  evict-drop : (m : ℕ) (d : Dict.Dict V) → evict m d ≡ drop (length d - m) d
  unfolding evict
  evict-drop m [] = sym (drop_nil (0 - m))
  evict-drop m (e ∷ d) = elim (Bool-cases (ltb m (length (e ∷ d)))) [
    | inl b ↦
        let more : suc (length d) - m ≡ suc (length d - m) = ground (arith, b) in
        rw (b, more) (evict-drop m d)
    | inr b ↦ let none_more : suc (length d) - m ≡ 0 = ground (arith, b) in rw (b, none_more) refl
  ]

  length-evict : (m : ℕ) (d : Dict.Dict V) → length (evict m d) ≤ m
  unfolding evict
  length-evict m [] = omega arith
  length-evict m (e ∷ d) = elim (Bool-cases (ltb m (length (e ∷ d)))) [
    | inl b ↦ rw b (length-evict m d)
    | inr b ↦ rw b (ground (arith, b))
  ]

  pub moved :
      (key : Text) (v : V) (d : Dict.Dict V)
      → Dict.lookup key d ≡ some v
      → move_to_end key d ≡ Dict.erase key d ++ (key, v) ∷ []
  unfolding move_to_end
  moved key v d e = rw (move_to_end, e) refl

  pub inserted :
      (key : Text) (v : V) (d : Dict.Dict V) → Dict.lookup key (Dict.insert key v d) ≡ some v
  inserted key v d = Dict.lookup-insert key key v d ∙ rw (eq_text_refl key) refl

  -- `put` moves the entry to the newest place and drops as many of the oldest ones as there are too
  -- many.
  pub store-put :
      (key : Text) (v : V) (c : Cache V)
      → let d = Dict.erase key (Dict.insert key v c.store) ++ (key, v) ∷ [] in
        (put key v c).store ≡ drop (length d - c.maxsize) d
  unfolding put
  store-put key v c =
      rw (moved key v (Dict.insert key v c.store) (inserted key v c.store)) (evict-drop c.maxsize _)

  -- After `put`, the cache holds at most `maxsize` entries.
  pub length-put : (key : Text) (v : V) (c : Cache V) → length (put key v c).store ≤ c.maxsize
  unfolding put
  length-put key v c = length-evict c.maxsize (move_to_end key (Dict.insert key v c.store))

  pub lookup-last :
      (key : Text) (v : V) (d : Dict.Dict V)
      → Dict.lookup key d ≡ none
      → Dict.lookup key (d ++ (key, v) ∷ []) ≡ some v
  unfolding Dict.lookup
  lookup-last key v [] h = rw (eq_text_refl key) refl
  lookup-last key v ((j, w) ∷ d) h = ground (arith, h, lookup-last key v d)

  none_later :
      (key j : Text) (w : V) (d : Dict.Dict V)
      → Dict.lookup key ((j, w) ∷ d) ≡ none
      → Dict.lookup key d ≡ none
  unfolding Dict.lookup
  none_later key j w d h = ground (arith, h)

  pub lookup-skip :
      (key other : Text) (v : V) (d : Dict.Dict V)
      → eq_text key other ≡ false
      → Dict.lookup other (d ++ (key, v) ∷ []) ≡ Dict.lookup other d
  unfolding Dict.lookup
  lookup-skip key other v [] n = rw n refl
  lookup-skip key other v ((j, w) ∷ d) n = ground (arith, lookup-skip key other v d n)

  lookup-evict_last :
      (m : ℕ) (key : Text) (v : V) (d : Dict.Dict V)
      → 1 ≤ m
      → Dict.lookup key d ≡ none
      → Dict.lookup key (evict m (d ++ (key, v) ∷ [])) ≡ some v
  unfolding evict Dict.lookup
  lookup-evict_last m key v [] p h =
      let fits : ltb m 1 ≡ false = ground (arith, p) in rw fits (lookup-last key v [] refl)
  lookup-evict_last m key v ((j, w) ∷ d) p h =
      elim (Bool-cases (ltb m (suc (length (d ++ (key, v) ∷ []))))) [
        | inl b ↦ rw b (lookup-evict_last m key v d p (none_later key j w d h))
        | inr b ↦ rw b (lookup-last key v ((j, w) ∷ d) h)
      ]

  -- In a cache with room for an entry, and with no key twice, what `put` stored is found, whatever it
  -- had to evict.
  pub get-put :
      (key : Text) (v : V) (c : Cache V)
      → 1 ≤ c.maxsize
      → Dict.IsDict c.store
      → (get key (put key v c)).0 ≡ some v
  unfolding get put
  get-put key v c m h =
      let d = Dict.insert key v c.store in
      let found : Dict.lookup key (evict c.maxsize (move_to_end key d)) ≡ some v =
        rw (moved key v d (inserted key v c.store)) (
          lookup-evict_last c.maxsize key v (Dict.erase key d) m
            (Dict.lookup-erase_same key d (Dict.insert-IsDict key v c.store h))) in
      rw (get, found) refl

  -- Reading changes the order only: in a store with no key twice every key still has its value.
  pub lookup-get :
      (key other : Text) (c : Cache V)
      → Dict.IsDict c.store
      → Dict.lookup other (get key c).1.store ≡ Dict.lookup other c.store
  unfolding get
  lookup-get key other c h = elim (Option-cases (Dict.lookup key c.store)) [
    | inl e ↦ rw (get, e) refl
    | inr (v, e) ↦
        rw (get, e)
          (rw (moved key v c.store e) (elim (Bool-cases (eq_text key other)) [
            | inl k ↦ rw (sym (eq_text→eq key other k)) (
                lookup-last key v (Dict.erase key c.store) (Dict.lookup-erase_same key c.store h)
                ∙ sym e)
            | inr k ↦
                lookup-skip key other v (Dict.erase key c.store) k
                ∙ Dict.lookup-erase_other key other c.store k
          ]))
  ]

  lookup-drop_task :
      (prefix key : Text) (d : Dict.Dict V)
      → Dict.lookup key (drop_task prefix d)
        ≡ (if starts_with prefix key then none else Dict.lookup key d)
  unfolding drop_task Dict.lookup
  lookup-drop_task prefix key [] = ground arith
  lookup-drop_task prefix key ((j, w) ∷ d) =
      ground (arith, eq_text→eq j key, lookup-drop_task prefix key d)

  -- Invalidating a task drops the entries whose key starts with its prefix, and no other.
  pub lookup-invalidate_task :
      (task key : Text) (c : Cache V)
      → Dict.lookup key (invalidate_task task c).1.store
        ≡ (if starts_with (task ++ codes ":") key then none else Dict.lookup key c.store)
  unfolding invalidate_task
  lookup-invalidate_task task key c = lookup-drop_task (task ++ codes ":") key c.store
