-- ===== src/Detectors/Consumption/Loops.antt =====
-- The loop detection of detectors/unbounded_consumption.py.
use znyx_runtime.Prelude.Dict
use znyx_runtime.Prelude.{
  ℕ, zero, suc, ◌+◌, ◌≤◌, max, Text, false, leb, eq_text, eq_text_refl, eq_text→eq, Option, none,
  some, [], ◌∷◌, ◌++◌, length, length-snoc, ◌≡◌, refl, sym, ap, ◌∙◌, arith, Bool-cases,
  Option-cases, inl, inr,
}
use znyx_runtime.Inference.Cache.Order.{moved, inserted, lookup-last, lookup-skip}
use znyx_runtime.Detectors.Consumption.{seen_before, touched, touch}

-- After a visit the table has the state, seen once more than before, and no key twice; it has not grown
-- past the cap.
abbrev pub IsTouched : ℕ → Text → Dict.Dict ℕ → Option (ℕ × Dict.Dict ℕ) → Type 0
IsTouched cap g states r =
    (after : Dict.Dict ℕ) × (r ≡ some (suc (seen_before (Dict.lookup g states)), after))
    × (Dict.lookup g after ≡ some (suc (seen_before (Dict.lookup g states))))
    × Dict.IsDict after
    × (length after ≤ max cap (length states))

flipped : (a b : Text) → eq_text a b ≡ false → eq_text b a ≡ false
flipped a b n = elim (Bool-cases (eq_text b a)) [
  | inl e ↦ ground (arith, n, eq_text→eq b a e, eq_text_refl a)
  | inr e ↦ e
]

snoc-IsDict :
    (g : Text) (n : ℕ) (d : Dict.Dict ℕ)
    → Dict.IsDict d
    → Dict.lookup g d ≡ none
    → Dict.IsDict (d ++ (g, n) ∷ [])
unfolding Dict.IsDict Dict.lookup
snoc-IsDict g n [] h e = (refl, tt)
snoc-IsDict g n ((j, w) ∷ d) h e =
    let apart : eq_text j g ≡ false = ground (arith, e) in
    let rest : Dict.lookup g d ≡ none = ground (arith, e) in
    (lookup-skip g j n d (flipped j g apart) ∙ h.0, snoc-IsDict g n d h.1 rest)

rest_there :
    (j k : Text) (w : ℕ) (d : Dict.Dict ℕ)
    → eq_text j k ≡ false
    → Dict.lookup k ((j, w) ∷ d) ≡ Dict.lookup k d
unfolding Dict.lookup
rest_there j k w d n = rw n refl

length-insert :
    (g : Text) (n m : ℕ) (d : Dict.Dict ℕ)
    → Dict.lookup g d ≡ some n
    → length (Dict.insert g m d) ≡ length d
unfolding Dict.lookup Dict.insert
length-insert g n m [] e = cc
length-insert g n m ((j, w) ∷ d) e = elim (Bool-cases (eq_text j g)) [
  | inl s ↦ rw s refl
  | inr s ↦ rw s (ap suc (length-insert g n m d (sym (rest_there j g w d s) ∙ e)))
]

length-erase :
    (g : Text) (n : ℕ) (d : Dict.Dict ℕ)
    → Dict.lookup g d ≡ some n
    → suc (length (Dict.erase g d)) ≡ length d
unfolding Dict.lookup Dict.erase
length-erase g n [] e = cc
length-erase g n ((j, w) ∷ d) e = elim (Bool-cases (eq_text j g)) [
  | inl s ↦ rw s refl
  | inr s ↦ rw s (ap suc (length-erase g n d (sym (rest_there j g w d s) ∙ e)))
]

new_state :
    (cap : ℕ) (g : Text) (states : Dict.Dict ℕ)
    → 1 ≤ cap
    → Dict.IsDict states
    → Dict.lookup g states ≡ none
    → (after : Dict.Dict ℕ) × (touched cap g none states ≡ some (1, after))
      × (Dict.lookup g after ≡ some 1)
      × Dict.IsDict after
      × (length after ≤ max cap (length states))
unfolding Dict.IsDict Dict.lookup
new_state cap g [] c h e =
    let room : leb cap 0 ≡ false = ground (arith, c) in
    (
      (g, 1) ∷ [],
      rw room refl,
      lookup-last g 1 [] refl,
      snoc-IsDict g 1 [] h refl,
      omega (arith, c),
    )
new_state cap g ((j, w) ∷ d) c h e = elim (Bool-cases (leb cap (suc (length d)))) [
  | inl full ↦
      let rest : Dict.lookup g d ≡ none = ground (arith, e) in
      (
        d ++ (g, 1) ∷ [],
        rw full refl,
        lookup-last g 1 d rest,
        snoc-IsDict g 1 d h.1 rest,
        rw (length-snoc d) (omega arith),
      )
  | inr room ↦ (
    (j, w) ∷ d ++ (g, 1) ∷ [],
    rw room refl,
    lookup-last g 1 ((j, w) ∷ d) e,
    snoc-IsDict g 1 ((j, w) ∷ d) h e,
    rw (length-snoc d) (ground (arith, room)),
  )
]

known_state :
    (cap : ℕ) (g : Text) (n : ℕ) (states : Dict.Dict ℕ)
    → Dict.IsDict states
    → Dict.lookup g states ≡ some n
    → (after : Dict.Dict ℕ) × (touched cap g (some n) states ≡ some (suc n, after))
      × (Dict.lookup g after ≡ some (suc n))
      × Dict.IsDict after
      × (length after ≤ max cap (length states))
known_state cap g n states h e =
    let d = Dict.insert g (suc n) states in
    let kept : Dict.IsDict d = Dict.insert-IsDict g (suc n) states h in
    let gone : Dict.lookup g (Dict.erase g d) ≡ none = Dict.lookup-erase_same g d kept in
    let size = length-erase g (suc n) d (inserted g (suc n) states) in
    (
      Dict.erase g d ++ (g, suc n) ∷ [],
      ap (λ x. some (suc n, x)) (moved g (suc n) d (inserted g (suc n) states)),
      lookup-last g (suc n) (Dict.erase g d) gone,
      snoc-IsDict g (suc n) (Dict.erase g d) (Dict.erase-IsDict g d kept) gone,
      rw (length-snoc (Dict.erase g d), size, length-insert g n (suc n) states e) (omega arith),
    )

-- A visit of a state is always counted, also when the table is full: with room for at least one state,
-- the state is in the table afterwards, seen once more than before, and the table stays within its cap.
pub touch-IsTouched :
    (cap : ℕ) (g : Text) (states : Dict.Dict ℕ)
    → 1 ≤ cap
    → Dict.IsDict states
    → IsTouched cap g states (touch cap g states)
unfolding touch
touch-IsTouched cap g states c h = elim (Option-cases (Dict.lookup g states)) [
  | inl e ↦ rw (touch, e) (new_state cap g states c h e)
  | inr (n, e) ↦ rw (touch, e) (known_state cap g n states h e)
]

-- The same state in `n + 1` steps of the agent in a row: how often it was seen at the last one.
abbrev spin_on : ℕ → ℕ → Text → Option (ℕ × Dict.Dict ℕ) → Option (ℕ × Dict.Dict ℕ)
spin_on n cap g none = none
spin_on zero cap g (some (seen, states)) = some (seen, states)
spin_on (suc n) cap g (some (seen, states)) = spin_on n cap g (touch cap g states)

pub spin : ℕ → (cap : ℕ) → Text → Dict.Dict ℕ → Option (ℕ × Dict.Dict ℕ)
spin n cap g states = spin_on n cap g (touch cap g states)

-- An agent that spins on one state is counted step by step, whatever fills the table: after `n + 1` steps
-- in the same state it was seen at least `n + 1` times.
pub spin-counts :
    (n cap : ℕ) (g : Text) (states : Dict.Dict ℕ)
    → 1 ≤ cap
    → Dict.IsDict states
    → (seen : ℕ) × (after : Dict.Dict ℕ) × (spin n cap g states ≡ some (seen, after))
      × (seen ≡ suc n + seen_before (Dict.lookup g states))
unfolding spin
spin-counts zero cap g states c h =
    let (after, e, found, kept, size) = touch-IsTouched cap g states c h in
    (suc (seen_before (Dict.lookup g states)), after, rw e refl, omega arith)
spin-counts (suc n) cap g states c h =
    let (after, e, found, kept, size) = touch-IsTouched cap g states c h in
    let (seen, last, e', count) = spin-counts n cap g after c kept in
    (seen, last, rw e e', count ∙ rw found (omega arith))
