-- ===== src/Checksums/Tables.antt =====
-- The tables of `verhoeff_check` in utils/checksums.py, checked entry by entry.
use znyx_runtime.Prelude.{
  ℕ, zero, suc, ◌%◌, ◌<◌, Bool, true, false, not, ◌&&◌, ◌||◌, ltb, ltb→lt, ◌==◌, ==_iff, ◌≡◌, refl,
  arith, Bool-cases, inl, inr,
}
use znyx_runtime.Checksums.{turn}

-- The test holds below a bound.
abbrev below : ℕ → (ℕ → Bool) → Bool
below zero p = true
below (suc n) p = p n && below n p

at : (n : ℕ) (p : ℕ → Bool) (i : ℕ) → below n p ≡ true → i < n → p i ≡ true
at zero p i h l = absurd (omega (arith, l))
at (suc n) p i h l = elim (Bool-cases (i == n)) [
  | inl e ↦ rw ((==_iff i n).0 e) (ground (arith, h))
  | inr e ↦ at n p i (ground (arith, h)) (ground (arith, e, l))
]

-- A test on four numbers, the first one below 8 and the others below 10.
four :
    (p : ℕ → ℕ → ℕ → ℕ → Bool) {k a b c : ℕ}
    → below 8 (λ k. below 10 (λ a. below 10 (λ b. below 10 (λ c. p k a b c)))) ≡ true
    → k < 8
    → a < 10
    → b < 10
    → c < 10
    → p k a b c ≡ true
four p {k} {a} {b} {c} h hk ha hb hc =
    at 10 (p k a b) c
      (at 10 (λ b. below 10 (p k a b)) b
        (at 10 (λ a. below 10 (λ b. below 10 (p k a b))) a
          (at 8 (λ k. below 10 (λ a. below 10 (λ b. below 10 (p k a b)))) k h hk) ha)
        hb)
      hc

-- The tables, checked entry by entry: a turn stays below 10; two states stay different on the same digit;
-- different digits make different states; and so do two digits in either order.
turns_bounded : below 8 (λ k. below 10 (λ c. below 10 (λ d. ltb (turn k c d) 10))) ≡ true
unfolding turn
turns_bounded = refl

states_differ :
    below 8 (λ k.
      below 10 (λ d. below 10 (λ c. below 10 (λ b. (c == b) || not (turn k c d == turn k b d)))))
    ≡ true
unfolding turn
states_differ = refl

digits_differ :
    below 8 (λ k.
      below 10 (λ c. below 10 (λ x. below 10 (λ y. (x == y) || not (turn k c x == turn k c y)))))
    ≡ true
unfolding turn
digits_differ = refl

orders_differ :
    below 8 (λ k. below 10 (λ c. below 10 (λ x.
      below 10 (λ y.
        (x == y) || not (turn (suc k % 8) (turn k c x) y == turn (suc k % 8) (turn k c y) x)))))
    ≡ true
unfolding turn
orders_differ = refl

pub turn_bounded : (k c d : ℕ) → k < 8 → c < 10 → d < 10 → turn k c d < 10
turn_bounded k c d hk hc hd = ltb→lt _ _ (
    at 10 (λ d. ltb (turn k c d) 10) d
      (at 10 (λ c. below 10 (λ d. ltb (turn k c d) 10)) c
        (at 8 (λ k. below 10 (λ c. below 10 (λ d. ltb (turn k c d) 10))) k turns_bounded hk) hc)
      hd)

unequal : (a b : Bool) → (a || not b) ≡ true → a ≡ false → b ≡ false
unequal a b h n = ground (arith, h, n)

pub turn_states :
    (k d c b : ℕ)
    → k < 8
    → d < 10
    → c < 10
    → b < 10
    → (c == b) ≡ false
    → (turn k c d == turn k b d) ≡ false
turn_states k d c b hk hd hc hb n =
    unequal (c == b) _
      (four (λ k d c b. (c == b) || not (turn k c d == turn k b d)) states_differ hk hd hc hb) n

pub turn_digits :
    (k c x y : ℕ)
    → k < 8
    → c < 10
    → x < 10
    → y < 10
    → (x == y) ≡ false
    → (turn k c x == turn k c y) ≡ false
turn_digits k c x y hk hc hx hy n =
    unequal (x == y) _
      (four (λ k c x y. (x == y) || not (turn k c x == turn k c y)) digits_differ hk hc hx hy) n

pub turn_orders :
    (k c x y : ℕ)
    → k < 8
    → c < 10
    → x < 10
    → y < 10
    → (x == y) ≡ false
    → (turn (suc k % 8) (turn k c x) y == turn (suc k % 8) (turn k c y) x) ≡ false
turn_orders k c x y hk hc hx hy n =
    unequal (x == y) _
      (four
        (λ k c x y.
          (x == y) || not (turn (suc k % 8) (turn k c x) y == turn (suc k % 8) (turn k c y) x))
        orders_differ hk hc hx hy)
      n
