-- ===== src/Checksums/Luhn.antt =====
-- The typing errors that `luhn_check` of utils/luhn.py detects.
use znyx_runtime.Prelude.{
  ℕ, suc, ◌+◌, ◌-◌, ◌%◌, ◌<◌, Text, Bool, true, false, not, ◌&&◌, ◌||◌, ltb, ◌==◌, List, [], ◌∷◌,
  ◌++◌, reverse, all, length, if◌then◌else◌, ◌≡◌, refl, sym, ap, subst, ◌∙◌, arith,
}
use znyx_runtime.Checksums.{
  is_digit, is_digits, digits_of, doubled, luhn_sum, without_separators, luhn_check,
}
use znyx_runtime.Checksums.Verhoeff.{reversed, all-append, digit_bounded, digits_apart}

abbrev weigh : ℕ → ℕ → ℕ
weigh i d = if i % 2 == 1 then doubled d else d

luhn_sum-append :
    (i : ℕ) (xs ys : List ℕ) → luhn_sum i (xs ++ ys) ≡ luhn_sum i xs + luhn_sum (i + length xs) ys
unfolding luhn_sum
luhn_sum-append i [] ys =
    let same : luhn_sum (i + 0) ys ≡ luhn_sum i ys = ap (λ j. luhn_sum j ys) (omega arith) in
    ground (arith, same)
luhn_sum-append i (x ∷ xs) ys =
    let shift : luhn_sum (suc i + length xs) ys ≡ luhn_sum (i + suc (length xs)) ys =
      ap (λ j. luhn_sum j ys) (omega arith) in
    ground (arith, luhn_sum-append (suc i) xs ys, shift)

-- The weight of a digit determines the digit.
weigh_apart : (i x y : ℕ) → x < 10 → y < 10 → (x == y) ≡ false → (weigh i x == weigh i y) ≡ false
weigh_apart i x y hx hy n = ground (arith, hx, hy, n)

weigh_bounded : (i x : ℕ) → x < 10 → weigh i x < 10
weigh_bounded i x h = ground (arith, h)

sums_apart :
    (p v w q : ℕ)
    → v < 10
    → w < 10
    → (v == w) ≡ false
    → ((p + (v + q)) % 10 == 0) ≡ true
    → ((p + (w + q)) % 10 == 0) ≡ false
sums_apart p v w q hv hw n h = ground (arith, hv, hw, n, h)

luhn_sum_single :
    (pre post : List ℕ) (x y : ℕ)
    → x < 10
    → y < 10
    → (x == y) ≡ false
    → (luhn_sum 0 (pre ++ x ∷ post) % 10 == 0) ≡ true
    → (luhn_sum 0 (pre ++ y ∷ post) % 10 == 0) ≡ false
unfolding luhn_sum
luhn_sum_single pre post x y hx hy n h = rw (luhn_sum-append 0 pre (y ∷ post)) (
    sums_apart (luhn_sum 0 pre) (weigh (0 + length pre) x) (weigh (0 + length pre) y)
      (luhn_sum (suc (0 + length pre)) post) (weigh_bounded (0 + length pre) x hx)
      (weigh_bounded (0 + length pre) y hy) (weigh_apart (0 + length pre) x y hx hy n)
      (subst (λ s. (s % 10 == 0) ≡ true) (luhn_sum-append 0 pre (x ∷ post)) h))

without_separators-digits : (t : Text) → all is_digit t ≡ true → without_separators t ≡ t
unfolding without_separators
without_separators-digits [] h = refl
without_separators-digits (c ∷ t) h =
    let later = without_separators-digits t (ground (arith, h)) in
    let kept : ((c == 32) || (c == b'-')) ≡ false = ground (arith, h) in rw (kept, later) refl

refuted : (d e f g h k : Bool) → (d && (f && g)) ≡ true → k ≡ false → (e && (h && k)) ≡ false
refuted d e f g h k p n = ground (arith, p, n)

last_test : (d f g : Bool) → (d && (f && g)) ≡ true → g ≡ true
last_test d f g h = ground (arith, h)

-- What `luhn_check` asks of the number without its separators.
abbrev accepts : Text → Bool
accepts u =
    is_digits u && (not (ltb (length u) 13) && (luhn_sum 0 (reverse (digits_of u)) % 10 == 0))

luhn_check-digits : (t : Text) → all is_digit t ≡ true → luhn_check t ≡ accepts t
unfolding luhn_check
luhn_check-digits t h = ap accepts (without_separators-digits t h)

all_replaced :
    (a b : Text) (x y : ℕ)
    → all is_digit (a ++ x ∷ b) ≡ true
    → is_digit y ≡ true
    → (is_digit x ≡ true) × (all is_digit (a ++ y ∷ b) ≡ true)
all_replaced a b x y h k =
    let split : (all is_digit a && (is_digit x && all is_digit b)) ≡ true =
      sym (all-append a (x ∷ b)) ∙ h in
    (ground (arith, split), all-append a (y ∷ b) ∙ ground (arith, split, k))

-- The check detects every single wrong digit in a number that is written without separators: an accepted
-- one is no longer accepted with one of its digits replaced by another one.
pub luhn_check-single :
    (a b : Text) (x y : ℕ)
    → all is_digit (a ++ x ∷ b) ≡ true
    → is_digit y ≡ true
    → (x == y) ≡ false
    → luhn_check (a ++ x ∷ b) ≡ true
    → luhn_check (a ++ y ∷ b) ≡ false
unfolding digits_of
luhn_check-single a b x y ht hy n h =
    let (hx, ht') = all_replaced a b x y ht hy in
    let before = sym (luhn_check-digits (a ++ x ∷ b) ht) ∙ h in
    let last =
      last_test (is_digits (a ++ x ∷ b)) (not (ltb (length (a ++ x ∷ b)) 13))
        (luhn_sum 0 (reverse (digits_of (a ++ x ∷ b))) % 10 == 0) before in
    luhn_check-digits (a ++ y ∷ b) ht'
    ∙ refuted (is_digits (a ++ x ∷ b)) (is_digits (a ++ y ∷ b)) (not (ltb (length (a ++ x ∷ b)) 13))
        (luhn_sum 0 (reverse (digits_of (a ++ x ∷ b))) % 10 == 0)
        (not (ltb (length (a ++ y ∷ b)) 13))
        (luhn_sum 0 (reverse (digits_of (a ++ y ∷ b))) % 10 == 0) before
        (rw (reversed a (y ∷ []) b) (
          luhn_sum_single (reverse (digits_of b)) (reverse (digits_of a)) (x - b'0') (y - b'0')
            (digit_bounded x hx) (digit_bounded y hy) (digits_apart x y hx hy n)
            (subst (λ l. (luhn_sum 0 l % 10 == 0) ≡ true) (reversed a (x ∷ []) b) last)))
