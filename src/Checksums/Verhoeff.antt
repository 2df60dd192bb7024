-- ===== src/Checksums/Verhoeff.antt =====
-- The typing errors that `verhoeff_check` of utils/checksums.py detects.
use mathlib.Core.List.{reverse_aux, reverse-append}
use znyx_runtime.Prelude.{
  ℕ, suc, ◌+◌, ◌-◌, ◌%◌, ◌<◌, Text, Bool, true, false, ◌&&◌, ◌==◌, List, [], ◌∷◌, ◌++◌, reverse,
  all, length, append_assoc, ◌≡◌, refl, sym, ap, ◌∙◌, arith,
}
use znyx_runtime.Checksums.{turn, verhoeff_from, is_digit, is_digits, digits_of, verhoeff_check}
use znyx_runtime.Checksums.Tables.{turn_bounded, turn_states, turn_digits, turn_orders}

abbrev pub AreDigits : List ℕ → Type 0
AreDigits [] = Unit
AreDigits (d ∷ ds) = (d < 10) × AreDigits ds

verhoeff_from-append :
    (i c : ℕ) (xs ys : List ℕ)
    → verhoeff_from i c (xs ++ ys) ≡ verhoeff_from (i + length xs) (verhoeff_from i c xs) ys
unfolding verhoeff_from
verhoeff_from-append i c [] ys = ap (λ j. verhoeff_from j c ys) (omega arith)
verhoeff_from-append i c (x ∷ xs) ys =
    verhoeff_from-append (suc i) (turn (i % 8) c x) xs ys
    ∙ ap (λ j. verhoeff_from j (verhoeff_from (suc i) (turn (i % 8) c x) xs) ys) (omega arith)

verhoeff_from_bounded : (i c : ℕ) (ds : List ℕ) → c < 10 → AreDigits ds → verhoeff_from i c ds < 10
unfolding verhoeff_from
verhoeff_from_bounded i c [] h d = h
verhoeff_from_bounded i c (x ∷ ds) h d =
    verhoeff_from_bounded (suc i) (turn (i % 8) c x) ds
      (turn_bounded (i % 8) c x (omega arith) h d.0) d.1

-- Different states stay different.
verhoeff_from-apart :
    (i c b : ℕ) (ds : List ℕ)
    → c < 10
    → b < 10
    → AreDigits ds
    → (c == b) ≡ false
    → (verhoeff_from i c ds == verhoeff_from i b ds) ≡ false
unfolding verhoeff_from
verhoeff_from-apart i c b [] hc hb d n = n
verhoeff_from-apart i c b (x ∷ ds) hc hb d n =
    verhoeff_from-apart (suc i) (turn (i % 8) c x) (turn (i % 8) b x) ds
      (turn_bounded (i % 8) c x (omega arith) hc d.0)
      (turn_bounded (i % 8) b x (omega arith) hb d.0) d.1
      (turn_states (i % 8) x c b (omega arith) d.0 hc hb n)

-- From every state, the two readings lead to different states.
abbrev AreApart : List ℕ → List ℕ → Type 0
AreApart m n = (i c : ℕ) → c < 10 → (verhoeff_from i c m == verhoeff_from i c n) ≡ false

single_apart : (x y : ℕ) → x < 10 → y < 10 → (x == y) ≡ false → AreApart (x ∷ []) (y ∷ [])
unfolding verhoeff_from
single_apart x y hx hy n i c h = turn_digits (i % 8) c x y (omega arith) h hx hy n

swapped_apart : (x y : ℕ) → x < 10 → y < 10 → (x == y) ≡ false → AreApart (x ∷ y ∷ []) (y ∷ x ∷ [])
unfolding verhoeff_from
swapped_apart x y hx hy n i c h =
    let step : suc i % 8 ≡ suc (i % 8) % 8 = omega arith in
    rw step (turn_orders (i % 8) c x y (omega arith) h hx hy n)

-- One misread stretch of the number, given from its last digit, changes the final state.
read_apart :
    (pre m n post : List ℕ)
    → AreDigits pre
    → AreDigits m
    → AreDigits n
    → AreDigits post
    → length m ≡ length n
    → AreApart m n
    → (verhoeff_from 0 0 (pre ++ (m ++ post)) == verhoeff_from 0 0 (pre ++ (n ++ post))) ≡ false
read_apart pre m n post hpre hm hn hpost l k =
    let c = verhoeff_from 0 0 pre in
    let hc = verhoeff_from_bounded 0 0 pre (omega arith) hpre in
    rw
      (
        verhoeff_from-append 0 0 pre (m ++ post),
        verhoeff_from-append 0 0 pre (n ++ post),
        verhoeff_from-append (0 + length pre) c m post,
        verhoeff_from-append (0 + length pre) c n post,
        l,
      )
      (verhoeff_from-apart (0 + length pre + length n) _ _ post
        (verhoeff_from_bounded (0 + length pre) c m hc hm)
        (verhoeff_from_bounded (0 + length pre) c n hc hn) hpost (k (0 + length pre) c hc))

pub all-append : (a b : Text) → all is_digit (a ++ b) ≡ (all is_digit a && all is_digit b)
all-append [] b = refl
all-append (c ∷ a) b = ground (arith, all-append a b)

pub digits_of-append : (a b : Text) → digits_of (a ++ b) ≡ digits_of a ++ digits_of b
unfolding digits_of
digits_of-append [] b = refl
digits_of-append (c ∷ a) b = ap (λ r. (c - b'0') ∷ r) (digits_of-append a b)

pub digits_of-AreDigits : (t : Text) → all is_digit t ≡ true → AreDigits (digits_of t)
unfolding digits_of
digits_of-AreDigits [] h = tt
digits_of-AreDigits (c ∷ t) h = (ground (arith, h), digits_of-AreDigits t (ground (arith, h)))

pub reverse-AreDigits : (ds r : List ℕ) → AreDigits ds → AreDigits r → AreDigits (reverse_aux ds r)
reverse-AreDigits [] r h k = k
reverse-AreDigits (d ∷ ds) r h k = reverse-AreDigits ds (d ∷ r) h.1 (h.0, k)

pub reversed :
    (a m b : Text)
    → reverse (digits_of (a ++ (m ++ b)))
      ≡ reverse (digits_of b) ++ (reverse (digits_of m) ++ reverse (digits_of a))
reversed a m b =
    ap reverse (digits_of-append a (m ++ b) ∙ ap (λ r. digits_of a ++ r) (digits_of-append m b))
    ∙ reverse-append (digits_of a) (digits_of m ++ digits_of b)
    ∙ ap (λ r. r ++ reverse (digits_of a)) (reverse-append (digits_of m) (digits_of b))
    ∙ append_assoc (reverse (digits_of b)) (reverse (digits_of m)) (reverse (digits_of a))

all_digits : (t : Text) → verhoeff_check t ≡ true → all is_digit t ≡ true
unfolding verhoeff_check is_digits
all_digits t h = ground (arith, h)

one_digit : (x : ℕ) → is_digit x ≡ true → all is_digit (x ∷ []) ≡ true
one_digit x h = ground (arith, h)

two_digits : (x y : ℕ) → is_digit x ≡ true → is_digit y ≡ true → all is_digit (x ∷ y ∷ []) ≡ true
two_digits x y h k = ground (arith, h, k)

pub digit_bounded : (x : ℕ) → is_digit x ≡ true → x - b'0' < 10
digit_bounded x h = ground (arith, h)

pub digits_apart :
    (x y : ℕ)
    → is_digit x ≡ true
    → is_digit y ≡ true
    → (x == y) ≡ false
    → ((x - b'0') == (y - b'0')) ≡ false
digits_apart x y h k n = ground (arith, h, k, n)

flipped : (x y : ℕ) → (x == y) ≡ false → (y == x) ≡ false
flipped x y n = ground (arith, n)

refuted :
    (d e : Bool) (f g : ℕ) → (d && (f == 0)) ≡ true → (f == g) ≡ false → (e && (g == 0)) ≡ false
refuted d e f g h n = ground (arith, h, n)

-- One stretch of an accepted number is read as other digits.
misread :
    (a m n b : Text)
    → verhoeff_check (a ++ (m ++ b)) ≡ true
    → all is_digit m ≡ true
    → all is_digit n ≡ true
    → length (reverse (digits_of m)) ≡ length (reverse (digits_of n))
    → AreApart (reverse (digits_of m)) (reverse (digits_of n))
    → verhoeff_check (a ++ (n ++ b)) ≡ false
unfolding verhoeff_check is_digits
misread a m n b h hm hn l k =
    let digits = all_digits (a ++ (m ++ b)) h in
    let split : (all is_digit a && (all is_digit m && all is_digit b)) ≡ true =
      sym (all-append a (m ++ b) ∙ ap (λ x. all is_digit a && x) (all-append m b)) ∙ digits in
    let ha : all is_digit a ≡ true = ground (arith, split) in
    let hb : all is_digit b ≡ true = ground (arith, split) in
    refuted (is_digits (a ++ (m ++ b))) (is_digits (a ++ (n ++ b)))
      (verhoeff_from 0 0 (reverse (digits_of (a ++ (m ++ b)))))
      (verhoeff_from 0 0 (reverse (digits_of (a ++ (n ++ b))))) h
      (rw (reversed a m b, reversed a n b)
        (read_apart (reverse (digits_of b)) (reverse (digits_of m)) (reverse (digits_of n))
          (reverse (digits_of a)) (reverse-AreDigits (digits_of b) [] (digits_of-AreDigits b hb) tt)
          (reverse-AreDigits (digits_of m) [] (digits_of-AreDigits m hm) tt)
          (reverse-AreDigits (digits_of n) [] (digits_of-AreDigits n hn) tt)
          (reverse-AreDigits (digits_of a) [] (digits_of-AreDigits a ha) tt) l k))

-- The check detects every single wrong digit: a number that is accepted is no longer accepted with one of
-- its digits replaced by another one.
pub verhoeff_check-single :
    (a b : Text) (x y : ℕ)
    → is_digit x ≡ true
    → is_digit y ≡ true
    → (x == y) ≡ false
    → verhoeff_check (a ++ x ∷ b) ≡ true
    → verhoeff_check (a ++ y ∷ b) ≡ false
unfolding digits_of
verhoeff_check-single a b x y hx hy n h =
    misread a (x ∷ []) (y ∷ []) b h (one_digit x hx) (one_digit y hy) refl (
      single_apart (x - b'0') (y - b'0') (digit_bounded x hx) (digit_bounded y hy)
        (digits_apart x y hx hy n))

-- The check detects every swap of neighbours: a number that is accepted is no longer accepted with two
-- different neighbouring digits exchanged.
pub verhoeff_check-swapped :
    (a b : Text) (x y : ℕ)
    → is_digit x ≡ true
    → is_digit y ≡ true
    → (x == y) ≡ false
    → verhoeff_check (a ++ x ∷ y ∷ b) ≡ true
    → verhoeff_check (a ++ y ∷ x ∷ b) ≡ false
unfolding digits_of
verhoeff_check-swapped a b x y hx hy n h =
    misread a (x ∷ y ∷ []) (y ∷ x ∷ []) b h (two_digits x y hx hy) (two_digits y x hy hx) refl (
      swapped_apart (y - b'0') (x - b'0') (digit_bounded y hy) (digit_bounded x hx)
        (digits_apart y x hy hx (flipped x y n)))
