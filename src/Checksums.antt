-- ===== src/Checksums.antt =====
-- packages/znyx-core/src/znyx_core/utils/checksums.py and utils/luhn.py. `str.isdigit` is that of ASCII
-- texts.
pub mod Tables
pub mod Verhoeff
pub mod Luhn
use znyx_runtime.Prelude.{
  ℕ, zero, suc, ◌+◌, ◌-◌, ◌*◌, ◌%◌, Text, codes, upper, Bool, true, false, not, ◌&&◌, ◌||◌, ltb,
  leb, ◌==◌, Option, none, some, List, [], ◌∷◌, ◌++◌, map, reverse, length, take, all,
  if◌then◌else◌,
}

-- `xs[i]`, for an index in range.
abbrev pub item : List ℕ → ℕ → ℕ
item [] i = 0
item (x ∷ xs) zero = x
item (x ∷ xs) (suc i) = item xs i

abbrev pub row : List (List ℕ) → ℕ → List ℕ
row [] i = []
row (r ∷ rs) zero = r
row (r ∷ rs) (suc i) = row rs i

abbrev pub verhoeff_d : List (List ℕ)
verhoeff_d =
    (0 ∷ 1 ∷ 2 ∷ 3 ∷ 4 ∷ 5 ∷ 6 ∷ 7 ∷ 8 ∷ 9 ∷ [])
    ∷ (1 ∷ 2 ∷ 3 ∷ 4 ∷ 0 ∷ 6 ∷ 7 ∷ 8 ∷ 9 ∷ 5 ∷ [])
    ∷ (2 ∷ 3 ∷ 4 ∷ 0 ∷ 1 ∷ 7 ∷ 8 ∷ 9 ∷ 5 ∷ 6 ∷ [])
    ∷ (3 ∷ 4 ∷ 0 ∷ 1 ∷ 2 ∷ 8 ∷ 9 ∷ 5 ∷ 6 ∷ 7 ∷ [])
    ∷ (4 ∷ 0 ∷ 1 ∷ 2 ∷ 3 ∷ 9 ∷ 5 ∷ 6 ∷ 7 ∷ 8 ∷ [])
    ∷ (5 ∷ 9 ∷ 8 ∷ 7 ∷ 6 ∷ 0 ∷ 4 ∷ 3 ∷ 2 ∷ 1 ∷ [])
    ∷ (6 ∷ 5 ∷ 9 ∷ 8 ∷ 7 ∷ 1 ∷ 0 ∷ 4 ∷ 3 ∷ 2 ∷ [])
    ∷ (7 ∷ 6 ∷ 5 ∷ 9 ∷ 8 ∷ 2 ∷ 1 ∷ 0 ∷ 4 ∷ 3 ∷ [])
    ∷ (8 ∷ 7 ∷ 6 ∷ 5 ∷ 9 ∷ 3 ∷ 2 ∷ 1 ∷ 0 ∷ 4 ∷ [])
    ∷ (9 ∷ 8 ∷ 7 ∷ 6 ∷ 5 ∷ 4 ∷ 3 ∷ 2 ∷ 1 ∷ 0 ∷ [])
    ∷ []

abbrev pub verhoeff_p : List (List ℕ)
verhoeff_p =
    (0 ∷ 1 ∷ 2 ∷ 3 ∷ 4 ∷ 5 ∷ 6 ∷ 7 ∷ 8 ∷ 9 ∷ [])
    ∷ (1 ∷ 5 ∷ 7 ∷ 6 ∷ 2 ∷ 8 ∷ 3 ∷ 0 ∷ 9 ∷ 4 ∷ [])
    ∷ (5 ∷ 8 ∷ 0 ∷ 3 ∷ 7 ∷ 9 ∷ 6 ∷ 1 ∷ 4 ∷ 2 ∷ [])
    ∷ (8 ∷ 9 ∷ 1 ∷ 6 ∷ 0 ∷ 4 ∷ 3 ∷ 5 ∷ 2 ∷ 7 ∷ [])
    ∷ (9 ∷ 4 ∷ 5 ∷ 3 ∷ 1 ∷ 2 ∷ 6 ∷ 8 ∷ 7 ∷ 0 ∷ [])
    ∷ (4 ∷ 2 ∷ 8 ∷ 6 ∷ 5 ∷ 7 ∷ 3 ∷ 9 ∷ 0 ∷ 1 ∷ [])
    ∷ (2 ∷ 7 ∷ 9 ∷ 3 ∷ 8 ∷ 0 ∷ 6 ∷ 4 ∷ 1 ∷ 5 ∷ [])
    ∷ (7 ∷ 0 ∷ 4 ∷ 6 ∷ 9 ∷ 1 ∷ 3 ∷ 2 ∷ 5 ∷ 8 ∷ [])
    ∷ []

-- `_VERHOEFF_D[c][_VERHOEFF_P[k][d]]`
unfoldable pub turn : (k c d : ℕ) → ℕ
turn k c d = item (row verhoeff_d c) (item (row verhoeff_p k) d)

-- The loop of `verhoeff_check`, over digits from the last one.
unfoldable pub verhoeff_from : (i c : ℕ) → List ℕ → ℕ
unfolding turn
verhoeff_from i c [] = c
verhoeff_from i c (d ∷ ds) = verhoeff_from (suc i) (turn (i % 8) c d) ds

abbrev pub is_digit : ℕ → Bool
is_digit c = leb b'0' c && leb c b'9'

abbrev pub is_empty {ℓ} : {A : Type ℓ} → List A → Bool
is_empty [] = true
is_empty (x ∷ xs) = false

-- `str.isdigit`
unfoldable pub is_digits : Text → Bool
is_digits t = not (is_empty t) && all is_digit t

-- `int(c)` of each digit.
unfoldable pub digits_of : Text → List ℕ
digits_of = map (λ c. c - b'0')

unfoldable pub verhoeff_check : Text → Bool
unfolding is_digits digits_of verhoeff_from
verhoeff_check number = is_digits number && (verhoeff_from 0 0 (reverse (digits_of number)) == 0)

-- `replace(' ', '').replace('-', '')`
unfoldable pub without_separators : Text → Text
without_separators [] = []
without_separators (c ∷ t) =
    let rest = without_separators t in if (c == 32) || (c == b'-') then rest else c ∷ rest

-- `n *= 2`, and `n -= 9` above 9.
abbrev pub doubled : ℕ → ℕ
doubled n = if ltb 9 (n * 2) then n * 2 - 9 else n * 2

-- The sum with every second digit doubled.
unfoldable pub luhn_sum : (i : ℕ) → List ℕ → ℕ
luhn_sum i [] = 0
luhn_sum i (d ∷ ds) = (if i % 2 == 1 then doubled d else d) + luhn_sum (suc i) ds

-- `luhn_check`
unfoldable pub luhn_check : Text → Bool
unfolding without_separators is_digits digits_of luhn_sum
luhn_check card_number =
    let number = without_separators card_number in
    is_digits number
    && (not (ltb (length number) 13) && (luhn_sum 0 (reverse (digits_of number)) % 10 == 0))

-- `mod10_sin_check`
unfoldable pub mod10_sin_check : Text → Bool
unfolding without_separators is_digits digits_of luhn_sum
mod10_sin_check number =
    let digits = without_separators number in
    (length digits == 9) && (is_digits digits && (luhn_sum 0 (digits_of digits) % 10 == 0))

-- `sum(int(d) * w for d, w in zip(digits, weights))`
unfoldable pub weighted : List ℕ → (weights : List ℕ) → ℕ
weighted [] ws = 0
weighted (d ∷ ds) [] = 0
weighted (d ∷ ds) (w ∷ ws) = d * w + weighted ds ws

abbrev is_check : (check digit : ℕ) → Bool
is_check check digit =
    if check == 11 then 0 == digit else if check == 10 then false else check == digit

-- `mod11_nhs_check`
unfoldable pub mod11_nhs_check : Text → Bool
unfolding without_separators is_digits digits_of weighted
mod11_nhs_check number =
    let digits = without_separators number in
    (length digits == 10)
    && (is_digits digits
        && is_check
            (11
              - (weighted (take 9 (digits_of digits)) (10 ∷ 9 ∷ 8 ∷ 7 ∷ 6 ∷ 5 ∷ 4 ∷ 3 ∷ 2 ∷ []))
                % 11)
            (item (digits_of digits) 9))

unfoldable pub only_digits : Text → Text
only_digits [] = []
only_digits (c ∷ t) = let rest = only_digits t in if is_digit c then c ∷ rest else rest

-- `len(set(digits)) == 1`, for a text that is not empty.
abbrev all_same : Text → Bool
all_same [] = false
all_same (c ∷ t) = all (λ d. d == c) t

abbrev check_digit : ℕ → ℕ
check_digit total = if ltb (total % 11) 2 then 0 else 11 - total % 11

-- The two check digits of `cpf_check` and of `cnpj_check`, for these weights.
abbrev two_digits : (n : ℕ) → (weights1 weights2 : List ℕ) → List ℕ → Bool
two_digits n weights1 weights2 digits =
    (check_digit (weighted (take n digits) weights1) == item digits n)
    && (check_digit (weighted (take (suc n) digits) weights2) == item digits (suc n))

unfoldable pub cpf_check : Text → Bool
unfolding only_digits digits_of weighted
cpf_check number =
    let digits = only_digits number in
    (length digits == 11)
    && (not (all_same digits)
        && two_digits 9 (10 ∷ 9 ∷ 8 ∷ 7 ∷ 6 ∷ 5 ∷ 4 ∷ 3 ∷ 2 ∷ [])
            (11 ∷ 10 ∷ 9 ∷ 8 ∷ 7 ∷ 6 ∷ 5 ∷ 4 ∷ 3 ∷ 2 ∷ []) (digits_of digits))

abbrev weights1 : List ℕ
weights1 = 5 ∷ 4 ∷ 3 ∷ 2 ∷ 9 ∷ 8 ∷ 7 ∷ 6 ∷ 5 ∷ 4 ∷ 3 ∷ 2 ∷ []

unfoldable pub cnpj_check : Text → Bool
unfolding only_digits digits_of weighted
cnpj_check number =
    let digits = only_digits number in
    (length digits == 14)
    && (not (all_same digits) && two_digits 12 weights1 (6 ∷ weights1) (digits_of digits))

-- `int(body)`, from the digits before.
unfoldable pub number_from : ℕ → List ℕ → ℕ
number_from n [] = n
number_from n (d ∷ ds) = number_from (n * 10 + d) ds

abbrev nif_letters : Text
nif_letters = codes "TRWAGMYFPDXBNJZSQVHLCKE"

-- `prefix_map`, on the first character.
abbrev without_prefix : Text → Text
without_prefix [] = []
without_prefix (c ∷ t) =
    if c == b'X'
    then b'0' ∷ t
    else if c == b'Y'
    then b'1' ∷ t
    else if c == b'Z'
    then b'2' ∷ t
    else c ∷ t

abbrev is_letter : ℕ → Bool
is_letter c = (leb b'A' c && leb c b'Z') || (leb b'a' c && leb c b'z')

unfoldable pub nif_check : Text → Bool
unfolding without_separators is_digits digits_of number_from upper
nif_check number =
    let s = without_separators (upper number) in
    let body = without_prefix (take 8 s) in
    let letter = item s 8 in
    (length s == 9)
    && (is_digits body
        && (is_letter letter && (item nif_letters (number_from 0 (digits_of body) % 23) == letter)))
