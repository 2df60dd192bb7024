-- ===== src/Inference/Cache/Keys.antt =====
-- `content_key` of znyx_inference/cache.py: the framing of its parts.
use znyx_runtime.Prelude.{
  ℕ, zero, suc, ◌+◌, ◌*◌, ◌/◌, ◌%◌, Option, none, some, List, [], ◌∷◌, ◌++◌, ltb, length, take,
  drop, ◌≡◌, refl, ◌⊎◌, arith, Bool-cases, Option-cases, inl, inr,
}
use znyx_runtime.Inference.Cache.{length_bytes, framed}

-- A big-endian number of four bytes.
unfoldable pub number : List ℕ → ℕ
number (a ∷ b ∷ c ∷ d ∷ []) = a * 16777216 + b * 65536 + c * 256 + d
number _ = 0

-- What reads so many parts off the bytes.
unfoldable pub unframe : ℕ → List ℕ → List (List ℕ)
unfolding number
unframe zero bytes = []
unframe (suc k) bytes =
    let n = number (take 4 bytes) in
    let rest = drop 4 bytes in take n rest ∷ unframe k (drop n rest)

some_inj : (o : Option (List ℕ)) (x y : List ℕ) → o ≡ some x → o ≡ some y → x ≡ y
some_inj o x y e f = cc

take_front : (xs ys : List ℕ) → take (length xs) (xs ++ ys) ≡ xs
take_front [] ys = refl
take_front (x ∷ xs) ys = rw (take_front xs ys) refl

drop_front : (xs ys : List ℕ) → drop (length xs) (xs ++ ys) ≡ ys
drop_front [] ys = refl
drop_front (x ∷ xs) ys = drop_front xs ys

digits :
    (n : ℕ)
    → n / 16777216 * 16777216 + (n / 65536) % 256 * 65536 + (n / 256) % 256 * 256 + n % 256 ≡ n
digits n = omega arith

abbrev bytes_of : ℕ → List ℕ
bytes_of n = (n / 16777216) ∷ ((n / 65536) % 256) ∷ ((n / 256) % 256) ∷ (n % 256) ∷ []

length_bytes_cases : (n : ℕ) → (length_bytes n ≡ some (bytes_of n)) ⊎ (length_bytes n ≡ none)
unfolding length_bytes
length_bytes_cases n = elim (Bool-cases (ltb n 4294967296)) [
  | inl b ↦ inl (rw b refl)
  | inr b ↦ inr (rw b refl)
]

not_some : (o : Option (List ℕ)) (x : List ℕ) → o ≡ none → o ≡ some x → ⊥
not_some o x e f = cc

-- The four bytes of a part's length are read back as that length.
unframe-one :
    (n : ℕ) (head body : List ℕ)
    → length_bytes n ≡ some head
    → (number (take 4 (head ++ body)) ≡ n) × (drop 4 (head ++ body) ≡ body)
unfolding number
unframe-one n head body e = elim (length_bytes_cases n) [
  | inl b ↦ rw (some_inj (length_bytes n) head (bytes_of n) e b) (digits n, refl)
  | inr b ↦ absurd (not_some (length_bytes n) head b e)
]

-- What reads the framed bytes again, with the number of parts, has the parts back: no two lists of
-- as many parts are framed alike.
pub unframe-framed :
    (parts : List (List ℕ)) (bytes : List ℕ)
    → framed parts ≡ some bytes
    → unframe (length parts) bytes ≡ parts
unfolding unframe framed
unframe-framed [] bytes e = refl
unframe-framed (b ∷ parts) bytes e = elim (Option-cases (length_bytes (length b))) [
  | inl h ↦ absurd (not_some (framed (b ∷ parts)) bytes (rw (framed, h) refl) e)
  | inr (head, h) ↦ elim (Option-cases (framed parts)) [
    | inl r ↦ absurd (not_some (framed (b ∷ parts)) bytes (rw (framed, h) (rw r refl)) e)
    | inr (rest, r) ↦
        let one = unframe-one (length b) head (b ++ rest) h in
        let all =
          some_inj (framed (b ∷ parts)) bytes (head ++ (b ++ rest)) e
            (rw (framed, h) (rw r refl)) in
        rw all (
          rw (one.0, one.1)
            (rw (take_front b rest, drop_front b rest, unframe-framed parts rest r) refl))
  ]
]
