-- ===== src/Witnesses/Base64.antt =====
-- base64 on bytes, as the argument of the theorem on stamps.
use znyx_runtime.Prelude.{
  ℕ, ◌+◌, ◌-◌, ◌*◌, ◌/◌, ◌%◌, Text, ltb, ◌==◌, Option, none, some, [], ◌∷◌, ◌++◌, if◌then◌else◌,
}

abbrev digit : ℕ → ℕ
digit n =
    if ltb n 26
    then b'A' + n
    else if ltb n 52
    then b'a' + (n - 26)
    else if ltb n 62
    then b'0' + (n - 52)
    else if n == 62
    then b'+'
    else b'/'

abbrev pub b64encode : Text → Text
b64encode [] = []
b64encode (x ∷ []) = digit (x / 4) ∷ digit (x % 4 * 16) ∷ b'=' ∷ b'=' ∷ []
b64encode (x ∷ y ∷ []) =
    digit (x / 4) ∷ digit (x % 4 * 16 + y / 16) ∷ digit (y % 16 * 4) ∷ b'=' ∷ []
b64encode (x ∷ y ∷ z ∷ t) =
    digit (x / 4)
    ∷ digit (x % 4 * 16 + y / 16)
    ∷ digit (y % 16 * 4 + z / 64)
    ∷ digit (z % 64)
    ∷ b64encode t

-- Of a digit; other characters count as the last one.
abbrev value : ℕ → ℕ
value c =
    if ltb 96 c
    then c - b'a' + 26
    else if ltb 64 c
    then c - b'A'
    else if ltb 47 c
    then c - b'0' + 52
    else if c == b'+'
    then 62
    else 63

abbrev joined : Text → Option Text → Option Text
joined t none = none
joined t (some r) = some (t ++ r)

abbrev three : (p q r s : ℕ) → Text
three p q r s =
    if r == b'='
    then (value p * 4 + value q / 16) ∷ []
    else if s == b'='
    then (value p * 4 + value q / 16) ∷ (value q % 16 * 16 + value r / 4) ∷ []
    else (value p * 4 + value q / 16)
      ∷ (value q % 16 * 16 + value r / 4)
      ∷ (value r % 4 * 64 + value s)
      ∷ []

abbrev pub b64decode : Text → Option Text
b64decode [] = some []
b64decode (p ∷ []) = none
b64decode (p ∷ q ∷ []) = none
b64decode (p ∷ q ∷ r ∷ []) = none
b64decode (p ∷ q ∷ r ∷ s ∷ t) = joined (three p q r s) (b64decode t)
