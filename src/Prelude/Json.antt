-- ===== src/Prelude/Json.antt =====
-- The part of Python's `json.dumps(…, sort_keys=True, separators=(",", ":"))` that the code relies on
-- for texts: quoting with every character outside the printable ASCII range escaped.
use Prim.Native.Nat.{ℕ, ◌+◌, ◌-◌, ◌/◌, ◌%◌}
use mathlib.Core.Bool.{◌&&◌}
use mathlib.Core.Option.{Option, none, some}
use mathlib.Core.List.{[], ◌∷◌, ◌++◌}
use znyx_runtime.Prelude.Tests.{leb, ltb, ◌==◌, if◌then◌else◌}
use znyx_runtime.Prelude.Texts.{Text, codes}

-- A digit of `'%04x'`.
unfoldable pub hex_digit : ℕ → ℕ
hex_digit n = if ltb n 10 then b'0' + n else b'a' + (n - 10)

unfoldable pub unicode_escape : ℕ → Text
unfolding hex_digit
unicode_escape n =
    92
    ∷ b'u'
    ∷ hex_digit (n / 4096 % 16)
    ∷ hex_digit (n / 256 % 16)
    ∷ hex_digit (n / 16 % 16)
    ∷ hex_digit (n % 16)
    ∷ []

unfoldable pub escape_code : ℕ → Text
unfolding unicode_escape
escape_code c =
    if c == 34
    then 92 ∷ 34 ∷ []
    else if c == 92
    then 92 ∷ 92 ∷ []
    else if c == 10
    then 92 ∷ b'n' ∷ []
    else if c == 13
    then 92 ∷ b'r' ∷ []
    else if c == 9
    then 92 ∷ b't' ∷ []
    else if c == 12
    then 92 ∷ b'f' ∷ []
    else if c == 8
    then 92 ∷ b'b' ∷ []
    else if leb 32 c && leb c 126
    then c ∷ []
    else if ltb c 65536
    then unicode_escape c
    else unicode_escape (55296 + (c - 65536) / 1024) ++ unicode_escape (56320 + (c - 65536) % 1024)

unfoldable pub escape : Text → Text
unfolding escape_code
escape [] = []
escape (c ∷ t) = escape_code c ++ escape t

unfoldable pub quoted : Text → Text
unfolding escape
quoted t = 34 ∷ escape t ++ 34 ∷ []

unfoldable pub quoted_or_null : Option Text → Text
unfolding quoted
quoted_or_null none = codes "null"
quoted_or_null (some t) = quoted t
