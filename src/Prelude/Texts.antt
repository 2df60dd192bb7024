-- ===== src/Prelude/Texts.antt =====
-- Texts as lists of code points, with what the code uses of Python's `str`.
use Prim.Native.Char.{code}
use Prim.Native.String.{String}
use Prim.Native.Nat.{ℕ, ◌+◌, ◌-◌}
use mathlib.Core.Path.{◌≡◌, refl}
use mathlib.Core.Bool.{Bool, true, false, ◌&&◌, ◌||◌}
use mathlib.Core.Option.{Option, none, some}
use mathlib.Core.List.{List, [], ◌∷◌, map, reverse}
use native.Mathlib.Omega.{arith}
use znyx_runtime.Prelude.Tests.{leb, ◌==◌, if◌then◌else◌}

abbrev pub Text : Type 0
Text = List ℕ

abbrev pub codes : String → Text
codes String.[] = []
codes (String.◌∷◌ c s) = code c ∷ codes s

-- `a == b`
unfoldable pub eq_text : Text → Text → Bool
eq_text [] [] = true
eq_text [] (b ∷ bs) = false
eq_text (a ∷ as') [] = false
eq_text (a ∷ as') (b ∷ bs) = (a == b) && eq_text as' bs

pub eq_text_refl : (a : Text) → eq_text a a ≡ true
unfolding eq_text
eq_text_refl [] = refl
eq_text_refl (a ∷ as') = ground (arith, eq_text_refl as')

pub eq_text→eq : (a b : Text) → eq_text a b ≡ true → a ≡ b
unfolding eq_text
eq_text→eq [] [] h = refl
eq_text→eq [] (b ∷ bs) h = ground arith
eq_text→eq (a ∷ as') [] h = ground arith
eq_text→eq (a ∷ as') (b ∷ bs) h = ground (arith, eq_text→eq as' bs)

-- `t in ts`
unfoldable pub mem_text : Text → List Text → Bool
mem_text t [] = false
mem_text t (u ∷ us) = eq_text t u || mem_text t us

-- `str.upper` and `str.lower`, on ASCII.
abbrev upper_code : ℕ → ℕ
upper_code c = if leb b'a' c && leb c b'z' then c - 32 else c

unfoldable pub upper : Text → Text
upper = map upper_code

-- `str.strip`, of the ASCII white space.
abbrev pub is_space : ℕ → Bool
is_space c = (c == 32) || ((leb 9 c && leb c 13) || (leb 28 c && leb c 31))

unfoldable pub strip_left : Text → Text
strip_left [] = []
strip_left (c ∷ t) = let rest = strip_left t in if is_space c then rest else c ∷ t

unfoldable pub strip : Text → Text
unfolding strip_left
strip t = reverse (strip_left (reverse (strip_left t)))

-- The truth value of an optional text: `None` and the empty text are false.
abbrev pub has_text : Option Text → Bool
has_text none = false
has_text (some []) = false
has_text (some (c ∷ t)) = true

-- `a or b`, on optional texts.
abbrev pub or_text : Option Text → Text → Text
or_text none d = d
or_text (some []) d = d
or_text (some (c ∷ t)) d = c ∷ t

abbrev lower_code : ℕ → ℕ
lower_code c = if leb b'A' c && leb c b'Z' then c + 32 else c

unfoldable pub lower : Text → Text
lower = map lower_code
