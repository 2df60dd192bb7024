-- ===== src/Detectors/Metadata.antt =====
-- What the detectors of packages/znyx-core/src/znyx_core/detectors share in reading the metadata of a
-- request: the isinstance tests, the first dict under some keys, and a rule hit under a condition.
use znyx_runtime.Prelude.{
  ℕ, zero, suc, ◌+◌, ◌/◌, ◌%◌, ltb, Text, Bool, true, false, has_text, strip, Option, none, some,
  List, [], ◌∷◌, ◌++◌, if◌then◌else◌,
}
use znyx_runtime.Core.Models.{RuleHit}
use znyx_runtime.Policy.Value.{
  Value, null, boolean, integer, float, text, array, object, Object, get,
}

abbrev pub dict_of : Option Value → Option Object
dict_of none = none
dict_of (some null) = none
dict_of (some (boolean b)) = none
dict_of (some (integer z)) = none
dict_of (some (float t)) = none
dict_of (some (text t)) = none
dict_of (some (array xs)) = none
dict_of (some (object o)) = some o

-- `isinstance(v, str) and v.strip()`
abbrev pub name_of : Option Value → Option Text
name_of none = none
name_of (some null) = none
name_of (some (boolean b)) = none
name_of (some (integer z)) = none
name_of (some (float t)) = none
name_of (some (text t)) = if has_text (some (strip t)) then some (strip t) else none
name_of (some (array xs)) = none
name_of (some (object o)) = none

abbrev pub or_else {ℓ} : {A : Type ℓ} → Option A → Option A → Option A
or_else none b = b
or_else (some a) b = some a

abbrev pub with_default {ℓ} : {A : Type ℓ} → Option A → A → A
with_default none a = a
with_default (some b) a = b

abbrev pub first_dict : List Text → Object → Option Object
first_dict [] o = none
first_dict (k ∷ ks) o = or_else (dict_of (get k o)) (first_dict ks o)

-- `str(n)`
abbrev decimal_from : ℕ → ℕ → Text
decimal_from zero n = []
decimal_from (suc fuel) n =
    let rest = decimal_from fuel (n / 10) in
    if ltb n 10 then (b'0' + n) ∷ [] else rest ++ (b'0' + n % 10) ∷ []

abbrev pub decimal : ℕ → Text
decimal n = decimal_from (suc n) n

abbrev pub is_empty {ℓ} : {A : Type ℓ} → List A → Bool
is_empty [] = true
is_empty (x ∷ xs) = false

abbrev pub hit_if : Bool → RuleHit → List RuleHit
hit_if b h = if b then h ∷ [] else []
