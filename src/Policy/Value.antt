-- ===== src/Policy/Value.antt =====
-- The values that `json.load` and `yaml.safe_load` return, which policies are made of. The entries of an
-- object are in insertion order. A float is given by its literal.
use znyx_runtime.Prelude.{
  ℤ, Text, Bool, true, false, Option, none, some, eq_text, eq_text_refl, eq_text→eq, if◌then◌else◌,
  ◌≡◌, refl, arith,
}

mutual
  pub data Value : Type 0 where
    null : Value
    boolean : Bool → Value
    integer : ℤ → Value
    float : Text → Value
    text : Text → Value
    array : Items → Value
    object : Object → Value

  pub data Items : Type 0 where
    nil : Items
    item : Value → Items → Items

  pub data Object : Type 0 where
    empty : Object
    entry : Text → Value → Object → Object

-- `o.get(k)`
unfoldable pub get : Text → Object → Option Value
get k empty = none
get k (entry j v o) = if eq_text j k then some v else get k o

-- `o[k] = v`
unfoldable pub put : Text → Value → Object → Object
put k v empty = entry k v empty
put k v (entry j w o) = if eq_text j k then entry j v o else entry j w (put k v o)

-- The truth value of a dict.
abbrev pub is_truthy : Object → Bool
is_truthy empty = false
is_truthy (entry k v o) = true

pub get-put :
    (j k : Text) (v : Value) (o : Object)
    → get j (put k v o) ≡ (if eq_text k j then some v else get j o)
unfolding get put
get-put j k v empty = refl
get-put j k v (entry i w o) = ground (
  arith,
  eq_text→eq k j,
  eq_text→eq i k,
  eq_text→eq i j,
  eq_text_refl k,
  eq_text_refl i,
  eq_text_refl j,
  get-put j k v o,
)

-- No key stands twice.
unfoldable pub IsObject : Object → Type 0
IsObject empty = Unit
IsObject (entry k v o) = (get k o ≡ none) × IsObject o
