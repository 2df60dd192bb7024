-- ===== src/RateLimit/Proxy.antt =====
-- `_get_client_ip` of middleware/rate_limit.py behind trusted proxies.
use znyx_runtime.Prelude.{
  suc, ◌-◌, ◌≤◌, Text, Option, some, List, [], ◌∷◌, ◌++◌, length, ◌≡◌, refl, arith, length-append,
  le→leb,
}
use znyx_runtime.RateLimit.{get_client_ip, parts_of, from_right, nth}

nth-append : (xs ys : List Text) → nth (length xs) (xs ++ ys) ≡ nth 0 ys
nth-append [] ys = refl
nth-append (x ∷ xs) ys = nth-append xs ys

from_right-append :
    (forged trusted : List Text) (p : Text)
    → from_right (suc (length trusted)) (forged ++ p ∷ trusted) ≡ some p
unfolding from_right
from_right-append forged trusted p =
    let l = length-append forged (p ∷ trusted) in
    let deep : suc (length trusted) ≤ length (forged ++ p ∷ trusted) = omega (arith, l) in
    let at : length (forged ++ p ∷ trusted) - suc (length trusted) ≡ length forged =
      omega (arith, l) in
    rw (le→leb (suc (length trusted)) (length (forged ++ p ∷ trusted)) deep, at)
      (nth-append forged (p ∷ trusted))

-- Behind as many trusted proxies as configured, each of which appends the address it saw, the
-- client's address is the one that the outermost of them appended: what the header held before has
-- no influence.
pub get_client_ip-trusted :
    (header : Text) (peer : Option Text) (forged trusted : List Text) (p : Text)
    → parts_of header ≡ forged ++ p ∷ trusted
    → 1 ≤ length header
    → get_client_ip (suc (length trusted)) (some header) peer ≡ p
unfolding get_client_ip
get_client_ip-trusted [] peer forged trusted p e h = absurd (omega (arith, h))
get_client_ip-trusted (c ∷ t) peer forged trusted p e h =
    rw (e, from_right-append forged trusted p) refl
