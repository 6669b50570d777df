-- ===== src/Base/Order.antt =====
-- Strict total orders with a Boolean test, such as a C++ `operator<`.
use mathlib.Core.Path.{◌≡◌}
use mathlib.Core.Bool.{Bool, true, false, ◌&&◌, not}
use native.Mathlib.Omega.{arith}

pub record StrictOrder (K : Type 0) : Type 0 where
  pub lt : K → K → Bool
  pub irrefl : (a : K) → lt a a ≡ false
  pub trans : (a b c : K) → lt a b ≡ true → lt b c ≡ true → lt a c ≡ true
  pub total : (a b : K) → lt a b ≡ false → lt b a ≡ false → a ≡ b

module _ {K : Type 0} (o : StrictOrder K) where
  -- Neither key is below the other.
  abbrev pub same : K → K → Bool
  same a b = not (o.lt a b) && not (o.lt b a)

  pub same_refl : (a : K) → same a a ≡ true
  same_refl a = ground (arith, o.irrefl a)

  pub same_eq : (a b : K) → same a b ≡ true → a ≡ b
  same_eq a b h = ground (arith, o.total a b)

  pub lt_asymm : (a b : K) → o.lt a b ≡ true → o.lt b a ≡ false
  lt_asymm a b h = ground (arith, o.trans a b a, o.irrefl a)
