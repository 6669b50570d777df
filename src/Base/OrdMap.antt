-- ===== src/Base/OrdMap.antt =====
-- `std::map` as what the source uses of it: a list of entries kept in the order of the keys.
pub mod Sorted
use Prim.Native.Nat.{ℕ, suc, ◌+◌}
use mathlib.Core.Path.{◌≡◌, refl}
use mathlib.Core.Bool.{Bool, true, false}
use mathlib.Core.List.{List, [], ◌∷◌}
use mathlib.Core.Option.{Option, none, some}
use native.Mathlib.Omega.{arith}
use eacopy.Base.Tests.{if◌then◌else◌}
use eacopy.Base.Lists.{length}
use eacopy.Base.Order.{StrictOrder, same, same_eq, same_refl}

abbrev pub Map : Type 0 → Type 0 → Type 0
Map K V = List (K × V)

module _ {K : Type 0} {V : Type 0} (o : StrictOrder K) where
  unfoldable pub find : K → Map K V → Option V
  find k [] = none
  find k ((j, v) ∷ m) = if same o k j then some v else find k m

  -- `m[k] = v`
  unfoldable pub insert : K → V → Map K V → Map K V
  insert k v [] = (k, v) ∷ []
  insert k v ((j, w) ∷ m) =
      if o.lt k j
      then (k, v) ∷ (j, w) ∷ m
      else if o.lt j k
      then (j, w) ∷ insert k v m
      else (k, v) ∷ m

  -- `m.erase(k)`; a map has each key once.
  unfoldable pub erase : K → Map K V → Map K V
  erase k [] = []
  erase k ((j, w) ∷ m) = let rest = erase k m in if same o k j then rest else (j, w) ∷ rest

  -- The first entry whose key is not below `k`.
  unfoldable pub lower_bound : K → Map K V → Option (K × V)
  lower_bound k [] = none
  lower_bound k ((j, v) ∷ m) = if o.lt j k then lower_bound k m else some (j, v)

  -- Every key lies above `k`.
  abbrev pub Above : K → Map K V → Type 0
  Above k [] = Unit
  Above k ((j, v) ∷ m) = (o.lt k j ≡ true) × Above k m

  abbrev pub Sorted : Map K V → Type 0
  Sorted [] = Unit
  Sorted ((k, v) ∷ m) = Above k m × Sorted m

  pub find-insert :
      (j k : K) (v : V) (m : Map K V)
      → find j (insert k v m) ≡ (if same o j k then some v else find j m)
  unfolding find insert
  find-insert j k v [] = refl
  find-insert j k v ((i, w) ∷ m) = ground (
    arith,
    find-insert j k v m,
    same_eq o j k,
    same_eq o j i,
    o.total i k,
    o.total k i,
    same_refl o j,
    o.irrefl j,
  )

  pub find-erase :
      (j k : K) (m : Map K V) → find j (erase k m) ≡ (if same o j k then none else find j m)
  unfolding find erase
  find-erase j k [] = ground arith
  find-erase j k ((i, w) ∷ m) =
      ground (arith, find-erase j k m, same_eq o j k, same_eq o j i, same_eq o k i, same_refl o j)
