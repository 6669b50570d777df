-- ===== src/Base/OrdMap/Sorted.antt =====
-- The map's operations keep the order of the keys, and what they do to its size.
use mathlib.Core.Logic.{inl, inr}
use Prim.Native.Nat.{suc}
use mathlib.Core.Path.{◌≡◌, refl}
use mathlib.Core.Bool.{true, false}
use mathlib.Core.List.{[], ◌∷◌}
use mathlib.Core.Option.{none, some}
use native.Mathlib.Omega.{arith}
use eacopy.Base.Tests.{Bool-cases}
use eacopy.Base.Lists.{length}
use eacopy.Base.Order.{StrictOrder, same_eq, same_refl, lt_asymm}
use eacopy.Base.OrdMap.{Map, find, insert, erase, lower_bound, Above, Sorted}

module _ {K : Type 0} {V : Type 0} (o : StrictOrder K) where
  Above-mono : (i k : K) (m : Map K V) → o.lt i k ≡ true → Above o k m → Above o i m
  Above-mono i k [] h a = tt
  Above-mono i k ((j, v) ∷ m) h a = (o.trans i k j h a.0, Above-mono i k m h a.1)

  insert-Above :
      (i k : K) (v : V) (m : Map K V) → o.lt i k ≡ true → Above o i m → Above o i (insert o k v m)
  unfolding insert
  insert-Above i k v [] h a = (h, tt)
  insert-Above i k v ((j, w) ∷ m) h a =
      ground (arith, insert-Above i k v m h a.1, Above-mono i k m h)

  pub insert-Sorted : (k : K) (v : V) (m : Map K V) → Sorted o m → Sorted o (insert o k v m)
  unfolding insert
  insert-Sorted k v [] s = (tt, tt)
  insert-Sorted k v ((j, w) ∷ m) s =
      ground (arith, insert-Sorted k v m s.1, insert-Above j k v m, Above-mono k j m, o.total k j)

  erase-Above : (i k : K) (m : Map K V) → Above o i m → Above o i (erase o k m)
  unfolding erase
  erase-Above i k [] a = tt
  erase-Above i k ((j, w) ∷ m) a = ground (arith, erase-Above i k m a.1)

  pub erase-Sorted : (k : K) (m : Map K V) → Sorted o m → Sorted o (erase o k m)
  unfolding erase
  erase-Sorted k [] s = tt
  erase-Sorted k ((j, w) ∷ m) s = ground (arith, erase-Sorted k m s.1, erase-Above j k m s.0)

  pub find-Above : (k : K) (m : Map K V) → Above o k m → find o k m ≡ none
  unfolding find
  find-Above k [] a = refl
  find-Above k ((j, w) ∷ m) a = ground (arith, find-Above k m a.1)

  pub length-insert_new :
      (k : K) (v : V) (m : Map K V) → find o k m ≡ none → length (insert o k v m) ≡ suc (length m)
  unfolding find insert
  length-insert_new k v [] h = refl
  length-insert_new k v ((j, w) ∷ m) h = ground (arith, length-insert_new k v m)

  pub length-insert_old :
      (k : K) (v w : V) (m : Map K V)
      → Sorted o m
      → find o k m ≡ some w
      → length (insert o k v m) ≡ length m
  unfolding find insert
  length-insert_old k v w [] s h = cc
  length-insert_old k v w ((j, u) ∷ m) s h =
      ground (arith, length-insert_old k v w m s.1, Above-mono k j m, find-Above k m)

  erase_absent : (k : K) (m : Map K V) → find o k m ≡ none → erase o k m ≡ m
  unfolding find erase
  erase_absent k [] h = refl
  erase_absent k ((j, w) ∷ m) h = ground (arith, erase_absent k m)

  pub length-erase :
      (k : K) (w : V) (m : Map K V)
      → Sorted o m
      → find o k m ≡ some w
      → suc (length (erase o k m)) ≡ length m
  unfolding find erase
  length-erase k w [] s h = cc
  length-erase k w ((j, u) ∷ m) s h =
      ground (arith, length-erase k w m s.1, erase_absent k m, find-Above j m s.0, same_eq o k j)

  Above-lt : (j i : K) (v : V) (m : Map K V) → Above o j m → find o i m ≡ some v → o.lt j i ≡ true
  unfolding find
  Above-lt j i v [] a h = absurd (cc)
  Above-lt j i v ((k, w) ∷ m) a h = ground (arith, Above-lt j i v m a.1, same_eq o i k)

  pub find-tail :
      (j k : K) (w v : V) (m : Map K V)
      → Above o j m
      → find o k m ≡ some v
      → find o k ((j, w) ∷ m) ≡ some v
  unfolding find
  find-tail j k w v m a h = ground (arith, Above-lt j k v m a h, same_eq o k j, o.irrefl j)

  -- `lower_bound` gives the least entry that is not below `k`, if any entry is not.
  pub lower_bound_least :
      (k i : K) (v : V) (m : Map K V)
      → Sorted o m
      → find o i m ≡ some v
      → o.lt i k ≡ false
      → (j : K) × (w : V) × (lower_bound o k m ≡ some (j, w))
        × (find o j m ≡ some w)
        × (o.lt j k ≡ false)
        × (o.lt i j ≡ false)
  unfolding find lower_bound
  lower_bound_least k i v [] s h g = absurd (cc)
  lower_bound_least k i v ((j, w) ∷ m) s h g = elim (Bool-cases (o.lt j k)) [
    | inl below ↦
        let tail : find o i m ≡ some v = ground (arith, same_eq o i j) in
        let (j', w', e, q, f, l) = lower_bound_least k i v m s.1 tail g in
        (
          j',
          w',
          ground (arith, e),
          ground (arith, q, Above-lt j j' w' m s.0 q, same_eq o j' j, o.irrefl j),
          f,
          l,
        )
    | inr found ↦ (
      j,
      w,
      ground arith,
      ground (arith, same_refl o j),
      found,
      ground (arith, Above-lt j i v m s.0, lt_asymm o j i, same_eq o i j, o.irrefl j),
    )
  ]

  pub find-lower_bound :
      (k j : K) (w : V) (m : Map K V)
      → Sorted o m
      → lower_bound o k m ≡ some (j, w)
      → find o j m ≡ some w
  unfolding find lower_bound
  find-lower_bound k j w [] s h = absurd (cc)
  find-lower_bound k j w ((i, v) ∷ m) s h = elim (Bool-cases (o.lt i k)) [
    | inl below ↦ find-tail i j v w m s.0 (find-lower_bound k j w m s.1 (ground arith))
    | inr found ↦ ground (arith, same_refl o j)
  ]
