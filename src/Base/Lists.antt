-- ===== src/Base/Lists.antt =====
-- Lists measured by the native numbers, and text as a list of character codes.
use Prim.Native.Nat.{ℕ, zero, suc, ◌+◌, ◌-◌, min}
use Prim.Native.Char.{code}
use Prim.Native.String.{String}
use mathlib.Core.Path.{◌≡◌, refl, ap}
use mathlib.Core.Bool.{Bool, true, false, ◌&&◌}
use mathlib.Core.List.{List, [], ◌∷◌, ◌++◌}
use native.Mathlib.Omega.{arith}
use eacopy.Base.Tests.{◌==◌}

-- A `wchar_t` string without its terminator.
abbrev pub WString : Type 0
WString = List ℕ

-- The codes of a text literal.
abbrev pub codes : String → WString
codes String.[] = []
codes (String.◌∷◌ c s) = code c ∷ codes s

-- `wcscmp(a, b) == 0`
abbrev pub text_eq : WString → WString → Bool
text_eq [] [] = true
text_eq [] (b ∷ bs) = false
text_eq (a ∷ as') [] = false
text_eq (a ∷ as') (b ∷ bs) = (a == b) && text_eq as' bs

module _ {ℓ} {A : Type ℓ} where
  abbrev pub length : List A → ℕ
  length [] = 0
  length (x ∷ xs) = suc (length xs)

  abbrev pub take : ℕ → List A → List A
  take zero xs = []
  take (suc n) [] = []
  take (suc n) (x ∷ xs) = x ∷ take n xs

  abbrev pub drop : ℕ → List A → List A
  drop zero xs = xs
  drop (suc n) [] = []
  drop (suc n) (x ∷ xs) = drop n xs

  abbrev pub is_empty : List A → Bool
  is_empty [] = true
  is_empty (x ∷ xs) = false

  pub length-append : (xs ys : List A) → length (xs ++ ys) ≡ length xs + length ys
  length-append [] ys = omega arith
  length-append (x ∷ xs) ys = omega (arith, length-append xs ys)

  pub length-drop : (n : ℕ) (xs : List A) → length (drop n xs) ≡ length xs - n
  length-drop zero xs = omega arith
  length-drop (suc n) [] = omega arith
  length-drop (suc n) (x ∷ xs) = omega (arith, length-drop n xs)

  pub length-take : (n : ℕ) (xs : List A) → length (take n xs) ≡ min n (length xs)
  length-take zero xs = omega arith
  length-take (suc n) [] = omega arith
  length-take (suc n) (x ∷ xs) = omega (arith, length-take n xs)

  pub take-append-drop : (n : ℕ) (xs : List A) → take n xs ++ drop n xs ≡ xs
  take-append-drop zero xs = refl
  take-append-drop (suc n) [] = refl
  take-append-drop (suc n) (x ∷ xs) = ap (◌∷◌ x) (take-append-drop n xs)

  take-nil : (m : ℕ) → ◌≡◌ {A = List A} [] (take m [])
  take-nil zero = refl
  take-nil (suc m) = refl

  drop-nil : (m : ℕ) → ◌≡◌ {A = List A} [] (drop m [])
  drop-nil zero = refl
  drop-nil (suc m) = refl

  pub take-add : (n m : ℕ) (xs : List A) → take (n + m) xs ≡ take n xs ++ take m (drop n xs)
  take-add zero m xs = ap (λ k. take k xs) (omega arith)
  take-add (suc n) m [] = let e : suc n + m ≡ suc (n + m) = omega arith in rw e (take-nil m)
  take-add (suc n) m (x ∷ xs) =
      let e : suc n + m ≡ suc (n + m) = omega arith in rw e (ap (◌∷◌ x) (take-add n m xs))

  pub drop-add : (n m : ℕ) (xs : List A) → drop (n + m) xs ≡ drop m (drop n xs)
  drop-add zero m xs = ap (λ k. drop k xs) (omega arith)
  drop-add (suc n) m [] = let e : suc n + m ≡ suc (n + m) = omega arith in rw e (drop-nil m)
  drop-add (suc n) m (x ∷ xs) =
      let e : suc n + m ≡ suc (n + m) = omega arith in rw e (drop-add n m xs)
