-- ===== src/Base/Bytes.antt =====
-- Numbers and UTF-16 text as bytes, the low byte first.
use eacopy.Base.Tests.{◌==◌, if◌then◌else◌, Option-cases}
use eacopy.Base.Lists.{WString, length}
use Prim.Native.Nat.{ℕ, zero, suc, ◌+◌, ◌*◌, ◌/◌, ◌%◌, ◌<◌}
use mathlib.Core.Path.{◌≡◌, refl, ap, subst}
use mathlib.Core.Option
use mathlib.Core.Logic.{inl, inr}
use mathlib.Core.Option.{Option, none, some}
use mathlib.Core.List.{List, [], ◌∷◌, ◌++◌}
use native.Mathlib.Omega.{arith}

abbrev pub Bytes : Type 0
Bytes = List ℕ

-- The `k` low bytes of a number.
unfoldable pub le : ℕ → ℕ → Bytes
le zero n = []
le (suc k) n = (n % 256) ∷ le k (n / 256)

unfoldable pub from_le : Bytes → ℕ
from_le [] = 0
from_le (b ∷ bs) = b + 256 * from_le bs

-- Exactly `n` bytes, or nothing.
unfoldable pub read_bytes : ℕ → Bytes → Option (Bytes × Bytes)
read_bytes zero bs = some ([], bs)
read_bytes (suc n) [] = none
read_bytes (suc n) (b ∷ bs) = Option.map (λ (taken, rest). (b ∷ taken, rest)) (read_bytes n bs)

unfoldable pub read_number : ℕ → Bytes → Option (ℕ × Bytes)
unfolding read_bytes from_le
read_number n bs = Option.map (λ (taken, rest). (from_le taken, rest)) (read_bytes n bs)

unfoldable pub text_bytes : WString → Bytes
text_bytes [] = []
text_bytes (c ∷ cs) = (c % 256) ∷ (c / 256 % 256) ∷ text_bytes cs

-- A buffer of bytes with two zero bytes behind it, read as a string up to its first zero. A buffer
-- of odd length that holds no zero is read past its end.
unfoldable pub text_of : Bytes → Option WString
text_of [] = some []
text_of (b ∷ []) = none
text_of (b ∷ c ∷ bs) =
    let rest = text_of bs in
    if b + 256 * c == 0 then some [] else Option.map (λ cs. (b + 256 * c) ∷ cs) rest

pub length-le : (k n : ℕ) → length (le k n) ≡ k
unfolding le
length-le zero n = refl
length-le (suc k) n = ap suc (length-le k (n / 256))

-- A bound that is a power of 256.
abbrev pub pow256 : ℕ → ℕ
pow256 zero = 1
pow256 (suc k) = 256 * pow256 k

pub from_le-le : (k n : ℕ) → n < pow256 k → from_le (le k n) ≡ n
unfolding le from_le
from_le-le zero n h = omega arith
from_le-le (suc k) n h =
    let small : n / 256 < pow256 k = omega arith in omega (arith, from_le-le k (n / 256) small)

pub read_bytes-append :
    (n : ℕ) (bs rest : Bytes) → length bs ≡ n → read_bytes n (bs ++ rest) ≡ some (bs, rest)
unfolding read_bytes
read_bytes-append zero [] rest h = refl
read_bytes-append zero (b ∷ bs) rest h = absurd (omega arith)
read_bytes-append (suc n) [] rest h = absurd (omega arith)
read_bytes-append (suc n) (b ∷ bs) rest h = rw (read_bytes-append n bs rest (omega arith))

pub read_number-le :
    (k n : ℕ) (rest : Bytes) → n < pow256 k → read_number k (le k n ++ rest) ≡ some (n, rest)
unfolding read_number
read_number-le k n rest h =
    rw (read_bytes-append k (le k n) rest (length-le k n)) (rw (from_le-le k n h))

-- What is read and what is left make up the whole.
pub read_bytes-length :
    (n : ℕ) (bs taken rest : Bytes)
    → read_bytes n bs ≡ some (taken, rest)
    → length bs ≡ n + length rest
unfolding read_bytes
read_bytes-length zero bs taken rest h = ground arith
read_bytes-length (suc n) [] taken rest h = absurd (cc)
read_bytes-length (suc n) (b ∷ bs) taken rest h = elim (Option-cases (read_bytes n bs)) [
  | inl e ↦ absurd (ground (arith, h, e))
  | inr ((t, r), e) ↦
      let same_rest : r ≡ rest = ground (arith, h, e) in
      let shorter : length bs ≡ n + length rest =
        subst (λ x. length bs ≡ n + length x) same_rest (read_bytes-length n bs t r e) in
      omega arith
]

pub read_number-length :
    (k n : ℕ) (bs rest : Bytes) → read_number k bs ≡ some (n, rest) → length bs ≡ k + length rest
unfolding read_number
read_number-length k n bs rest h = elim (Option-cases (read_bytes k bs)) [
  | inl e ↦ absurd (ground (arith, h, e))
  | inr ((t, r), e) ↦
      let same_rest : r ≡ rest = ground (arith, h, e) in
      subst (λ x. length bs ≡ k + length x) same_rest (read_bytes-length k bs t r e)
]

-- Characters that are not zero and fit two bytes.
abbrev pub Readable : WString → Type 0
Readable [] = Unit
Readable (c ∷ cs) = (0 < c) × (c < 65536) × Readable cs

pub length-text_bytes : (cs : WString) → length (text_bytes cs) ≡ 2 * length cs
unfolding text_bytes
length-text_bytes [] = omega arith
length-text_bytes (c ∷ cs) = omega (arith, length-text_bytes cs)

pub text_of-text_bytes : (cs : WString) → Readable cs → text_of (text_bytes cs) ≡ some cs
unfolding text_of text_bytes
text_of-text_bytes [] h = refl
text_of-text_bytes (c ∷ cs) h =
    let e : c % 256 + 256 * (c / 256 % 256) ≡ c = omega arith in
    rw (e, text_of-text_bytes cs h.2) (ground arith)
