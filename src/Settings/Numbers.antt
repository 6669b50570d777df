-- ===== src/Settings/Numbers.antt =====
-- wtoi of source/EACopy.cpp. An int is its 32-bit pattern, a number below 2 ^ 32. `wcstol` skips white
-- space, takes a sign and decimal digits, and stops at the bounds of a 32-bit long.
use eacopy.Base.{
  ℕ, ◌+◌, ◌-◌, ◌*◌, ◌%◌, ◌<◌, min, Bool, ◌&&◌, ◌||◌, [], ◌∷◌, leb, ◌==◌, if◌then◌else◌, WString,
  arith,
}

abbrev pub word : ℕ
word = 4294967296

abbrev pub half_word : ℕ
half_word = 2147483648

abbrev is_digit : ℕ → Bool
is_digit c = leb 48 c && leb c 57

abbrev is_space : ℕ → Bool
is_space c = (c == 32) || (leb 9 c && leb c 13)

unfoldable pub digits : ℕ → WString → ℕ
digits value [] = value
digits value (c ∷ cs) =
    let rest = digits (value * 10 + (c - 48)) cs in if is_digit c then rest else value

unfoldable pub signed : WString → ℕ
unfolding digits
signed [] = 0
signed (c ∷ cs) =
    if c == b'-'
    then (word - min (digits 0 cs) half_word) % word
    else min (digits 0 (if c == b'+' then cs else c ∷ cs)) (half_word - 1)

unfoldable pub wtoi : WString → ℕ
unfolding signed
wtoi [] = 0
wtoi (c ∷ cs) = let rest = wtoi cs in if is_space c then rest else signed (c ∷ cs)

abbrev pub is_negative : ℕ → Bool
is_negative x = leb half_word x

-- An int made a 64-bit unsigned number: the sign is extended.
abbrev pub to_u64 : ℕ → ℕ
to_u64 x = if is_negative x then x + (18446744073709551616 - word) else x

-- `max(0, x - 1)` on ints, where the least int wraps round.
abbrev pub less_one : ℕ → ℕ
less_one x = let y = (x + (word - 1)) % word in if is_negative y then 0 else y

-- wtoi gives an int.
pub wtoi_bound : (text : WString) → wtoi text < word
unfolding wtoi
wtoi_bound [] = omega arith
wtoi_bound (c ∷ cs) = ground (arith, wtoi_bound cs)
