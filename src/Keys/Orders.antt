-- ===== src/Keys/Orders.antt =====
-- The operators `<` of the keys are strict total orders, as `std::map` and `std::set` demand.
use eacopy.Base.{true, false, [], ◌∷◌, WString, ◌≡◌, refl, arith, ◌↔◌}
use eacopy.Base.Order.{StrictOrder}
use eacopy.Keys.{
  Hash, hash_lt, hash_eq, FileTime, FileInfo, equals, FileKey, text_lt, time_lt, file_key_lt,
}

pub text_lt_irrefl : (a : WString) → text_lt a a ≡ false
unfolding text_lt
text_lt_irrefl [] = refl
text_lt_irrefl (x ∷ xs) = ground (arith, text_lt_irrefl xs)

pub text_lt_trans : (a b c : WString) → text_lt a b ≡ true → text_lt b c ≡ true → text_lt a c ≡ true
unfolding text_lt
text_lt_trans [] (y ∷ ys) (z ∷ zs) h g = refl
text_lt_trans [] [] c h g = absurd (cc)
text_lt_trans [] (y ∷ ys) [] h g = absurd (cc)
text_lt_trans (x ∷ xs) [] c h g = absurd (cc)
text_lt_trans (x ∷ xs) (y ∷ ys) [] h g = absurd (cc)
text_lt_trans (x ∷ xs) (y ∷ ys) (z ∷ zs) h g = ground (arith, text_lt_trans xs ys zs)

pub text_lt_total : (a b : WString) → text_lt a b ≡ false → text_lt b a ≡ false → a ≡ b
unfolding text_lt
text_lt_total [] [] h g = refl
text_lt_total [] (y ∷ ys) h g = absurd (cc)
text_lt_total (x ∷ xs) [] h g = absurd (cc)
text_lt_total (x ∷ xs) (y ∷ ys) h g = ground (arith, text_lt_total xs ys)

abbrev pub text_order : StrictOrder WString
text_order = record {
  lt = text_lt;
  irrefl = text_lt_irrefl;
  trans = text_lt_trans;
  total = text_lt_total;
}

time_lt_irrefl : (a : FileTime) → time_lt a a ≡ false
unfolding time_lt
time_lt_irrefl a = ground arith

time_lt_trans : (a b c : FileTime) → time_lt a b ≡ true → time_lt b c ≡ true → time_lt a c ≡ true
unfolding time_lt
time_lt_trans a b c h g = ground arith

time_lt_total : (a b : FileTime) → time_lt a b ≡ false → time_lt b a ≡ false → a ≡ b
unfolding time_lt
time_lt_total a b h g = ground arith

pub hash_lt_irrefl : (a : Hash) → hash_lt a a ≡ false
unfolding hash_lt
hash_lt_irrefl a = ground arith

pub hash_lt_trans : (a b c : Hash) → hash_lt a b ≡ true → hash_lt b c ≡ true → hash_lt a c ≡ true
unfolding hash_lt
hash_lt_trans a b c h g = ground arith

pub hash_lt_total : (a b : Hash) → hash_lt a b ≡ false → hash_lt b a ≡ false → a ≡ b
unfolding hash_lt
hash_lt_total a b h g = ground arith

abbrev pub hash_order : StrictOrder Hash
hash_order = record {
  lt = hash_lt;
  irrefl = hash_lt_irrefl;
  trans = hash_lt_trans;
  total = hash_lt_total;
}

pub hash_eq_iff : (a b : Hash) → (hash_eq a b ≡ true) ↔ (a ≡ b)
unfolding hash_eq
hash_eq_iff a b = ground arith

pub equals_iff : (a b : FileInfo) → (equals a b ≡ true) ↔ (a ≡ b)
unfolding equals
equals_iff a b = ground arith

pub file_key_lt_irrefl : (a : FileKey) → file_key_lt a a ≡ false
unfolding file_key_lt
file_key_lt_irrefl a = ground (arith, text_lt_irrefl a.name, time_lt_irrefl a.last_write_time)

pub file_key_lt_trans :
    (a b c : FileKey) → file_key_lt a b ≡ true → file_key_lt b c ≡ true → file_key_lt a c ≡ true
unfolding file_key_lt
file_key_lt_trans a b c h g = ground (
  arith,
  text_lt_trans a.name b.name c.name,
  text_lt_trans b.name c.name a.name,
  text_lt_trans c.name a.name b.name,
  text_lt_total a.name b.name,
  text_lt_total b.name c.name,
  text_lt_irrefl a.name,
  text_lt_irrefl b.name,
  time_lt_trans a.last_write_time b.last_write_time c.last_write_time,
  time_lt_total a.last_write_time b.last_write_time,
  time_lt_total b.last_write_time c.last_write_time,
  time_lt_irrefl a.last_write_time,
)

-- Of two keys neither of which sorts before the other, all three fields are equal.
pub file_key_lt_total : (a b : FileKey) → file_key_lt a b ≡ false → file_key_lt b a ≡ false → a ≡ b
unfolding file_key_lt
file_key_lt_total a b h g =
    ground (arith, text_lt_total a.name b.name, time_lt_total a.last_write_time b.last_write_time)

abbrev pub key_order : StrictOrder FileKey
key_order = record {
  lt = file_key_lt;
  irrefl = file_key_lt_irrefl;
  trans = file_key_lt_trans;
  total = file_key_lt_total;
}
