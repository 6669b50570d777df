-- ===== src/Keys.antt =====
-- include/EACopyShared.h and source/EACopyShared.cpp: hashes, file times, file infos and the keys
-- of files, with the orders that the maps use.
pub mod Orders
use eacopy.Base.{
  ℕ, Bool, true, false, ◌&&◌, ◌||◌, not, List, [], ◌∷◌, ltb, ◌==◌, if◌then◌else◌, WString,
}

-- struct Hash
pub record Hash : Type 0 where
  pub first : ℕ
  pub second : ℕ

abbrev pub no_hash : Hash
no_hash = record { first = 0; second = 0 }

-- Hash::operator<
unfoldable pub hash_lt : Hash → Hash → Bool
hash_lt a b = if a.first == b.first then ltb a.second b.second else ltb a.first b.first

-- isValid(const Hash&)
unfoldable pub is_valid : Hash → Bool
is_valid h = not (h.first == 0) || not (h.second == 0)

-- Hash::operator==
unfoldable pub hash_eq : Hash → Hash → Bool
hash_eq a b = a.first == b.first && a.second == b.second

-- struct FileTime
pub record FileTime : Type 0 where
  pub low : ℕ
  pub high : ℕ

abbrev pub no_time : FileTime
no_time = record { low = 0; high = 0 }

-- struct FileInfo
pub record FileInfo : Type 0 where
  pub creation_time : FileTime
  pub last_write_time : FileTime
  pub file_size : ℕ

-- equals(const FileInfo&, const FileInfo&), by memcmp over the whole struct.
unfoldable pub equals : FileInfo → FileInfo → Bool
equals a b =
    a.creation_time.low == b.creation_time.low
    && a.creation_time.high == b.creation_time.high
    && a.last_write_time.low == b.last_write_time.low
    && a.last_write_time.high == b.last_write_time.high
    && a.file_size == b.file_size

-- struct FileKey
pub record FileKey : Type 0 where
  pub name : WString
  pub last_write_time : FileTime
  pub file_size : ℕ

-- wcscmp(a, b) < 0
unfoldable pub text_lt : WString → WString → Bool
text_lt [] [] = false
text_lt [] (b ∷ bs) = true
text_lt (a ∷ as') [] = false
text_lt (a ∷ as') (b ∷ bs) =
    let rest = text_lt as' bs in if ltb a b then true else if ltb b a then false else rest

-- CompareFileTime(a, b) < 0
unfoldable pub time_lt : FileTime → FileTime → Bool
time_lt a b = if a.high == b.high then ltb a.low b.low else ltb a.high b.high

-- FileKey::operator<: by name, then by write time, then by size.
unfoldable pub file_key_lt : FileKey → FileKey → Bool
file_key_lt a b =
    if text_lt a.name b.name
    then true
    else if text_lt b.name a.name
    then false
    else if time_lt a.last_write_time b.last_write_time
    then true
    else if time_lt b.last_write_time a.last_write_time
    then false
    else ltb a.file_size b.file_size
