-- ===== src/Paths.antt =====
-- source/EACopyShared.cpp: the functions on path names. Paths are `wchar_t` strings.
pub mod Cleanup
mod Tests
use eacopy.Base.{
  ℕ, zero, suc, ◌-◌, ◌+◌, Bool, true, false, ◌&&◌, ◌||◌, not, List, [], ◌∷◌, ◌++◌, Option, none,
  some, length, take, drop, ltb, leb, ◌==◌, if◌then◌else◌, WString, codes, text_eq, map,
}

abbrev pub backslash : ℕ
backslash = 92

abbrev pub slash : ℕ
slash = b'/'

-- The character at an index, where the terminator reads as 0.
abbrev pub char_at : WString → ℕ → ℕ
char_at [] i = 0
char_at (c ∷ cs) zero = c
char_at (c ∷ cs) (suc i) = char_at cs i

-- isDotOrDotDot
unfoldable pub is_dot_or_dot_dot : WString → Bool
is_dot_or_dot_dot str = text_eq str (codes ".") || text_eq str (codes "..")

-- convertSlashToBackslash, in its four versions.
unfoldable pub convert_slash_to_backslash : WString → WString
convert_slash_to_backslash = map (λ c. if c == slash then backslash else c)

-- The loop of getCleanedupPath and what follows it, from the start index on.
unfoldable pub cleanup : Bool → WString → WString
cleanup last_was_slash [] = if last_was_slash then [] else backslash ∷ []
cleanup last_was_slash (c ∷ cs) =
    let is_slash = c == slash || c == backslash in
    let rest = cleanup is_slash cs in
    if is_slash && last_was_slash then rest else (if is_slash then backslash else c) ∷ rest

-- The buffer's elements.
abbrev pub temp_buffer_size : ℕ
temp_buffer_size = 4096

-- getCleanedupPath. `none`: the text or its terminator does not fit the buffer.
unfoldable pub get_cleanedup_path : WString → ℕ → Bool → Option WString
unfolding cleanup
get_cleanedup_path path start_index last_was_slash =
    let cleaned = take start_index path ++ cleanup last_was_slash (drop start_index path) in
    if ltb (length path) temp_buffer_size && ltb (length cleaned) temp_buffer_size
    then some cleaned
    else none

-- isLocalPath
unfoldable pub is_local_path : WString → Bool
is_local_path path = not (char_at path 1 == backslash)

-- isAbsolutePath, for Windows.
unfoldable pub is_absolute_path : WString → Bool
is_absolute_path path =
    if ltb (length path) 3
    then false
    else char_at path 1 == b':' || (char_at path 0 == backslash && char_at path 1 == backslash)

abbrev pub max_path : ℕ
max_path = 260

-- convertToShortPath, for Windows without EACOPY_USE_SYMLINK_FOR_LONGPATHS.
unfoldable pub convert_to_short_path : WString → WString
convert_to_short_path path =
    if ltb (length path) (max_path - 12)
    then path
    else if char_at path 0 == backslash && char_at path 1 == backslash
    then (if char_at path 2 == b'?' then path else codes "\\\\?\\UNC\\" ++ drop 2 path)
    else codes "\\\\?\\" ++ path

-- What stands before the last occurrence of a character, and what stands behind it.
unfoldable pub split_last : ℕ → WString → Option (WString × WString)
split_last x [] = none
split_last x (c ∷ cs) = elim (split_last x cs) [
  | some (before, behind) ↦ some (c ∷ before, behind)
  | none ↦ if c == x then some ([], cs) else none
]

-- The text behind the last backslash, or the whole text: `wcsrchr(s, '\\') + 1`.
unfoldable pub file_name_of : WString → WString
unfolding split_last
file_name_of path = elim (split_last backslash path) [
  | none ↦ path
  | some (before, behind) ↦ behind
]

-- `_wcsicmp` folds the letters of the C locale.
abbrev pub to_lower : ℕ → ℕ
to_lower c = if leb 65 c && leb c 90 then c + 32 else c

-- equalsIgnoreCase
unfoldable pub equals_ignore_case : WString → WString → Bool
equals_ignore_case a b = text_eq (map to_lower a) (map to_lower b)

-- startsWithIgnoreCase
unfoldable pub starts_with_ignore_case : WString → WString → Bool
starts_with_ignore_case str [] = true
starts_with_ignore_case [] (b ∷ bs) = false
starts_with_ignore_case (a ∷ as') (b ∷ bs) =
    (to_lower a == to_lower b) && starts_with_ignore_case as' bs
