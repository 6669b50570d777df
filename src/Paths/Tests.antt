-- ===== src/Paths/Tests.antt =====
-- Path functions at concrete paths.
use eacopy.Base.{◌≡◌, refl, false, [], ◌++◌, some, WString, codes}
use eacopy.Paths.{get_cleanedup_path, file_name_of}
use eacopy.Paths.Cleanup.{IsClean, names, get_cleanedup_path-IsClean}

cleaned : get_cleanedup_path (codes "//a//b\\/c") 2 false ≡ some (codes "//a\\b\\c\\")
unfolding get_cleanedup_path
cleaned = refl

file_name : file_name_of (codes "a\\b\\c.txt") ≡ codes "c.txt"
unfolding file_name_of
file_name = refl

get_cleanedup_path-IsClean_example :
    (tail : WString) × (codes "//a\\b\\c\\" ≡ codes "//" ++ tail)
    × IsClean false tail
    × (names [] tail ≡ names [] (codes "a//b\\/c"))
get_cleanedup_path-IsClean_example = get_cleanedup_path-IsClean (codes "//a//b\\/c") 2 false cleaned
