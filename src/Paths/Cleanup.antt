-- ===== src/Paths/Cleanup.antt =====
-- What getCleanedupPath makes of a path.
use eacopy.Base.{
  ℕ, zero, suc, ◌≡◌, ◌≢◌, ◌≤◌, refl, ap, Bool, true, false, ◌||◌, List, [], ◌∷◌, ◌++◌, some, length,
  take, drop, ◌==◌, if◌then◌else◌, WString, arith,
}
use eacopy.Paths.{backslash, slash, cleanup, get_cleanedup_path}

-- No slash, no two backslashes in a row (none at the start if one stands before), and a backslash at
-- the end.
abbrev pub IsClean : Bool → WString → Type 0
IsClean last [] = last ≡ true
IsClean last (c ∷ cs) = (c ≢ slash) × ((last ≡ true) → c ≢ backslash) × IsClean (c == backslash) cs

pub cleanup-IsClean : (last : Bool) (path : WString) → IsClean last (cleanup last path)
unfolding cleanup
cleanup-IsClean true [] = refl
cleanup-IsClean false [] = (omega arith, λ e. absurd (ground (arith, e)), refl)
cleanup-IsClean true (c ∷ cs) = ground (arith, cleanup-IsClean (c == slash || c == backslash) cs)
cleanup-IsClean false (c ∷ cs) = ground (arith, cleanup-IsClean (c == slash || c == backslash) cs)

-- A clean text is left as it is.
pub cleanup-of_clean : (last : Bool) (path : WString) → IsClean last path → cleanup last path ≡ path
unfolding cleanup
cleanup-of_clean last [] h = ground arith
cleanup-of_clean last (c ∷ cs) h =
    ground (arith, cleanup-of_clean (c == backslash) cs h.2, h.0, h.1)

abbrev flush : WString → List WString → List WString
flush [] rest = rest
flush (c ∷ cs) rest = (c ∷ cs) ∷ rest

-- The names between the separators, none of them empty. The first argument is the name begun.
abbrev pub names : WString → WString → List WString
names begun [] = flush begun []
names begun (c ∷ cs) =
    let fresh = names [] cs in
    let longer = names (begun ++ c ∷ []) cs in
    if c == slash || c == backslash then flush begun fresh else longer

names-cleanup :
    (last : Bool) (begun path : WString)
    → (last ≡ true → begun ≡ [])
    → names begun (cleanup last path) ≡ names begun path
unfolding cleanup
names-cleanup true begun [] h = refl
names-cleanup false begun [] h = ground arith
names-cleanup last begun (c ∷ cs) h = ground (
  arith,
  names-cleanup true [] cs (λ e. refl),
  names-cleanup false (begun ++ c ∷ []) cs (λ e. absurd (ground (arith, e))),
  h,
)

-- The path that comes out keeps what stands before the start index. Behind it every separator is a
-- single backslash, one stands at the end, and the names between the separators are the same.
pub get_cleanedup_path-IsClean :
    (path : WString) (n : ℕ) (last : Bool) {r : WString}
    → get_cleanedup_path path n last ≡ some r
    → (tail : WString) × (r ≡ take n path ++ tail)
      × IsClean last tail
      × (names [] tail ≡ names [] (drop n path))
unfolding get_cleanedup_path
get_cleanedup_path-IsClean path n last h = (
  cleanup last (drop n path),
  ground (arith, h),
  cleanup-IsClean last (drop n path),
  names-cleanup last [] (drop n path) (λ _. refl),
)

take-append : (n : ℕ) (xs ys : WString) → n ≤ length xs → take n (take n xs ++ ys) ≡ take n xs
take-append zero xs ys h = refl
take-append (suc n) [] ys h = absurd (omega arith)
take-append (suc n) (x ∷ xs) ys h = ap (◌∷◌ x) (take-append n xs ys (omega arith))

drop-append : (n : ℕ) (xs ys : WString) → n ≤ length xs → drop n (take n xs ++ ys) ≡ ys
drop-append zero xs ys h = refl
drop-append (suc n) [] ys h = absurd (omega arith)
drop-append (suc n) (x ∷ xs) ys h = drop-append n xs ys (omega arith)

-- Cleaning up twice is the same as once, for a path that reaches the start index.
pub get_cleanedup_path-idempotent :
    (path : WString) (n : ℕ) (last : Bool) {r : WString}
    → n ≤ length path
    → get_cleanedup_path path n last ≡ some r
    → get_cleanedup_path r n last ≡ some r
unfolding get_cleanedup_path
get_cleanedup_path-idempotent path n last {r} long h =
    let tail : WString = cleanup last (drop n path) in
    let e : r ≡ take n path ++ tail = ground (arith, h) in
    rw e (
      rw (take-append n path tail long) (
        rw (drop-append n path tail long) (
          rw (cleanup-of_clean last tail (cleanup-IsClean last (drop n path)))
            (ground (arith, h)))))
