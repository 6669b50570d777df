-- ===== src/Settings/DirCopy.antt =====
-- /DCOPY on the command line.
use eacopy.Base.{ℕ, ◌≡◌, refl, true, false, [], ◌∷◌, ◌==◌, WString, codes, arith}
use eacopy.Paths.{to_lower, equals_ignore_case, starts_with_ignore_case}
use eacopy.Settings.{no_command, Reading, parsed}
use eacopy.Settings.Options.{read_option}
use eacopy.Settings.Arguments.{read_argument}

dcopy_head :
    (a b c d : ℕ) (rest : WString) (r : Reading)
    → a ≡ 47
    → to_lower b ≡ 100
    → to_lower c ≡ 99
    → (d == 58) ≡ false
    → read_option (a ∷ b ∷ c ∷ d ∷ rest) r
      ≡ parsed (record r { settings = record r.settings { delta_compression_threshold = 0 } })
unfolding read_option equals_ignore_case starts_with_ignore_case
dcopy_head a b c d rest r slash h1 h2 h3 = rw (slash, h1, h2, h3) refl

-- An argument that begins with /DCOPY: is read as /DC: the directory copy flags stay as they were, and
-- delta compression is turned on for files of any size.
pub read_argument-dcopy :
    (arg : WString) (r : Reading)
    → starts_with_ignore_case arg (codes "/DCOPY:") ≡ true
    → read_argument arg r
      ≡ parsed (record r {
        settings = record r.settings { delta_compression_threshold = 0 };
        active_command = no_command;
      })
unfolding read_argument starts_with_ignore_case
read_argument-dcopy [] r h = absurd (cc)
read_argument-dcopy (a ∷ []) r h = absurd (ground (arith, h))
read_argument-dcopy (a ∷ b ∷ []) r h = absurd (ground (arith, h))
read_argument-dcopy (a ∷ b ∷ c ∷ []) r h = absurd (ground (arith, h))
read_argument-dcopy (a ∷ b ∷ c ∷ d ∷ rest) r h =
    let slash : a ≡ 47 = ground (arith, h) in
    rw (slash) (
      dcopy_head 47 b c d rest (record r { active_command = no_command }) refl (ground (arith, h))
        (ground (arith, h)) (ground (arith, h)))
