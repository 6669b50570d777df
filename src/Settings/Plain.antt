-- ===== src/Settings/Plain.antt =====
-- Arguments that do not begin with a slash.
use eacopy.Base.{
  ap, sym, subst, ◌+◌, ◌≤◌, ◌++◌, append-nil, append_assoc, ◌∙◌, some, is_empty, ℕ, ◌≡◌, refl, Bool,
  true, false, List, [], ◌∷◌, ◌==◌, if◌then◌else◌, WString, codes, arith,
}
use eacopy.Paths.{
  get_cleanedup_path, to_lower, char_at, equals_ignore_case, starts_with_ignore_case,
}
use eacopy.Settings.{default_settings, no_command, Reading, Parsed, parsed}
use eacopy.Settings.Parameters.{cleaned_up, read_parameter, read_other}
use eacopy.Settings.Options.{read_option}
use eacopy.Settings.Arguments.{first_reading, read_argument, read_arguments, read_settings}

not_option_cons :
    (c : ℕ) (cs : WString) (r : Reading)
    → (to_lower c == 47) ≡ false
    → read_option (c ∷ cs) r ≡ read_other (c ∷ cs) r
unfolding read_option equals_ignore_case starts_with_ignore_case
not_option_cons c cs r h = rw h refl

not_option :
    (arg : WString) (r : Reading)
    → (char_at arg 0 == 47) ≡ false
    → read_option arg r ≡ read_other arg r
unfolding read_option equals_ignore_case starts_with_ignore_case
not_option [] r h = refl
not_option (c ∷ cs) r h = not_option_cons c cs r (ground (arith, h))

inactive_other :
    (arg : WString) (r : Reading)
    → (char_at arg 0 == 47) ≡ false
    → read_other arg (record r { active_command = no_command })
      ≡ read_parameter arg (record r { active_command = no_command })
unfolding read_other
inactive_other arg r h = rw (read_other, h) refl

plain_other :
    (arg : WString) (r : Reading)
    → (char_at arg 0 == 47) ≡ false
    → r.active_command ≡ no_command
    → read_other arg r ≡ read_parameter arg r
plain_other arg r h inactive =
    let same_reading : record r { active_command = no_command } ≡ r =
      ap (λ command. record r { active_command = command }) (sym inactive) in
    subst (λ r'. read_other arg r' ≡ read_parameter arg r') same_reading (inactive_other arg r h)

plain_round :
    (arg : WString) (r : Reading)
    → (char_at arg 0 == 47) ≡ false
    → read_argument arg r ≡ read_option arg r
unfolding read_argument
plain_round arg r h = rw (read_argument, h) refl

read_argument-Plain :
    (arg : WString) (r : Reading)
    → (char_at arg 0 == 47) ≡ false
    → r.active_command ≡ no_command
    → read_argument arg r ≡ read_parameter arg r
read_argument-Plain arg r h inactive =
    plain_round arg r h ∙ not_option arg r h ∙ plain_other arg r h inactive

-- The reading after one more wildcard.
abbrev pushed : WString → Reading → Reading
pushed arg r = record r {
  settings = record r.settings { files_or_wildcards = r.settings.files_or_wildcards ++ arg ∷ [] };
  param_index = r.param_index + 1;
}

wildcard_read :
    (arg : WString) (r : Reading) → 2 ≤ r.param_index → read_parameter arg r ≡ parsed (pushed arg r)
unfolding read_parameter
wildcard_read arg r from =
    let first : (r.param_index == 0) ≡ false = ground (arith, from) in
    let second : (r.param_index == 1) ≡ false = ground (arith, from) in rw (first, second) refl

cleaned_up-some :
    (arg path : WString) (next : WString → Parsed Reading)
    → get_cleanedup_path arg 2 false ≡ some path
    → cleaned_up arg next ≡ next path
cleaned_up-some arg path next fits = rw (cleaned_up, fits) refl

source_read :
    (arg path : WString) (r : Reading)
    → (r.param_index == 0) ≡ true
    → get_cleanedup_path arg 2 false ≡ some path
    → read_parameter arg r
      ≡ parsed (record r {
        settings = record r.settings { source_directory = path };
        param_index = r.param_index + 1;
      })
unfolding read_parameter
source_read arg path r first fits = rw first (cleaned_up-some arg path _ fits)

dest_read :
    (arg path : WString) (r : Reading)
    → (r.param_index == 0) ≡ false
    → (r.param_index == 1) ≡ true
    → get_cleanedup_path arg 2 false ≡ some path
    → read_parameter arg r
      ≡ parsed (record r {
        settings = record r.settings { dest_directory = path };
        param_index = r.param_index + 1;
      })
unfolding read_parameter
dest_read arg path r first second fits = rw (first, second) (cleaned_up-some arg path _ fits)

-- No argument begins with a slash.
abbrev pub Plain : List WString → Type 0
Plain [] = Unit
Plain (arg ∷ args) = ((char_at arg 0 == 47) ≡ false) × Plain args

next_argument :
    (arg : WString) (args : List WString) (r r' : Reading)
    → read_argument arg r ≡ parsed r'
    → read_arguments (arg ∷ args) r ≡ read_arguments args r'
unfolding read_arguments
next_argument arg args r r' e = rw (read_arguments, e) refl

wildcards :
    (args : List WString) (r : Reading)
    → Plain args
    → r.active_command ≡ no_command
    → 2 ≤ r.param_index
    → (n : ℕ) × (read_arguments args r
        ≡ parsed (record r {
          settings = record r.settings {
            files_or_wildcards = r.settings.files_or_wildcards ++ args;
          };
          param_index = n;
        }))
unfolding read_arguments
wildcards [] r plain inactive from =
    (r.param_index, rw (append-nil r.settings.files_or_wildcards) refl)
wildcards (arg ∷ args) r (here, plain) inactive from =
    let fs = r.settings.files_or_wildcards in
    let e = read_argument-Plain arg r here inactive ∙ wildcard_read arg r from in
    let (n, rest) = wildcards args (pushed arg r) plain inactive (omega (arith, from)) in
    (
      n,
      next_argument arg args r (pushed arg r) e ∙ rest ∙ rw (append_assoc fs (arg ∷ []) args) refl,
    )

first_parameters :
    (source dest source' dest' : WString) (files : List WString)
    → Plain (source ∷ dest ∷ files)
    → get_cleanedup_path source 2 false ≡ some source'
    → get_cleanedup_path dest 2 false ≡ some dest'
    → read_arguments (source ∷ dest ∷ files) first_reading
      ≡ read_arguments files (record first_reading {
        settings = record default_settings { source_directory = source'; dest_directory = dest' };
        param_index = 2;
      })
first_parameters source dest source' dest' files (h1, (h2, plain)) fits1 fits2 =
    let r1 = record first_reading {
      settings = record default_settings { source_directory = source' };
      param_index = 1;
    } in
    let r2 = record r1 {
      settings = record r1.settings { dest_directory = dest' };
      param_index = 2;
    } in
    next_argument source (dest ∷ files) first_reading r1 (
      read_argument-Plain source first_reading h1 refl
      ∙ source_read source source' first_reading refl fits1)
    ∙ next_argument dest files r1 r2
        (read_argument-Plain dest r1 h2 refl ∙ dest_read dest dest' r1 refl refl fits2)

-- When no argument begins with a slash, and the first two are paths that fit the buffer, the command
-- line is read: they are the source and the destination, cleaned up and then optimized, the others are
-- the wildcards in their order, or *.* if there are none, and all other settings keep their defaults.
pub read_settings-Plain :
    (optimize : WString → Bool → WString) (source dest source' dest' : WString)
    (files : List WString)
    → Plain (source ∷ dest ∷ files)
    → get_cleanedup_path source 2 false ≡ some source'
    → get_cleanedup_path dest 2 false ≡ some dest'
    → read_settings optimize (source ∷ dest ∷ files)
      ≡ parsed (record default_settings {
        source_directory = optimize source' true;
        dest_directory = optimize dest' true;
        files_or_wildcards = if is_empty files then codes "*.*" ∷ [] else files;
      })
unfolding read_settings
read_settings-Plain optimize source dest source' dest' files plain fits1 fits2 =
    let start = record first_reading {
      settings = record default_settings { source_directory = source'; dest_directory = dest' };
      param_index = 2;
    } in
    let (n, rest) = wildcards files start plain.1.1 refl (omega arith) in
    rw (read_settings, first_parameters source dest source' dest' files plain fits1 fits2, rest)
      refl
