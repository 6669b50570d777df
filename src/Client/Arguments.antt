-- ===== src/Client/Arguments.antt =====
-- parse_cmdline of source/EACopyClient.cpp, which takes a line apart as the C runtime does with a command
-- line. The text ends where its list ends.
use eacopy.Base.{
  ℕ, zero, suc, ◌+◌, ◌/◌, ◌%◌, Bool, true, false, ◌&&◌, ◌||◌, not, List, [], ◌∷◌, ◌++◌, Option,
  none, some, length, ltb, ◌==◌, if◌then◌else◌,
}
use eacopy.Base.Bytes.{Bytes}

abbrev pub space : ℕ
space = 32

abbrev pub double_quote : ℕ
double_quote = 34

abbrev pub is_blank : ℕ → Bool
is_blank c = c == space || c == 9

abbrev pub is_line_end : ℕ → Bool
is_line_end c = c == 13 || c == 10

-- Whether a character ends an argument.
abbrev pub ends : (in_quote : Bool) → ℕ → Bool
ends in_quote c = is_line_end c || (not in_quote && is_blank c)

-- The first argument, the program's name: what is copied, and what stands behind.
unfoldable pub scan_program : (in_quote : Bool) → Bytes → Bytes × Bytes
scan_program in_quote [] = ([], [])
scan_program in_quote (c ∷ cs) = elim (c == double_quote) [
  | true ↦ scan_program (not in_quote) cs
  | false ↦ elim (ends in_quote c) [
    | true ↦ ([], cs)
    | false ↦ let (argument, behind) = scan_program in_quote cs in (c ∷ argument, behind)
  ]
]

unfoldable pub skip_blanks : Bytes → Bytes
skip_blanks [] = []
skip_blanks (c ∷ cs) =
    let rest = skip_blanks cs in if is_blank c || is_line_end c then rest else c ∷ cs

abbrev pub slashes : ℕ → Bytes
slashes zero = []
slashes (suc n) = 92 ∷ slashes n

-- An argument, what stands behind it, and whether a quote is still open.
abbrev pub Scanned : Type 0
Scanned = Bytes × Bytes × Bool

abbrev pub put : Bytes → Scanned → Scanned
put copied (argument, behind, in_quote) = (copied ++ argument, behind, in_quote)

-- The loop through one argument. `num_slash` backslashes were counted that are not copied yet.
unfoldable pub scan_argument : (in_quote : Bool) → (num_slash : ℕ) → Bytes → Scanned
scan_argument in_quote n [] = (slashes n, [], in_quote)
scan_argument in_quote n (c ∷ []) =
    if c == 92
    then (slashes (suc n), [], in_quote)
    else if c == double_quote
    then (if n % 2 == 0
        then (slashes (n / 2), [], not in_quote)
        else (slashes (n / 2) ++ c ∷ [], [], in_quote))
    else if ends in_quote c
    then (slashes n, c ∷ [], in_quote)
    else (slashes n ++ c ∷ [], [], in_quote)
scan_argument in_quote n (c ∷ d ∷ cs) = elim (c == 92) [
  | true ↦ scan_argument in_quote (suc n) (d ∷ cs)
  | false ↦ elim (c == double_quote) [
    | true ↦ elim (n % 2 == 0) [
      | true ↦ elim (in_quote && d == double_quote) [
        | true ↦ put (slashes (n / 2) ++ d ∷ []) (scan_argument in_quote 0 cs)
        | false ↦ put (slashes (n / 2)) (scan_argument (not in_quote) 0 (d ∷ cs))
      ]
      | false ↦ put (slashes (n / 2) ++ c ∷ []) (scan_argument in_quote 0 (d ∷ cs))
    ]
    | false ↦ elim (ends in_quote c) [
      | true ↦ (slashes n, c ∷ d ∷ cs, in_quote)
      | false ↦ put (slashes n ++ c ∷ []) (scan_argument in_quote 0 (d ∷ cs))
    ]
  ]
]

-- The loop over the arguments behind the first, over as many rounds as are given. One more than there
-- are characters suffices.
unfoldable pub scan_arguments : ℕ → (in_quote : Bool) → Bytes → List Bytes
unfolding scan_argument skip_blanks
scan_arguments zero in_quote text = []
scan_arguments (suc rounds) in_quote text = elim (skip_blanks text) [
  | [] ↦ []
  | c ∷ cs ↦
      let (argument, behind, in_quote') = scan_argument in_quote 0 (c ∷ cs) in
      argument ∷ scan_arguments rounds in_quote' behind
]

abbrev pub num_chars : List Bytes → ℕ
num_chars [] = 0
num_chars (argument ∷ arguments) = length argument + 1 + num_chars arguments

-- All arguments, whatever the room for them.
abbrev pub arguments_of : Bytes → List Bytes
arguments_of line =
    let (program, behind) = scan_program false line in
    program ∷ scan_arguments (suc (length behind)) false behind

abbrev pub with_room : List Bytes → Option (List Bytes)
with_room arguments =
    if ltb (length arguments) 64 && ltb (num_chars arguments) 1025 then some arguments else none

-- parse_cmdline with the buffers that gatherFilesOrWildcardsFromFile gives it: 64 pointers, the last of
-- them a null, and 1024 characters with the terminators. `none` when these are overrun.
unfoldable pub parse_cmdline : Bytes → Option (List Bytes)
unfolding scan_program scan_arguments
parse_cmdline line = with_room (arguments_of line)
