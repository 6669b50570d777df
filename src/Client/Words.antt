-- ===== src/Client/Words.antt =====
-- What parse_cmdline of source/EACopyClient.cpp makes of words with blanks between them.
use eacopy.Base.{
  ℕ, zero, suc, ◌<◌, ◌≤◌, ◌≡◌, refl, ap, sym, ◌∙◌, Bool, true, false, ◌&&◌, ◌||◌, not, List, [],
  ◌∷◌, ◌++◌, append-nil, append_assoc, some, length, length-append, ltb, lt→ltb, ◌==◌,
  if◌then◌else◌, arith, inl, inr, Bool-cases,
}
use eacopy.Base.Bytes.{Bytes}
use eacopy.Client.Arguments.{
  space, double_quote, ends, slashes, put, scan_program, skip_blanks, scan_argument, scan_arguments,
  num_chars, parse_cmdline, arguments_of, with_room, is_blank, is_line_end,
}

-- A word has no blank, no quote and no end of a line. It may have backslashes.
abbrev pub is_plain : ℕ → Bool
is_plain c = not (ends false c) && not (c == double_quote)

abbrev pub IsPlain : Bytes → Type 0
IsPlain [] = Unit {0}
IsPlain (c ∷ word) = (is_plain c ≡ true) × IsPlain word

abbrev pub IsWord : Bytes → Type 0
IsWord [] = ⊥
IsWord (c ∷ word) = IsPlain (c ∷ word)

abbrev pub AreWords : List Bytes → Type 0
AreWords [] = Unit {0}
AreWords (word ∷ words) = IsWord word × AreWords words

-- Words with a blank in front of each.
abbrev pub spaced : List Bytes → Bytes
spaced [] = []
spaced (word ∷ words) = space ∷ (word ++ spaced words)

falsum : ¬ (false ≡ true)
falsum e = ground (arith, e)

and_false : (b : Bool) → (b && false) ≡ false
and_false true = refl
and_false false = refl

is_plain-lem : (c : ℕ) → is_plain c ≡ true → (ends false c ≡ false) × ((c == double_quote) ≡ false)
is_plain-lem c v = elim (Bool-cases (ends false c)) [
  | inl e ↦ absurd (falsum (ap (λ b. not b && not (c == double_quote)) (sym e) ∙ v))
  | inr e ↦ elim (Bool-cases (c == double_quote)) [
    | inl q ↦ absurd (
        falsum (sym (ap (λ b. not (ends false c) && not b) q ∙ and_false (not (ends false c))) ∙ v))
    | inr q ↦ (e, q)
  ]
]

scan_char :
    (c n : ℕ) (text : Bytes)
    → is_plain c ≡ true
    → scan_argument false n (c ∷ text) ≡ (
        if c == 92
        then scan_argument false (suc n) text
        else put (slashes n ++ c ∷ []) (scan_argument false 0 text))
unfolding scan_argument
scan_char c n [] v =
    let (no_end, no_quote) = is_plain-lem c v in
    elim (Bool-cases (c == 92)) [
      | inl t ↦ rw t refl
      | inr t ↦
          rw (t, no_quote, no_end)
            (ap (λ l. (l, [], false)) (sym (append-nil (slashes n ++ c ∷ []))))
    ]
scan_char c n (d ∷ text) v =
    let (no_end, no_quote) = is_plain-lem c v in
    elim (Bool-cases (c == 92)) [
      | inl t ↦ rw (scan_argument, t) refl
      | inr t ↦ rw (scan_argument, t, no_quote, no_end) refl
    ]

slashes-append : (n : ℕ) (word : Bytes) → slashes (suc n) ++ word ≡ slashes n ++ 92 ∷ word
slashes-append zero word = refl
slashes-append (suc n) word = ap (◌∷◌ 92) (slashes-append n word)

is_slash : (c : ℕ) → (c == 92) ≡ true → 92 ≡ c
is_slash c t = ground (arith, t)

scan_word :
    (word tail : Bytes) (n : ℕ)
    → IsPlain word
    → ((m : ℕ) → scan_argument false m tail ≡ (slashes m, tail, false))
    → scan_argument false n (word ++ tail) ≡ (slashes n ++ word, tail, false)
scan_word [] tail n v stop = stop n ∙ ap (λ t. (t, tail, false)) (sym (append-nil (slashes n)))
scan_word (c ∷ word) tail n (here, v) stop = elim (Bool-cases (c == 92)) [
  | inl t ↦
      let back : slashes (suc n) ++ word ≡ slashes n ++ c ∷ word =
        slashes-append n word ∙ ap (λ d. slashes n ++ d ∷ word) (is_slash c t) in
      let step : scan_argument false n (c ∷ (word ++ tail))
          ≡ scan_argument false (suc n) (word ++ tail) =
        scan_char c n (word ++ tail) here ∙ rw t refl in
      step ∙ scan_word word tail (suc n) v stop ∙ ap (λ l. (l, tail, false)) back
  | inr t ↦
      let step : scan_argument false n (c ∷ (word ++ tail))
          ≡ put (slashes n ++ c ∷ []) (scan_argument false 0 (word ++ tail)) =
        scan_char c n (word ++ tail) here ∙ rw t refl in
      step
      ∙ ap (put (slashes n ++ c ∷ [])) (scan_word word tail 0 v stop)
      ∙ ap (λ l. (l, tail, false)) (append_assoc (slashes n) (c ∷ []) word)
]

scan_blank :
    (text : Bytes) (m : ℕ) → scan_argument false m (space ∷ text) ≡ (slashes m, space ∷ text, false)
unfolding scan_argument
scan_blank [] m = refl
scan_blank (c ∷ text) m = refl

scan_stop :
    (words : List Bytes) (m : ℕ)
    → scan_argument false m (spaced words) ≡ (slashes m, spaced words, false)
unfolding scan_argument
scan_stop [] m = refl
scan_stop (word ∷ words) m = scan_blank (word ++ spaced words) m

blank_free : (c : ℕ) → ends false c ≡ false → (is_blank c || is_line_end c) ≡ false
blank_free c e = elim (Bool-cases (is_line_end c)) [
  | inl t ↦ absurd (falsum (sym e ∙ rw t refl))
  | inr t ↦ elim (Bool-cases (is_blank c)) [
    | inl b ↦ absurd (falsum (sym e ∙ rw (t, b) refl))
    | inr b ↦ rw (b, t) refl
  ]
]

skip_blanks-plain : (c : ℕ) (text : Bytes) → is_plain c ≡ true → skip_blanks (c ∷ text) ≡ c ∷ text
unfolding skip_blanks
skip_blanks-plain c text v =
    let (no_end, no_quote) = is_plain-lem c v in rw (skip_blanks, blank_free c no_end) refl

abbrev before : Bytes → List Bytes → List Bytes
before word words = word ∷ words

first_word :
    (rounds : ℕ) (word : Bytes) (words : List Bytes)
    → IsWord word
    → scan_arguments (suc rounds) false (word ++ spaced words)
      ≡ word ∷ scan_arguments rounds false (spaced words)
unfolding scan_arguments
first_word rounds [] words v = absurd v
first_word rounds (c ∷ word) words (here, v) =
    let text = word ++ spaced words in
    let next = scan_argument false 0 (c ∷ text) in
    let step : scan_arguments (suc rounds) false (c ∷ text)
        ≡ next.0 ∷ scan_arguments rounds next.2 next.1 =
      rw (scan_arguments, skip_blanks-plain c text here) refl in
    step
    ∙ ap (λ r. before r.0 (scan_arguments rounds r.2 r.1))
        (scan_word (c ∷ word) (spaced words) 0 (here, v) (scan_stop words))

scan_arguments-spaced :
    (rounds : ℕ) (words : List Bytes)
    → AreWords words
    → length words ≤ rounds
    → scan_arguments rounds false (spaced words) ≡ words
unfolding scan_arguments skip_blanks
scan_arguments-spaced zero [] v m = refl
scan_arguments-spaced (suc rounds) [] v m = refl
scan_arguments-spaced zero (word ∷ words) v m = absurd (omega arith)
scan_arguments-spaced (suc rounds) (word ∷ words) (first, v) m =
    first_word rounds word words first
    ∙ ap (◌∷◌ word) (scan_arguments-spaced rounds words v (omega arith))

scan_program-word :
    (word tail : Bytes) → IsPlain word → scan_program false (word ++ space ∷ tail) ≡ (word, tail)
unfolding scan_program
scan_program-word [] tail v = refl
scan_program-word (c ∷ word) tail (here, v) =
    let (no_end, no_quote) = is_plain-lem c here in
    let step = scan_program-word word tail v in rw (scan_program, no_quote, no_end, step) refl

scan_program_alone : (word : Bytes) → IsPlain word → scan_program false word ≡ (word, [])
unfolding scan_program
scan_program_alone [] v = refl
scan_program_alone (c ∷ word) (here, v) =
    let (no_end, no_quote) = is_plain-lem c here in
    rw (scan_program, no_quote, no_end, scan_program_alone word v) refl

length-spaced : (words : List Bytes) → length words ≤ length (spaced words)
length-spaced [] = omega arith
length-spaced (word ∷ words) = omega (arith, length-append word (spaced words), length-spaced words)

-- The two scans, before the sizes are looked at.
scanned :
    (program : Bytes) (words : List Bytes)
    → IsPlain program
    → AreWords words
    → arguments_of (program ++ spaced words) ≡ program ∷ words
unfolding scan_arguments skip_blanks
scanned program [] p v =
    ap (λ r. before r.0 (scan_arguments (suc (length r.1)) false r.1))
      (ap (scan_program false) (append-nil program) ∙ scan_program_alone program p)
scanned program (word ∷ words) p (first, v) =
    let tail = word ++ spaced words in
    let enough : length words ≤ length tail =
      omega (arith, length-append word (spaced words), length-spaced words) in
    ap (λ r. before r.0 (scan_arguments (suc (length r.1)) false r.1))
      (scan_program-word program tail p)
    ∙ ap (◌∷◌ program) (
        first_word (length tail) word words first
        ∙ ap (◌∷◌ word) (scan_arguments-spaced (length tail) words v enough))

-- A line of words without blanks and quotes in them, with a blank between each and the next: when there
-- is room for them, parse_cmdline gives just these words, with the backslashes in them as they are.
pub parse_cmdline-spaced :
    (first : Bytes) (words : List Bytes)
    → IsPlain first
    → AreWords words
    → length words < 63
    → num_chars (first ∷ words) ≤ 1024
    → parse_cmdline (first ++ spaced words) ≡ some (first ∷ words)
unfolding parse_cmdline
parse_cmdline-spaced first words p v few small =
    let few' : ltb (length (first ∷ words)) 64 ≡ true =
      lt→ltb (suc (length words)) 64 (omega arith) in
    let small' : ltb (num_chars (first ∷ words)) 1025 ≡ true =
      lt→ltb (num_chars (first ∷ words)) 1025 (omega (arith, small)) in
    ap with_room (scanned first words p v) ∙ rw (few', small') refl
