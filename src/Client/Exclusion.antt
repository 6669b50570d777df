-- ===== src/Client/Exclusion.antt =====
-- What excludeFilesFromFile of source/EACopyClient.cpp does with the lines of a buffer.
use eacopy.Base.{
  ℕ, suc, ◌+◌, ◌≤◌, ◌<◌, ◌≡◌, refl, ap, sym, ◌∙◌, subst, Bool, true, false, List, [], ◌∷◌, ◌++◌,
  some, length, if◌then◌else◌, ◌==◌, arith, inl, inr, Bool-cases, WString, leb,
}
use eacopy.Base.Bytes.{Bytes}
use eacopy.Paths.{convert_slash_to_backslash}
use eacopy.Os.{Os}
use eacopy.Settings.{Settings}
use eacopy.Client.{Work, Ended, value, failed, Step, pure, resume, ◌>>=◌, Libraries, Link, add_path}
use eacopy.Client.Lines.{
  add_line, cut_lines, until_nul, widen, offer, offer_all, has_wildcard, exclude_line, after_lines,
  handle_buffer,
}
use eacopy.Client.LineList.{longest, NoStops, Stop-cases, no_zero, cut_nil, cut_lines-NoStops}

-- What the lines of an exclude file lead to: they count as handled, up to one with a wildcard.
abbrev pub exclude_all : List Bytes → List WString → Bool × List WString
exclude_all [] handled = (true, handled)
exclude_all (line ∷ lines) handled =
    let path = convert_slash_to_backslash (widen line) in
    let rest = exclude_all lines (add_path path handled) in
    if has_wildcard path then (false, handled) else rest

pub exclude_all-append :
    (lines more : List Bytes) (handled : List WString)
    → exclude_all (lines ++ more) handled ≡ (
        let (went, h) = exclude_all lines handled in
        if went then exclude_all more h else (false, h))
exclude_all-append [] more handled = refl
exclude_all-append (line ∷ lines) more handled =
    let path = convert_slash_to_backslash (widen line) in
    elim (Bool-cases (has_wildcard path)) [
      | inl star ↦ rw star refl
      | inr plain ↦ rw plain (exclude_all-append lines more (add_path path handled))
    ]

-- A file that is open for reading, of which every read gives some of the rest, and nothing only at the end.
pub record Input (w : Os) : Type 0 where
  pub remaining : w.State → Bytes
  pub read-remaining :
      (size : ℕ) (s : w.State)
      → 0 < size
      → (bytes : Bytes) × ((w.read size s).0 ≡ some bytes)
        × (remaining s ≡ bytes ++ remaining (w.read size s).1)
        × (bytes ≡ [] → remaining s ≡ [])

module _ (w : Os) (libraries : Libraries w) (settings : Settings) (link : Link) where
  abbrev excluded : Work w.State → Bool × List WString → Ended (Unit {0}) × Work w.State
  excluded work (went, handled) =
      (if went then value tt else failed, record work { handled_files = handled })

  abbrev pub excludes : Bytes → Step w.State (Unit {0})
  excludes = exclude_line w libraries settings link

  abbrev pub counted : ℕ → Work w.State → Bool × List WString → Ended (ℕ × ℕ) × Work w.State
  counted n work (went, handled) =
      (if went then value (n, n) else failed, record work { handled_files = handled })

  leb_refl : (n : ℕ) → leb n n ≡ true
  leb_refl n = ground arith

  pub offer_all-exclude :
      (lines : List Bytes) (n : ℕ) (work : Work w.State)
      → offer_all excludes lines n n work
        ≡ counted (length lines + n) work (exclude_all lines work.handled_files)
  unfolding offer_all exclude_line
  offer_all-exclude [] n work = ap (λ k. (value (k, k), work)) (omega arith)
  offer_all-exclude (line ∷ lines) n work =
      let path = convert_slash_to_backslash (widen line) in
      let later = record work { handled_files = add_path path work.handled_files } in
      let sum : length lines + suc n ≡ suc (length lines) + n = omega arith in
      elim (Bool-cases (has_wildcard path)) [
        | inl star ↦ rw (leb_refl n, star) refl
        | inr plain ↦
            let step : offer_all excludes (line ∷ lines) n n work
                ≡ offer_all excludes lines (suc n) (suc n) later =
              rw (offer_all, offer, exclude_line, leb_refl n, plain) refl in
            let all : exclude_all (line ∷ lines) work.handled_files
                ≡ exclude_all lines later.handled_files =
              rw plain refl in
            step
            ∙ offer_all-exclude lines (suc n) later
            ∙ ap (λ k. counted k work (exclude_all lines later.handled_files)) sum
            ∙ ap (counted (suc (length lines) + n) work) (sym all)
      ]

  -- What a run leaves: how it ends, and the handled files.
  abbrev pub Left : Ended (Unit {0}) × Work w.State → Bool × List WString → Type 0
  Left (e, work) (went, handled) =
      (e ≡ (if went then value tt else failed)) × (work.handled_files ≡ handled)

  pub at_least : (n : ℕ) (text : Bytes) → n ≤ longest n text
  at_least n [] = omega arith
  at_least n (c ∷ text) = omega arith

  until_nul-NoStops : (left : Bytes) → NoStops left → until_nul left ≡ left
  until_nul-NoStops [] v = refl
  until_nul-NoStops (c ∷ left) (here, v) = elim (Stop-cases c) [
    | inl (z, stop) ↦ absurd (cc)
    | inr (inl (z, stop)) ↦ absurd (cc)
    | inr (inr (z, stop)) ↦ elim (Bool-cases (c == 0)) [
      | inl t ↦ absurd (no_zero c (ground (arith, t)) stop)
      | inr t ↦ rw t (ap (◌∷◌ c) (until_nul-NoStops left v))
    ]
  ]

  abbrev offered : ℕ → Work w.State → Bool × List WString → Ended ℕ × Work w.State
  offered n work (went, handled) =
      (if went then value n else failed, record work { handled_files = handled })

  offer-exclude :
      (line : Bytes) (n : ℕ) (work : Work w.State)
      → offer excludes line n n work
        ≡ offered (suc n) work (exclude_all (line ∷ []) work.handled_files)
  unfolding offer exclude_line
  offer-exclude line n work =
      elim (Bool-cases (has_wildcard (convert_slash_to_backslash (widen line)))) [
        | inl star ↦ rw (leb_refl n, star) refl
        | inr plain ↦ rw (leb_refl n, plain) refl
      ]

  offered-Left :
      (n : ℕ) (work : Work w.State) (r : Bool × List WString)
      → Left (resume (λ k. pure tt) (offered n work r)) r
  offered-Left n work (true, handled) = (refl, refl)
  offered-Left n work (false, handled) = (refl, refl)

  -- The last round.
  pub handle_buffer-end :
      (rest : Bytes → ℕ → ℕ → Step w.State (Unit {0})) (left : Bytes) (n : ℕ) (work : Work w.State)
      → NoStops left
      → Left
          (handle_buffer w excludes rest left [] n n work)
          (exclude_all (add_line left []) work.handled_files)
  unfolding offer_all add_line
  handle_buffer-end rest [] n work v = (refl, refl)
  handle_buffer-end rest (c ∷ left) n work v =
      let all = exclude_all ((c ∷ left) ∷ []) work.handled_files in
      let cut : cut_lines [] ((c ∷ left) ++ []) ≡ ([], c ∷ left) =
        cut_lines-NoStops [] (c ∷ left) [] v ∙ cut_nil (c ∷ left) in
      let step : handle_buffer w excludes rest (c ∷ left) [] n n work
          ≡ resume (λ k. pure tt) (offered (suc n) work all) =
        ap (λ r. (offer_all excludes r.0 n n >>= after_lines w excludes rest r.1 []) work) cut
        ∙ ap (λ line. (offer excludes line n n >>= λ k. pure tt) work)
            (until_nul-NoStops (c ∷ left) v)
        ∙ ap (resume (λ k. pure tt)) (offer-exclude (c ∷ left) n work) in
      subst (λ r. Left r all) (sym step) (offered-Left (suc n) work all)

  -- Another round: the lines of the buffer, and what follows.
  pub handle_buffer-more :
      (rest : Bytes → ℕ → ℕ → Step w.State (Unit {0})) (left : Bytes) (b : ℕ) (bytes : Bytes)
      (n : ℕ) (work : Work w.State)
      → NoStops left
      → (let (lines, left') = cut_lines left (b ∷ bytes) in
          handle_buffer w excludes rest left (b ∷ bytes) n n work
          ≡ (offer_all excludes lines n n >>= after_lines w excludes rest left' (b ∷ bytes)) work)
  handle_buffer-more rest [] b bytes n work v = refl
  handle_buffer-more rest (c ∷ left) b bytes n work v =
      ap (λ r. (offer_all excludes r.0 n n >>= after_lines w excludes rest r.1 (b ∷ bytes)) work)
        (cut_lines-NoStops [] (c ∷ left) (b ∷ bytes) v)

  pub follow :
      (rest : Bytes → ℕ → ℕ → Step w.State (Unit {0})) (left : Bytes) (b : ℕ) (bytes : Bytes)
      (k : ℕ) (work : Work w.State) (more : List Bytes) (r : Bool × List WString)
      → ((handled : List WString)
          → Left
              (rest left k k (record work { handled_files = handled }))
              (exclude_all more handled))
      → Left
          (resume (after_lines w excludes rest left (b ∷ bytes)) (counted k work r))
          (let (went, h) = r in if went then exclude_all more h else (false, h))
  follow rest left b bytes k work more (true, h) f = f h
  follow rest left b bytes k work more (false, h) f = (refl, refl)
