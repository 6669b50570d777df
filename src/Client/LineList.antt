-- ===== src/Client/LineList.antt =====
-- The lines of a text, and what the loop of handleFilesOrWildcardsFromFile of source/EACopyClient.cpp
-- cuts from a buffer that holds a piece of it.
use eacopy.Base.{
  ℕ, suc, ◌≤◌, ◌≡◌, ◌≢◌, ◌⊎◌, max, refl, ap, sym, ◌∙◌, Bool, true, false, ◌||◌, List, [], ◌∷◌, ◌++◌,
  append-nil, append_assoc, length, length-append, if◌then◌else◌, ◌==◌, arith, inl, inr, Bool-cases,
}
use eacopy.Base.Bytes.{Bytes}
use eacopy.Client.Lines.{
  terminator, newline, no_stop, stop_of, strip_return, add_line, end_line, cut_lines,
}

-- The pieces between the newlines of a text.
abbrev pub segments : Bytes → List Bytes
segments [] = [] ∷ []
segments (c ∷ cs) = elim (segments cs) [
  | [] ↦ []
  | segment ∷ others ↦ if c == 10 then [] ∷ segment ∷ others else (c ∷ segment) ∷ others
]

-- Which of them are lines: a carriage return counts as part of the newline, and empty ones are none.
abbrev pub clean : List Bytes → List Bytes
clean [] = []
clean (last ∷ []) = add_line last []
clean (segment ∷ next ∷ segments) = add_line (strip_return segment) (clean (next ∷ segments))

abbrev pub lines_of : Bytes → List Bytes
lines_of text = clean (segments text)

-- The length of the longest segment, where `n` characters of the first one came before.
abbrev pub longest : ℕ → Bytes → ℕ
longest n [] = n
longest n (c ∷ cs) = max n (longest (if c == 10 then 0 else suc n) cs)

abbrev pub has_nul : Bytes → Bool
has_nul [] = false
has_nul (c ∷ cs) = c == 0 || has_nul cs

pub has_nul-append :
    (bytes more : Bytes)
    → has_nul (bytes ++ more) ≡ false
    → (has_nul bytes ≡ false) × (has_nul more ≡ false)
has_nul-append [] more v = (refl, v)
has_nul-append (c ∷ bytes) more v = elim (Bool-cases (c == 0)) [
  | inl z ↦ absurd (ground (arith, z, v))
  | inr z ↦
      let (front, back) = has_nul-append bytes more (ground (arith, z, v)) in
      (ground (arith, z, front), back)
]

-- Text without newlines and zeros.
abbrev pub NoStops : Bytes → Type 0
NoStops [] = Unit {0}
NoStops (c ∷ cs) = (stop_of c ≡ no_stop) × NoStops cs

pub Stop-cases :
    (c : ℕ)
    → ((c ≡ 0) × (stop_of c ≡ terminator))
      ⊎ (((c ≡ 10) × (stop_of c ≡ newline)) ⊎ (((c == 10) ≡ false) × (stop_of c ≡ no_stop)))
unfolding stop_of
Stop-cases c = elim (Bool-cases (c == 0)) [
  | inl z ↦ inl (ground (arith, z), rw z refl)
  | inr z ↦ elim (Bool-cases (c == 10)) [
    | inl t ↦ inr (inl (ground (arith, t), rw (z, t) refl))
    | inr t ↦ inr (inr (t, rw (z, t) refl))
  ]
]

pub no_zero : (c : ℕ) → c ≡ 0 → stop_of c ≢ no_stop
unfolding stop_of
no_zero c z stop = ground (arith, z, stop)

pub cut_nil : (current : Bytes) → cut_lines current [] ≡ ([], current)
unfolding cut_lines
cut_nil current = refl

pub cut_lines-NoStops :
    (current left bytes : Bytes)
    → NoStops left
    → cut_lines current (left ++ bytes) ≡ cut_lines (current ++ left) bytes
unfolding cut_lines
cut_lines-NoStops current [] bytes v = ap (λ t. cut_lines t bytes) (sym (append-nil current))
cut_lines-NoStops current (c ∷ left) bytes (here, v) =
    rw (cut_lines, here)
      (cut_lines-NoStops (current ++ c ∷ []) left bytes v
        ∙ ap (λ t. cut_lines t bytes) (append_assoc current (c ∷ []) left))

snoc-NoStops :
    (left : Bytes) (c : ℕ) → NoStops left → stop_of c ≡ no_stop → NoStops (left ++ c ∷ [])
snoc-NoStops [] c v here = (here, tt)
snoc-NoStops (d ∷ left) c (first, v) here = (first, snoc-NoStops left c v here)

abbrev joined : List Bytes × Bytes → Bytes → List Bytes × Bytes
joined (lines, left) bytes = (lines ++ (cut_lines left bytes).0, (cut_lines left bytes).1)

add_line-append :
    (line : Bytes) (lines more : List Bytes)
    → add_line line (lines ++ more) ≡ add_line line lines ++ more
unfolding add_line
add_line-append [] lines more = refl
add_line-append (c ∷ line) lines more = refl

end_line-joined :
    (current : Bytes) (r : List Bytes × Bytes) (more : Bytes)
    → end_line current (joined r more) ≡ joined (end_line current r) more
end_line-joined current (lines, left) more =
    rw (add_line-append (strip_return current) lines (cut_lines left more).0) refl

-- Two pieces of a text without zeros, one behind the other.
pub cut_lines-append :
    (current bytes more : Bytes)
    → has_nul bytes ≡ false
    → cut_lines current (bytes ++ more) ≡ joined (cut_lines current bytes) more
unfolding cut_lines add_line
cut_lines-append current [] more v = refl
cut_lines-append current (c ∷ bytes) more v = elim (Stop-cases c) [
  | inl (z, stop) ↦ absurd (ground (arith, z, v))
  | inr (inl (z, stop)) ↦
      let step = cut_lines-append [] bytes more (ground (arith, z, v)) in
      rw (cut_lines, stop, step) (end_line-joined current (cut_lines [] bytes) more)
  | inr (inr (z, stop)) ↦
      let step = cut_lines-append (current ++ c ∷ []) bytes more (ground (arith, v)) in
      rw (cut_lines, stop) step
]

-- The lines of a text, from the start of the first one on.
abbrev continued : Bytes → List Bytes → List Bytes
continued current [] = []
continued current (segment ∷ others) = (current ++ segment) ∷ others

abbrev pub with_last : List Bytes × Bytes → List Bytes
with_last (lines, left) = lines ++ add_line left []

pub continued_nil : (pieces : List Bytes) → continued [] pieces ≡ pieces
continued_nil [] = refl
continued_nil (piece ∷ pieces) = refl

pub with_last-joined :
    (r : List Bytes × Bytes) (more : Bytes)
    → with_last (joined r more) ≡ r.0 ++ with_last (cut_lines r.1 more)
with_last-joined (lines, left) more =
    append_assoc lines (cut_lines left more).0 (add_line (cut_lines left more).1 [])

segments_cons :
    (text : Bytes) → (first : Bytes) × (others : List Bytes) × (segments text ≡ first ∷ others)
segments_cons [] = ([], [], refl)
segments_cons (c ∷ text) =
    let (first, others, e) = segments_cons text in
    elim (Bool-cases (c == 10)) [
      | inl t ↦ ([], first ∷ others, rw (e, t) refl)
      | inr t ↦ (c ∷ first, others, rw (e, t) refl)
    ]

end_line-with_last :
    (current : Bytes) (r : List Bytes × Bytes)
    → with_last (end_line current r) ≡ add_line (strip_return current) (with_last r)
end_line-with_last current (lines, left) =
    sym (add_line-append (strip_return current) lines (add_line left []))

pub cut_lines-segments :
    (current text : Bytes)
    → has_nul text ≡ false
    → with_last (cut_lines current text) ≡ clean (continued current (segments text))
unfolding cut_lines
cut_lines-segments current [] v = rw (append-nil current) refl
cut_lines-segments current (c ∷ text) v =
    let (first, others, e) = segments_cons text in
    elim (Stop-cases c) [
      | inl (z, stop) ↦ absurd (ground (arith, z, v))
      | inr (inl (z, stop)) ↦
          let step = cut_lines-segments [] text (ground (arith, z, v)) in
          let t : (c == 10) ≡ true = ground (arith, z) in
          let cut : cut_lines current (c ∷ text) ≡ end_line current (cut_lines [] text) =
            rw (cut_lines, stop) refl in
          ap with_last cut
          ∙ end_line-with_last current (cut_lines [] text)
          ∙ ap (add_line (strip_return current)) step
          ∙ rw (e, t, append-nil current) refl
      | inr (inr (z, stop)) ↦
          let step = cut_lines-segments (current ++ c ∷ []) text (ground (arith, v)) in
          let cut : cut_lines current (c ∷ text) ≡ cut_lines (current ++ c ∷ []) text =
            rw (cut_lines, stop) refl in
          ap with_last cut ∙ step ∙ rw (e, z, append_assoc current (c ∷ []) first) refl
    ]

-- What is left of a buffer has no newline, and no zero if the buffer has none.
pub cut_lines-left :
    (current bytes : Bytes)
    → NoStops current
    → has_nul bytes ≡ false
    → NoStops (cut_lines current bytes).1
unfolding cut_lines
cut_lines-left current [] v n = v
cut_lines-left current (c ∷ bytes) v n = elim (Stop-cases c) [
  | inl (z, stop) ↦ absurd (ground (arith, z, n))
  | inr (inl (z, stop)) ↦ rw (cut_lines, stop) (cut_lines-left [] bytes tt (ground (arith, z, n)))
  | inr (inr (z, stop)) ↦
      rw (cut_lines, stop)
        (cut_lines-left (current ++ c ∷ []) bytes (snoc-NoStops current c v stop)
          (ground (arith, n)))
]

-- The rest of a text has no longer segment than the text.
pub longest-append :
    (current bytes more : Bytes)
    → has_nul bytes ≡ false
    → longest (length (cut_lines current bytes).1) more ≤ longest (length current) (bytes ++ more)
unfolding cut_lines
longest-append current [] more n = omega arith
longest-append current (c ∷ bytes) more n = elim (Stop-cases c) [
  | inl (z, stop) ↦ absurd (ground (arith, z, n))
  | inr (inl (z, stop)) ↦
      let t : (c == 10) ≡ true = ground (arith, z) in
      let right : longest (length current) (c ∷ (bytes ++ more))
          ≡ max (length current) (longest 0 (bytes ++ more)) =
        rw t refl in
      let cut : (cut_lines current (c ∷ bytes)).1 ≡ (cut_lines [] bytes).1 =
        rw (cut_lines, stop) refl in
      let step = longest-append [] bytes more (ground (arith, z, n)) in
      omega (arith, step, right, ap (λ l. longest (length l) more) cut)
  | inr (inr (z, stop)) ↦
      let right : longest (length current) (c ∷ (bytes ++ more))
          ≡ max (length current) (longest (suc (length current)) (bytes ++ more)) =
        rw z refl in
      let cut : (cut_lines current (c ∷ bytes)).1 ≡ (cut_lines (current ++ c ∷ []) bytes).1 =
        rw (cut_lines, stop) refl in
      let step = longest-append (current ++ c ∷ []) bytes more (ground (arith, n)) in
      let size : length (current ++ c ∷ []) ≡ suc (length current) =
        omega (arith, length-append current (c ∷ [])) in
      omega (
        arith,
        step,
        right,
        ap (λ l. longest (length l) more) cut,
        ap (λ k. longest k (bytes ++ more)) size,
      )
]
