-- ===== src/Files/CopyContent.antt =====
-- What copyFile's own loop leaves in the file that it makes.
use eacopy.Base.{
  ℕ, zero, suc, ◌+◌, ◌-◌, ◌≤◌, ◌≡◌, ◌≢◌, min, refl, ap, sym, ◌∙◌, subst, Bool, true, [], ◌∷◌, ◌++◌,
  append-nil, append_assoc, Option, none, some, length, take, drop, take-add, drop-add,
  if◌then◌else◌, ◌==◌, arith, inl, inr, Option-cases, Bool-cases, WString,
}
use eacopy.Base.Bytes.{Bytes}
use eacopy.Keys.{FileInfo, FileTime}
use eacopy.Os.{Os}
use eacopy.Files.{copied}
use eacopy.Files.Copy.{
  read_chunk_size, Pumped, pumped, unpumped, write_failed, read_failed, flush, wrote, sectors,
  copy_rounds, own_copy_file, finish_copy, end_copy,
}

-- A file that is read beside another one that is written.
pub record Pair (w : Os) : Type 0 where
  pub content : w.State → Bytes
  pub sink : w.State → Bytes
  pub read_at-content :
      (at size : ℕ) (bytes : Bytes) (s : w.State)
      → (w.read_at at size s).0 ≡ some bytes
      → (bytes ≡ take size (drop at (content s)))
        × (content (w.read_at at size s).1 ≡ content s)
        × (sink (w.read_at at size s).1 ≡ sink s)
  pub write-sink :
      (bytes : Bytes) (s : w.State)
      → (w.write bytes s).0 ≡ none
      → (sink (w.write bytes s).1 ≡ sink s ++ bytes) × (content (w.write bytes s).1 ≡ content s)
  pub open_source-sink :
      (path : WString) (buffered : Bool) (s : w.State)
      → sink (w.open_source path buffered s).1 ≡ sink s
  pub create_file-sink :
      (path : WString) (buffered fresh : Bool) (s : w.State)
      → (w.create_file path buffered fresh s).0 ≡ none
      → sink (w.create_file path buffered fresh s).1 ≡ []
  pub set_attributes-sink :
      (path : WString) (attributes : ℕ) (s : w.State)
      → sink (w.set_attributes path attributes s).1 ≡ sink s
  pub set_file_time-sink :
      (time : FileTime) (s : w.State) → sink (w.set_file_time time s).1 ≡ sink s
  pub close_source-sink : (s : w.State) → sink (w.close_source s).1 ≡ sink s
  pub close-sink : (s : w.State) → sink (w.close s).1 ≡ sink s

module _ (w : Os) (pair : Pair w) (padding : Bytes) where
  wrote-none :
      (r : Option ℕ × w.State)
      → (wrote w padding r).0 ≡ true
      → (r.0 ≡ none) × ((wrote w padding r).1 ≡ r.1)
  wrote-none (none, s) h = (refl, refl)
  wrote-none (some e, s) h = absurd (cc)

  flush-sink :
      (filled : Bytes) (s : w.State)
      → (flush w padding true filled s).0 ≡ true
      → (pair.sink (flush w padding true filled s).1 ≡ pair.sink s ++ filled)
        × (pair.content (flush w padding true filled s).1 ≡ pair.content s)
  unfolding flush
  flush-sink [] s h = (sym (append-nil _), refl)
  flush-sink (b ∷ filled) s h =
      let size = length (b ∷ filled) in
      let none_left : size - size ≡ 0 = omega arith in
      let exact : (b ∷ filled) ++ take (size - size) padding ≡ b ∷ filled =
        rw none_left (append-nil _) in
      let step : flush w padding true (b ∷ filled) s ≡ wrote w padding (w.write (b ∷ filled) s) =
        ap (λ t. wrote w padding (w.write t s)) exact in
      let went = wrote-none (w.write (b ∷ filled) s) (subst (λ r. r.0 ≡ true) step h) in
      let (out, in') = pair.write-sink (b ∷ filled) s went.0 in
      (
        ap (λ r. pair.sink r.1) step ∙ ap pair.sink went.1 ∙ out,
        ap (λ r. pair.content r.1) step ∙ ap pair.content went.1 ∙ in',
      )

  copy_rounds-sink :
      (rounds : ℕ) (filled latest : Bytes) (read left : ℕ) (s : w.State)
      → (copy_rounds w padding rounds true filled latest read left s).0 ≡ pumped
      → pair.sink (copy_rounds w padding rounds true filled latest read left s).1
        ≡ (pair.sink s ++ filled) ++ (latest ++ take left (drop read (pair.content s)))
  unfolding copy_rounds
  copy_rounds-sink zero filled latest read left s h = absurd (cc)
  copy_rounds-sink (suc rounds) filled latest read (suc left) s h =
      let size = min (suc left) read_chunk_size in
      let s1 = (flush w padding true filled s).1 in
      elim (Bool-cases (flush w padding true filled s).0) [
        | inr broken ↦ absurd (ground (arith, broken, h))
        | inl flushed ↦ elim (Option-cases (w.read_at read size s1).0) [
          | inl failed ↦ absurd (ground (arith, flushed, failed, h))
          | inr (bytes, came) ↦
              let s2 = (w.read_at read size s1).1 in
              let step : copy_rounds w padding (suc rounds) true filled latest read (suc left) s
                  ≡ copy_rounds w padding rounds true latest bytes (read + size) (suc left - size)
                      s2 =
                rw (copy_rounds, flushed, came) refl in
              let (out, same) = flush-sink filled s flushed in
              let (got, kept, sunk) = pair.read_at-content read size bytes s1 came in
              let here = drop read (pair.content s) in
              let last : pair.content s2 ≡ pair.content s = kept ∙ same in
              let all_of : size + (suc left - size) ≡ suc left = omega arith in
              let whole : bytes ++ take (suc left - size) (drop (read + size) (pair.content s2))
                  ≡ take (suc left) here =
                rw (last, drop-add read size (pair.content s), got, same)
                  (sym (take-add size (suc left - size) here) ∙ ap (λ n. take n here) all_of) in
              ap (λ r. pair.sink r.1) step
              ∙ copy_rounds-sink rounds latest bytes (read + size) (suc left - size) s2
                  (subst (λ r. r.0 ≡ pumped) step h)
              ∙ ap (λ t. (pair.sink s2 ++ latest) ++ t) whole
              ∙ ap (λ t. (t ++ latest) ++ take (suc left) here) (sunk ∙ out)
              ∙ append_assoc (pair.sink s ++ filled) latest (take (suc left) here)
        ]
      ]
  copy_rounds-sink (suc rounds) filled [] read zero s h =
      elim (Bool-cases (flush w padding true filled s).0) [
        | inr broken ↦ absurd (ground (arith, broken, h))
        | inl flushed ↦
            rw (copy_rounds, flushed)
              ((flush-sink filled s flushed).0 ∙ sym (append-nil (pair.sink s ++ filled)))
      ]
  copy_rounds-sink (suc rounds) filled (b ∷ latest) read zero s h =
      let s1 = (flush w padding true filled s).1 in
      elim (Bool-cases (flush w padding true filled s).0) [
        | inr broken ↦ absurd (ground (arith, broken, h))
        | inl flushed ↦
            let step : copy_rounds w padding (suc rounds) true filled (b ∷ latest) read zero s
                ≡ copy_rounds w padding rounds true (b ∷ latest) [] read zero s1 =
              rw (copy_rounds, flushed) refl in
            ap (λ r. pair.sink r.1) step
            ∙ copy_rounds-sink rounds (b ∷ latest) [] read zero s1
                (subst (λ r. r.0 ≡ pumped) step h)
            ∙ ap (λ t. (t ++ (b ∷ latest)) ++ []) (flush-sink filled s flushed).0
            ∙ append_assoc (pair.sink s ++ filled) (b ∷ latest) []
      ]

  copy_rounds_ends :
      (rounds : ℕ) (buffered : Bool) (filled latest : Bytes) (read left : ℕ) (s : w.State)
      → left + 2 ≤ rounds
      → (copy_rounds w padding rounds buffered filled latest read left s).0 ≢ unpumped
  unfolding copy_rounds
  copy_rounds_ends zero buffered filled latest read left s m h = absurd (omega arith)
  copy_rounds_ends (suc rounds) buffered filled latest read (suc left) s m h =
      let size = min (suc left) read_chunk_size in
      let s1 = (flush w padding buffered filled s).1 in
      elim (Bool-cases (flush w padding buffered filled s).0) [
        | inr broken ↦ absurd (ground (arith, broken, h))
        | inl flushed ↦ elim (Option-cases (w.read_at read (sectors buffered size) s1).0) [
          | inl failed ↦ absurd (ground (arith, flushed, failed, h))
          | inr (bytes, came) ↦
              let s2 = (w.read_at read (sectors buffered size) s1).1 in
              let step : copy_rounds w padding (suc rounds) buffered filled latest read (suc left) s
                  ≡ copy_rounds w padding rounds buffered latest bytes (read + size)
                      (suc left - size) s2 =
                rw (copy_rounds, flushed, came) refl in
              copy_rounds_ends rounds buffered latest bytes (read + size) (suc left - size) s2
                (omega arith) (subst (λ r. r.0 ≡ unpumped) step h)
        ]
      ]
  copy_rounds_ends (suc rounds) buffered filled [] read zero s m h = ground (arith, h)
  copy_rounds_ends (suc zero) buffered filled (b ∷ latest) read zero s m h = absurd (omega arith)
  copy_rounds_ends (suc (suc rounds)) buffered filled (b ∷ latest) read zero s m h =
      ground (arith, h)

  finish_copy-sink :
      (info : FileInfo) (attributes : ℕ) (dest : WString) (s : w.State) (n : ℕ)
      → (finish_copy w padding true info attributes dest s).0 ≡ copied n
      → (n ≡ info.file_size)
        × (pair.sink (finish_copy w padding true info attributes dest s).1 ≡ pair.sink s)
  unfolding finish_copy
  finish_copy-sink info attributes dest s n h =
      let s1 = (if attributes == 0 then s else (w.set_attributes dest attributes s).1) in
      let s2 = (w.set_file_time info.last_write_time s1).1 in
      ground (
        arith,
        h,
        pair.set_attributes-sink dest attributes s,
        pair.set_file_time-sink info.last_write_time s1,
        pair.close_source-sink s2,
        pair.close-sink (w.close_source s2).1,
      )

  end_copy-sink :
      (info : FileInfo) (attributes : ℕ) (dest : WString) (r : Pumped × w.State) (n : ℕ)
      → (end_copy w padding true info attributes dest r).0 ≡ copied n
      → (n ≡ info.file_size)
        × ((pair.sink (end_copy w padding true info attributes dest r).1 ≡ pair.sink r.1)
            × (r.0 ≡ pumped))
  unfolding end_copy
  end_copy-sink info attributes dest (pumped, s) n h =
      let (count, out) = finish_copy-sink info attributes dest s n h in (count, (out, refl))
  end_copy-sink info attributes dest (write_failed, s) n h = absurd (cc)
  end_copy-sink info attributes dest (read_failed, s) n h = absurd (cc)
  end_copy-sink info attributes dest (unpumped, s) n h = absurd (cc)

  -- On files that do not disturb each other: when copyFile's own loop reports success, with buffered
  -- reads and writes, the size it reports is the announced one, and the file that it has made holds the
  -- first bytes of the source, as many as were announced or all that there are, and nothing else.
  pub own_copy_file-content :
      (source dest : WString) (info : FileInfo) (attributes : ℕ) (fresh : Bool) (s : w.State)
      (n : ℕ)
      → (own_copy_file w padding true source info attributes dest fresh s).0 ≡ copied n
      → (n ≡ info.file_size)
        × (pair.sink (own_copy_file w padding true source info attributes dest fresh s).1
            ≡ take info.file_size
                (pair.content (w.open_source source true (w.create_file dest true fresh s).1).1))
  unfolding own_copy_file
  own_copy_file-content source dest info attributes fresh s n h =
      let s1 = (w.create_file dest true fresh s).1 in
      let s2 = (w.open_source source true s1).1 in
      let size = info.file_size in
      let r = copy_rounds w padding (2 + size) true [] [] 0 size s2 in
      elim (Option-cases (w.create_file dest true fresh s).0) [
        | inr (e, failed) ↦ absurd (ground (arith, failed, h))
        | inl made ↦ elim (Option-cases (w.open_source source true s1).0) [
          | inr (e, failed) ↦ absurd (ground (arith, made, failed, h))
          | inl opened ↦
              let step : own_copy_file w padding true source info attributes dest fresh s
                  ≡ end_copy w padding true info attributes dest r =
                rw (own_copy_file, made, opened) refl in
              let (count, out) =
                end_copy-sink info attributes dest r n (subst (λ r'. r'.0 ≡ copied n) step h) in
              let start : pair.sink s2 ≡ [] =
                pair.open_source-sink source true s1
                ∙ pair.create_file-sink dest true fresh s made in
              (
                count,
                ap (λ r'. pair.sink r'.1) step
                    ∙ out.0
                    ∙ copy_rounds-sink (2 + size) [] [] 0 size s2 out.1
                    ∙ ap (λ t. (t ++ []) ++ ([] ++ take size (pair.content s2))) start,
              )
        ]
      ]
