-- ===== src/Network/Content.antt =====
-- What receiveFile leaves in a file that is sent as it is.
use eacopy.Base.{
  if◌then◌else◌, ℕ, zero, suc, ◌-◌, ◌≤◌, ◌≡◌, min, refl, ap, sym, ◌∙◌, subst, Bool, true, false, [],
  ◌∷◌, ◌++◌, append-nil, append_assoc, Option, none, some, length, length-append, take, arith, inl,
  inr, ◌⊎◌, Bool-cases, WString,
}
use eacopy.Base.Bytes.{Bytes}
use eacopy.Keys.{FileInfo, FileTime}
use eacopy.Paths.{convert_to_short_path}
use eacopy.Os.{Stat, missing, present, Os}
use eacopy.Files.{set_file_writable}
use eacopy.Network.Stream.{Stream, Received-cases}
use eacopy.Network.Transfer.{
  Transfer, finished, given_up, unfinished, send, Decompressed, chunk_size, succeeded,
  open_file_write, write_file, close_file, finish_file, plain_rounds, ended, write_front,
  receive_file,
}

-- A connection beside an open file: what concerns the one leaves the other alone.
pub record FileStream (w : Os) (stream : Stream w) : Type 0 where
  pub content : w.State → Bytes
  pub open-content :
      (path : WString) (buffered : Bool) (s : w.State)
      → (w.open_write path buffered s).0 ≡ none
      → content (w.open_write path buffered s).1 ≡ []
  pub write-content :
      (bytes : Bytes) (s : w.State)
      → (w.write bytes s).0 ≡ none
      → content (w.write bytes s).1 ≡ content s ++ bytes
  pub recv-content : (size : ℕ) (s : w.State) → content (w.recv size s).1 ≡ content s
  pub time-content : (t : FileTime) (s : w.State) → content (w.set_file_time t s).1 ≡ content s
  pub close-content : (s : w.State) → content (w.close s).1 ≡ content s
  pub attributes-incoming :
      (path : WString) (a : ℕ) (s : w.State)
      → stream.incoming (w.set_attributes path a s).1 ≡ stream.incoming s
  pub open-incoming :
      (path : WString) (buffered : Bool) (s : w.State)
      → stream.incoming (w.open_write path buffered s).1 ≡ stream.incoming s
  pub write-incoming :
      (bytes : Bytes) (s : w.State) → stream.incoming (w.write bytes s).1 ≡ stream.incoming s
  pub time-incoming :
      (t : FileTime) (s : w.State) → stream.incoming (w.set_file_time t s).1 ≡ stream.incoming s
  pub close-incoming : (s : w.State) → stream.incoming (w.close s).1 ≡ stream.incoming s

Stat-cases :
    (r : Stat) → ((e : ℕ) × (r ≡ missing e)) ⊎ ((a : ℕ) × (i : FileInfo) × (r ≡ present a i))
Stat-cases (missing e) = inl (e, refl)
Stat-cases (present a i) = inr (a, i, refl)

take_nil : (n : ℕ) → take {A = ℕ} n [] ≡ []
take_nil zero = refl
take_nil (suc n) = refl

module _ (w : Os) (stream : Stream w) (file : FileStream w stream) where
  write_file-content :
      (ok : Bool) (bytes : Bytes) (s : w.State)
      → (write_file w ok bytes s).0 ≡ true
      → (ok ≡ true)
        × (file.content (write_file w ok bytes s).1 ≡ file.content s ++ bytes)
        × (stream.incoming (write_file w ok bytes s).1 ≡ stream.incoming s)
  unfolding write_file
  write_file-content false bytes s h = absurd (cc)
  write_file-content true bytes s h =
      ground (arith, h, file.write-content bytes s, file.write-incoming bytes s)

  plain_rounds-content :
      (rounds left : ℕ) (ok : Bool) (s : w.State)
      → left ≤ rounds
      → (plain_rounds w rounds left ok s).0 ≡ finished true
      → (ok ≡ true)
        × (got : Bytes) × (stream.incoming s
            ≡ got ++ stream.incoming (plain_rounds w rounds left ok s).1)
        × (file.content (plain_rounds w rounds left ok s).1 ≡ file.content s ++ got)
        × (length got ≡ left)
  unfolding plain_rounds
  plain_rounds-content zero left ok s enough h =
      (ground (arith, h), [], refl, sym (append-nil (file.content s)), omega (arith, enough))
  plain_rounds-content (suc rounds) zero ok s enough h =
      (ground (arith, h), [], refl, sym (append-nil (file.content s)), refl)
  plain_rounds-content (suc rounds) (suc left) ok s enough h =
      let want = min (suc left) chunk_size in
      let s1 = (w.recv want s).1 in
      elim (Received-cases (w.recv want s).0) [
        | inr (inl closed) ↦ absurd (ground (arith, closed, h))
        | inr (inr (e, failed)) ↦ absurd (ground (arith, failed, h))
        | inl (b, more, came) ↦
            let (ok', s2) = write_file w ok (b ∷ more) s1 in
            let step : plain_rounds w (suc rounds) (suc left) ok s
                ≡ plain_rounds w rounds (left - length more) ok' s2 =
              rw (plain_rounds, came) refl in
            let (now, fits) = stream.recv-incoming want (b ∷ more) s s1 (ap (λ r. (r, s1)) came) in
            let (good', got, came', content', size) =
              plain_rounds-content rounds (left - length more) ok' s2 (omega (arith, enough))
                (subst (λ r. r.0 ≡ finished true) step h) in
            let (good, wrote, kept) = write_file-content ok (b ∷ more) s1 good' in
            let end = (plain_rounds w rounds (left - length more) ok' s2).1 in
            (
              good,
              (b ∷ more) ++ got,
              now
                  ∙ ap (λ t. (b ∷ more) ++ t)
                      (sym kept ∙ came' ∙ ap (λ r. got ++ stream.incoming r.1) (sym step))
                  ∙ sym (append_assoc (b ∷ more) got _),
              ap (λ r. file.content r.1) step
                  ∙ content'
                  ∙ ap (λ t. t ++ got)
                      (wrote ∙ ap (λ t. t ++ (b ∷ more)) (file.recv-content want s))
                  ∙ append_assoc (file.content s) (b ∷ more) got,
              omega (arith, size, fits, length-append (b ∷ more) got),
            )
      ]

  close_file-true :
      (opened ok : Bool) (s : w.State)
      → (close_file w opened ok s).0 ≡ true
      → (file.content (close_file w opened ok s).1 ≡ file.content s)
        × (stream.incoming (close_file w opened ok s).1 ≡ stream.incoming s)
  unfolding close_file
  close_file-true false ok s h = (refl, refl)
  close_file-true true ok s h = ground (arith, file.close-content s, file.close-incoming s)

  close_file-false : (opened : Bool) (s : w.State) → (close_file w opened false s).0 ≡ false
  unfolding close_file
  close_file-false false s = refl
  close_file-false true s = refl

  succeeded-state : (r : Option ℕ × w.State) → (succeeded w r).1 ≡ r.1
  succeeded-state (none, s) = refl
  succeeded-state (some error, s) = refl

  finish_file-true :
      (opened ok : Bool) (time : FileTime) (s : w.State)
      → (finish_file w opened ok time s).0 ≡ true
      → (ok ≡ true)
        × (file.content (finish_file w opened ok time s).1 ≡ file.content s)
        × (stream.incoming (finish_file w opened ok time s).1 ≡ stream.incoming s)
  unfolding finish_file
  finish_file-true opened false time s h = absurd (ground (arith, h, close_file-false opened s))
  finish_file-true opened true time s h =
      let r = w.set_file_time time s in
      let s1 = (succeeded w r).1 in
      elim (Bool-cases (succeeded w r).0) [
        | inl went ↦
            let step : finish_file w opened true time s ≡ close_file w opened true s1 =
              rw (finish_file, went) refl in
            let (same, kept) = close_file-true opened true s1 (subst (λ r. r.0 ≡ true) step h) in
            (
              refl,
              ap (λ r. file.content r.1) step
                  ∙ same
                  ∙ ap file.content (succeeded-state r)
                  ∙ file.time-content time s,
              ap (λ r. stream.incoming r.1) step
                  ∙ kept
                  ∙ ap stream.incoming (succeeded-state r)
                  ∙ file.time-incoming time s,
            )
        | inr failed ↦
            let (closed, s2) = succeeded w (w.close s1) in
            let step : finish_file w opened true time s
                ≡ close_file w (if closed then false else opened) false s2 =
              rw (finish_file, failed) refl in
            absurd (
              ground (
                arith,
                subst (λ r. r.0 ≡ true) step h,
                close_file-false (if closed then false else opened) s2,
              ))
      ]

  write_front-content :
      (ok : Bool) (size : ℕ) (front : Bytes) (s : w.State)
      → (write_front w ok size front s).0 ≡ true
      → (ok ≡ true)
        × (file.content (write_front w ok size front s).1
            ≡ file.content s ++ take (min (length front) size) front)
        × (stream.incoming (write_front w ok size front s).1 ≡ stream.incoming s)
  unfolding write_front
  write_front-content ok size [] s h = (
    h,
    sym (append-nil (file.content s)) ∙ ap (λ t. file.content s ++ t) (sym (take_nil (min 0 size))),
    refl,
  )
  write_front-content ok size (b ∷ front) s h =
      write_file-content ok (take (min (suc (length front)) size) (b ∷ front)) s h

  set_file_writable-incoming :
      (path : WString) (s : w.State)
      → stream.incoming (set_file_writable w path true s).1 ≡ stream.incoming s
  unfolding set_file_writable
  set_file_writable-incoming path s =
      let short = convert_to_short_path path in
      elim (Stat-cases (w.stat short s)) [
        | inl (e, gone) ↦ ground (arith, gone)
        | inr (a, i, there) ↦ ground (arith, there, file.attributes-incoming short (a - 1) s)
      ]

  open_file_write-content :
      (path : WString) (buffered : Bool) (s : w.State)
      → (open_file_write w path buffered s).0 ≡ true
      → (file.content (open_file_write w path buffered s).1 ≡ [])
        × (stream.incoming (open_file_write w path buffered s).1 ≡ stream.incoming s)
  unfolding open_file_write
  open_file_write-content path buffered s h =
      let short = convert_to_short_path path in
      let s1 = (set_file_writable w short true s).1 in
      ground (
        arith,
        h,
        file.open-content short buffered s1,
        file.open-incoming short buffered s1,
        set_file_writable-incoming short s,
      )

  ended-content :
      (opened : Bool) (time : FileTime) (r : Transfer × w.State)
      → (ended w opened time r).0 ≡ finished true
      → (r.0 ≡ finished true)
        × (file.content (ended w opened time r).1 ≡ file.content r.1)
        × (stream.incoming (ended w opened time r).1 ≡ stream.incoming r.1)
  ended-content opened time (finished ok, s) h =
      let good : (finish_file w opened ok time s).0 ≡ true = ground (arith, h) in
      let (good_file, same, kept) = finish_file-true opened ok time s good in
      (ap finished good_file, same, kept)
  ended-content opened time (given_up, s) h = absurd (cc)
  ended-content opened time (unfinished, s) h = absurd (cc)

  -- When receiveFile reports success for a file that is sent as it is, on a connection and a file that
  -- do not disturb each other, the file holds exactly as many bytes as announced: first those that came
  -- with the command, then those that the connection was to give next, in their order.
  pub receive_file-content :
      (decompress : Bytes → Decompressed) (rounds : ℕ) (path : WString) (size : ℕ) (time : FileTime)
      (buffered : Bool) (front buffer : Bytes) (s : w.State)
      → (receive_file w decompress rounds path size time send buffered front buffer s).0.0
        ≡ finished true
      → (got : Bytes) × (file.content
            (receive_file w decompress rounds path size time send buffered front buffer s).0.1
          ≡ take (min (length front) size) front ++ got)
        × (stream.incoming s
            ≡ got
              ++ stream.incoming
                  (receive_file w decompress rounds path size time send buffered front buffer
                    s).0.1)
        × (length got ≡ size - min (length front) size)
  unfolding receive_file
  receive_file-content decompress rounds path size time buffered front buffer s h =
      let (opened, s1) = open_file_write w path buffered s in
      let (ok, s2) = write_front w opened size front s1 in
      let left = size - min (length front) size in
      let (done, same, kept) = ended-content opened time (plain_rounds w left left ok s2) h in
      let (good, got, came, content, count) =
        plain_rounds-content left left ok s2 (omega arith) done in
      let (good', wrote, kept') = write_front-content opened size front s1 good in
      let (empty, kept'') = open_file_write-content path buffered s good' in
      (
        got,
        same
            ∙ content
            ∙ ap (λ t. t ++ got)
                (wrote ∙ ap (λ t. t ++ take (min (length front) size) front) empty),
        sym (kept' ∙ kept'') ∙ came ∙ ap (λ t. got ++ t) (sym kept),
        count,
      )
