-- ===== src/Network/Outgoing.antt =====
-- What sendFile puts on the connection for a file that is sent as it is.
use eacopy.Base.{
  ℕ, zero, suc, ◌-◌, ◌≤◌, ◌<◌, ◌≡◌, ◌≢◌, min, refl, ap, sym, ◌∙◌, subst, Bool, true, [], ◌∷◌, ◌++◌,
  append-nil, append_assoc, Option, some, length, length-append, arith, inl, inr, Option-cases,
  Bool-cases, WString, drop,
}
use eacopy.Base.Bytes.{Bytes}
use eacopy.Paths.{convert_to_short_path}
use eacopy.Os.{Os}
use eacopy.Network.{send_rounds, send_data}
use eacopy.Network.Stream.{Stream, Sent-cases, send_data-outgoing}
use eacopy.Network.Transfer.{send, chunk_size}
use eacopy.Network.Sending.{CompressionStats, file_sent, unfinished, less, send_chunks, send_file}

-- A connection beside a file that is open for reading.
pub record Source (w : Os) (stream : Stream w) : Type 0 where
  pub unread : w.State → Bytes
  pub read-unread :
      (size : ℕ) (bytes : Bytes) (s s' : w.State)
      → w.read size s ≡ (some bytes, s')
      → (unread s ≡ bytes ++ unread s') × (length bytes ≤ size)
  pub read-outgoing :
      (size : ℕ) (s : w.State) → stream.outgoing (w.read size s).1 ≡ stream.outgoing s
  pub send-unread : (bytes : Bytes) (s : w.State) → unread (w.send bytes s).1 ≡ unread s
  pub close-outgoing : (s : w.State) → stream.outgoing (w.close s).1 ≡ stream.outgoing s
  pub open-outgoing :
      (path : WString) (buffered : Bool) (s : w.State)
      → stream.outgoing (w.open_read path buffered s).1 ≡ stream.outgoing s
  -- A read before the end of the file gives some bytes.
  pub read_some :
      (size : ℕ) (bytes : Bytes) (s s' : w.State)
      → w.read size s ≡ (some bytes, s')
      → 1 ≤ size
      → 1 ≤ length (unread s)
      → 1 ≤ length bytes

less_lem :
    (left size : ℕ) → left < 18446744073709551616 → size ≤ left → less left size ≡ left - size
less_lem left size h k = omega (arith, h, k)

module _ (w : Os) (stream : Stream w) (source : Source w stream)
    (compress : ℕ → Bytes → Option Bytes) (clock : w.State → ℕ) where
  send_rounds-unread :
      (rounds : ℕ) (bytes : Bytes) (s : w.State)
      → source.unread (send_rounds w rounds bytes s).1 ≡ source.unread s
  unfolding send_rounds
  send_rounds-unread zero bytes s = refl
  send_rounds-unread (suc rounds) [] s = refl
  send_rounds-unread (suc rounds) (b ∷ bytes) s =
      let s1 = (w.send (b ∷ bytes) s).1 in
      elim (Sent-cases (w.send (b ∷ bytes) s).0) [
        | inr (e, failed) ↦ ground (arith, failed, source.send-unread (b ∷ bytes) s)
        | inl (n, took) ↦ ground (
          arith,
          took,
          source.send-unread (b ∷ bytes) s,
          send_rounds-unread rounds (drop n bytes) s1,
        )
      ]

  send_data-unread :
      (bytes : Bytes) (s : w.State) → source.unread (send_data w bytes s).1 ≡ source.unread s
  unfolding send_data
  send_data-unread bytes s = send_rounds-unread (length bytes) bytes s

  send_chunks-outgoing :
      (rounds left : ℕ) (s : w.State)
      → left < 18446744073709551616
      → (send_chunks w compress clock rounds true left s).0 ≡ file_sent
      → (bytes : Bytes) × (stream.outgoing (send_chunks w compress clock rounds true left s).1
          ≡ stream.outgoing s ++ bytes)
        × (source.unread s
            ≡ bytes ++ source.unread (send_chunks w compress clock rounds true left s).1)
        × (length bytes ≡ left)
  unfolding send_chunks
  send_chunks-outgoing zero left s small h = absurd (cc)
  send_chunks-outgoing (suc rounds) zero s small h =
      ([], sym (append-nil (stream.outgoing s)), refl, refl)
  send_chunks-outgoing (suc rounds) (suc left) s small h =
      let want = min (suc left) chunk_size in
      let s1 = (w.read want s).1 in
      elim (Option-cases (w.read want s).0) [
        | inl failed ↦ absurd (ground (arith, failed, h))
        | inr (chunk, came) ↦
            let s2 = (send_data w chunk s1).1 in
            elim (Bool-cases (send_data w chunk s1).0) [
              | inr broken ↦ absurd (ground (arith, came, broken, h))
              | inl went ↦
                  let next = less (suc left) (length chunk) in
                  let step : send_chunks w compress clock (suc rounds) true (suc left) s
                      ≡ send_chunks w compress clock rounds true next s2 =
                    rw (send_chunks, came, went) refl in
                  let (now, fits) = source.read-unread want chunk s s1 (ap (λ r. (r, s1)) came) in
                  let count : next ≡ suc left - length chunk =
                    less_lem (suc left) (length chunk) small (omega (arith, fits)) in
                  let (rest, out, in', size) =
                    send_chunks-outgoing rounds next s2 (omega (arith, count, small))
                      (subst (λ r. r.0 ≡ file_sent) step h) in
                  (
                    chunk ++ rest,
                    ap (λ r. stream.outgoing r.1) step
                        ∙ out
                        ∙ ap (λ t. t ++ rest)
                            (send_data-outgoing w stream chunk s1 went
                              ∙ ap (λ t. t ++ chunk) (source.read-outgoing want s))
                        ∙ append_assoc (stream.outgoing s) chunk rest,
                    now
                        ∙ ap (λ t. chunk ++ t)
                            (sym (send_data-unread chunk s1)
                              ∙ in'
                              ∙ ap (λ r. rest ++ source.unread r.1) (sym step))
                        ∙ sym (append_assoc chunk rest _),
                    omega (arith, size, count, fits, length-append chunk rest),
                  )
            ]
      ]

  send_chunks_ends :
      (rounds left : ℕ) (s : w.State)
      → left < 18446744073709551616
      → left < rounds
      → left ≤ length (source.unread s)
      → (send_chunks w compress clock rounds true left s).0 ≢ unfinished
  unfolding send_chunks
  send_chunks_ends zero left s small more enough h = absurd (omega (arith, more))
  send_chunks_ends (suc rounds) zero s small more enough h = absurd (cc)
  send_chunks_ends (suc rounds) (suc left) s small more enough h =
      let want = min (suc left) chunk_size in
      let s1 = (w.read want s).1 in
      elim (Option-cases (w.read want s).0) [
        | inl failed ↦ absurd (ground (arith, failed, h))
        | inr (chunk, came) ↦
            let s2 = (send_data w chunk s1).1 in
            elim (Bool-cases (send_data w chunk s1).0) [
              | inr broken ↦ absurd (ground (arith, came, broken, h))
              | inl went ↦
                  let next = less (suc left) (length chunk) in
                  let step : send_chunks w compress clock (suc rounds) true (suc left) s
                      ≡ send_chunks w compress clock rounds true next s2 =
                    rw (send_chunks, came, went) refl in
                  let read = ap (λ r. (r, s1)) came in
                  let (now, fits) = source.read-unread want chunk s s1 read in
                  let progress =
                    source.read_some want chunk s s1 read (omega arith) (omega (arith, enough)) in
                  let count : next ≡ suc left - length chunk =
                    less_lem (suc left) (length chunk) small (omega (arith, fits)) in
                  let remains : next ≤ length (source.unread s2) = omega (
                    arith,
                    count,
                    enough,
                    ap length now,
                    length-append chunk (source.unread s1),
                    ap length (send_data-unread chunk s1),
                  ) in
                  send_chunks_ends rounds next s2 (omega (arith, count, small))
                    (omega (arith, count, more, progress)) remains
                    (subst (λ r. r.0 ≡ unfinished) step h)
            ]
      ]

  -- On a connection and a file that do not disturb each other: when sendFile reports success for a file
  -- that is sent as it is, with buffered reads and a size below 2 ^ 64, it has put on the connection
  -- exactly as many bytes as announced: the first ones of the opened file.
  pub send_file-outgoing :
      (rounds : ℕ) (path : WString) (size : ℕ) (cs : CompressionStats) (s : w.State)
      → size < 18446744073709551616
      → (send_file w compress clock rounds path size send true cs s).0 ≡ file_sent
      → (bytes rest : Bytes) × (stream.outgoing
            (send_file w compress clock rounds path size send true cs s).2
          ≡ stream.outgoing s ++ bytes)
        × (source.unread (w.open_read (convert_to_short_path path) true s).1 ≡ bytes ++ rest)
        × (length bytes ≡ size)
  unfolding send_file
  send_file-outgoing rounds path size cs s small h =
      let short = convert_to_short_path path in
      let s1 = (w.open_read short true s).1 in
      elim (Option-cases (w.open_read short true s).0) [
        | inr (e, failed) ↦ absurd (ground (arith, failed, h))
        | inl opened ↦
            let r = send_chunks w compress clock rounds true size s1 in
            let step : send_file w compress clock rounds path size send true cs s
                ≡ (r.0, cs, (w.close r.1).1) =
              rw (send_file, opened) refl in
            let (bytes, out, in', count) =
              send_chunks-outgoing rounds size s1 small (subst (λ r. r.0 ≡ file_sent) step h) in
            (
              bytes,
              source.unread r.1,
              ap (λ r. stream.outgoing r.2) step
                  ∙ source.close-outgoing r.1
                  ∙ out
                  ∙ ap (λ t. t ++ bytes) (source.open-outgoing short true s),
              in',
              count,
            )
      ]

  -- On a connection and a file that do not disturb each other: sendFile of a file as it is comes to an
  -- end, with buffered reads and a size below 2 ^ 64, when the opened file has at least as many bytes
  -- as are announced. One round more than there are bytes suffices.
  pub send_file_ends :
      (rounds : ℕ) (path : WString) (size : ℕ) (cs : CompressionStats) (s : w.State)
      → size < 18446744073709551616
      → size < rounds
      → size ≤ length (source.unread (w.open_read (convert_to_short_path path) true s).1)
      → (send_file w compress clock rounds path size send true cs s).0 ≢ unfinished
  unfolding send_file
  send_file_ends rounds path size cs s small more enough h =
      let short = convert_to_short_path path in
      let s1 = (w.open_read short true s).1 in
      ground (arith, h, send_chunks_ends rounds size s1 small more enough)
