-- ===== src/Server/ListingSent.antt =====
-- What FindFiles of source/EACopyServer.cpp puts on the connection.
use eacopy.Base.{
  ℕ, ◌*◌, ◌≤◌, ◌≡◌, refl, ap, sym, ◌∙◌, subst, not, List, [], ◌∷◌, ◌++◌, append-nil, append_assoc,
  length, leb, ◌==◌, WString, arith, Bool-cases, inl, inr,
}
use eacopy.Base.Bytes.{Bytes, le}
use eacopy.Os.{Os, Entry, found, error_no_more_files}
use eacopy.Network.{send_data}
use eacopy.Network.Stream.{Stream, send_data-outgoing}
use eacopy.Server.{
  Connection, World, Ended, value, closed, fault, stuck, Step, resume, ◌>>=◌, send_or_close,
}
use eacopy.Server.Listing.{
  entry_bytes, is_left_out, listing_bytes, write_block, append_entry, add_entries, end_listing,
  find_files_command,
}
use eacopy.Server.Overflow.{ShortNames, left_out_entry, short_entry}

-- The entries as one block, and an empty block.
abbrev pub wire : List Entry → Bytes
wire entries = le 4 (length (listing_bytes entries)) ++ (listing_bytes entries ++ le 4 0)

resume-value :
    {S A B : Type 0} (f : A → Step S B) (r : Ended A × World S) (b : B)
    → (resume f r).0 ≡ value b
    → (a : A) × (r.0 ≡ value a) × (resume f r ≡ f a r.1)
resume-value f (value a, world) b h = (a, refl, refl)
resume-value f (closed, world) b h = absurd (cc)
resume-value f (fault, world) b h = absurd (cc)
resume-value f (stuck, world) b h = absurd (cc)

module _ (w : Os) (stream : Stream w) where
  sent_front :
      {B : Type 0} (bytes : Bytes) (f : Unit {0} → Step w.State B) (world : World w.State) (b : B)
      → ((send_or_close w bytes >>= f) world).0 ≡ value b
      → (os : w.State) × ((send_or_close w bytes >>= f) world ≡ f tt (record world { os = os }))
        × (stream.outgoing os ≡ stream.outgoing world.os ++ bytes)
  sent_front bytes f world b h =
      let s1 = (send_data w bytes world.os).1 in
      elim (Bool-cases (send_data w bytes world.os).0) [
        | inr broken ↦ absurd (ground (arith, broken, h))
        | inl went ↦ (s1, rw went refl, send_data-outgoing w stream bytes world.os went)
      ]

  module _ (connection : Connection) (buffer_size : ℕ) where
    add_entries-value :
        (entries : List Entry) (buffer got : Bytes) (world : World w.State)
        → ShortNames w connection buffer_size entries
        → length buffer ≤ 3 * buffer_size
        → (add_entries w connection buffer_size entries buffer world).0 ≡ value got
        → (add_entries w connection buffer_size entries buffer world
            ≡ (value (buffer ++ listing_bytes entries), world))
          × (length (buffer ++ listing_bytes entries) ≤ 3 * buffer_size)
    unfolding add_entries append_entry
    add_entries-value [] buffer got world short fits h =
        (ap (λ b. (value b, world)) (sym (append-nil buffer)), rw (append-nil buffer) fits)
    add_entries-value (entry ∷ entries) buffer got world (here, short) fits h =
        elim (Bool-cases (is_left_out entry)) [
          | inl left_out ↦
              let step : add_entries w connection buffer_size (entry ∷ entries) buffer world
                  ≡ add_entries w connection buffer_size entries buffer world =
                ap (resume (add_entries w connection buffer_size entries))
                  (left_out_entry w connection buffer_size entry buffer world left_out) in
              let (rest, within) =
                add_entries-value entries buffer got world short fits
                  (subst (λ r. r.0 ≡ value got) step h) in
              (step ∙ rw left_out rest, rw left_out within)
          | inr kept ↦
              let longer = buffer ++ entry_bytes entry in
              let added = short_entry w connection buffer_size entry buffer world kept here in
              elim (Bool-cases (leb (length longer) (3 * buffer_size))) [
                | inr past ↦
                    let broken : append_entry w connection buffer_size entry buffer world
                        ≡ (fault, world) =
                      rw (append_entry, past) refl in
                    let step : add_entries w connection buffer_size (entry ∷ entries) buffer world
                        ≡ (fault, world) =
                      ap (resume (add_entries w connection buffer_size entries)) (added ∙ broken) in
                    absurd (ground (arith, h, step))
                | inl within ↦
                    let put : append_entry w connection buffer_size entry buffer world
                        ≡ (value longer, world) =
                      rw (append_entry, within) refl in
                    let step : add_entries w connection buffer_size (entry ∷ entries) buffer world
                        ≡ add_entries w connection buffer_size entries longer world =
                      ap (resume (add_entries w connection buffer_size entries)) (added ∙ put) in
                    let (rest, ends) =
                      add_entries-value entries longer got world short (ground (arith, within))
                        (subst (λ r. r.0 ≡ value got) step h) in
                    let joined = append_assoc buffer (entry_bytes entry) (listing_bytes entries) in
                    (
                      step ∙ rest ∙ rw kept (ap (λ b. (value b, world)) joined),
                      rw kept (subst (λ b. length b ≤ 3 * buffer_size) joined ends),
                    )
              ]
        ]

    write_block-outgoing :
        (buffer got : Bytes) (world : World w.State)
        → (write_block w connection buffer_size buffer world).0 ≡ value got
        → (got ≡ [])
          × (stream.outgoing (write_block w connection buffer_size buffer world).1.os
              ≡ stream.outgoing world.os ++ (le 4 (length buffer) ++ buffer))
    unfolding write_block
    write_block-outgoing buffer got world h =
        let (os1, step1, out1) =
          sent_front (le 4 (length buffer))
            (λ u. send_or_close w buffer >>= λ u'. λ world'. (value [], world')) world got h in
        let (os2, step2, out2) =
          sent_front buffer (λ u world'. (value [], world')) (record world { os = os1 }) got
            (subst (λ r. r.0 ≡ value got) step1 h) in
        (
          ground (arith, h, step1, step2),
          ap (λ r. stream.outgoing r.1.os) (step1 ∙ step2)
              ∙ out2
              ∙ ap (λ t. t ++ buffer) out1
              ∙ append_assoc (stream.outgoing world.os) (le 4 (length buffer)) buffer,
        )

    end_listing-outgoing :
        (error : ℕ) (buffer : Bytes) (world : World w.State)
        → (end_listing w connection buffer_size error buffer world).0 ≡ value tt
        → stream.outgoing (end_listing w connection buffer_size error buffer world).1.os
          ≡ stream.outgoing world.os ++ (le 4 (length buffer) ++ (buffer ++ le 4 0))
    unfolding end_listing
    end_listing-outgoing error buffer world h =
        elim (Bool-cases (not (error == error_no_more_files))) [
          | inl other ↦ absurd (ground (arith, other, h))
          | inr last ↦
              let block = write_block w connection buffer_size in
              let finish = λ (empty : Bytes).
                block empty >>= λ empty'. λ (world' : World w.State). (value tt, world') in
              let step : end_listing w connection buffer_size error buffer world
                  ≡ (block buffer >>= finish) world =
                rw (end_listing, last) refl in
              let (b1, went1, next1) =
                resume-value finish (block buffer world) tt (subst (λ r. r.0 ≡ value tt) step h) in
              let (empty1, out1) = write_block-outgoing buffer b1 world went1 in
              let world1 = (block buffer world).1 in
              let here : (block buffer >>= finish) world ≡ finish [] world1 =
                next1 ∙ ap (λ b. finish b world1) empty1 in
              let (b2, went2, next2) =
                resume-value (λ (empty' : Bytes) (world' : World w.State). (value tt, world'))
                  (block [] world1) tt (subst (λ r. r.0 ≡ value tt) (step ∙ here) h) in
              let (empty2, out2) = write_block-outgoing [] b2 world1 went2 in
              ap (λ r. stream.outgoing r.1.os) (step ∙ here ∙ next2)
              ∙ out2
              ∙ ap (λ t. t ++ (le 4 0 ++ [])) out1
              ∙ simp (append_assoc, append-nil)
        ]

    -- When no name fills the buffer by itself and the handler of FindFiles succeeds, it has sent the
    -- entries as one block, and an empty block.
    pub find_files_command-outgoing :
        (path : WString) (entries : List Entry) (error : ℕ) (world : World w.State)
        → w.find_files (connection.server_path ++ path) world.os ≡ found entries error
        → ShortNames w connection buffer_size entries
        → (find_files_command w connection buffer_size path world).0 ≡ value tt
        → (stream.outgoing (find_files_command w connection buffer_size path world).1.os
            ≡ stream.outgoing world.os ++ wire entries)
          × (length (listing_bytes entries) ≤ 3 * buffer_size)
    unfolding find_files_command
    find_files_command-outgoing path entries error world listing short h =
        let add = add_entries w connection buffer_size entries in
        let finish = end_listing w connection buffer_size error in
        let step : find_files_command w connection buffer_size path world
            ≡ resume finish (add [] world) =
          rw (find_files_command, listing) refl in
        let (b, went, next) =
          resume-value finish (add [] world) tt (subst (λ r. r.0 ≡ value tt) step h) in
        let (all, fits) = add_entries-value entries [] b world short (omega arith) went in
        let whole : find_files_command w connection buffer_size path world
            ≡ finish (listing_bytes entries) world =
          step ∙ ap (resume finish) all in
        (
          ap (λ r. stream.outgoing r.1.os) whole
              ∙ end_listing-outgoing error (listing_bytes entries) world
                  (subst (λ r. r.0 ≡ value tt) whole h),
          fits,
        )
