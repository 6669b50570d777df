-- ===== src/Server/Overflow.antt =====
-- What FindFiles writes past the end of its buffers.
use eacopy.Base.{
  ℕ, ◌*◌, ◌+◌, ◌≤◌, ◌<◌, ◌≡◌, refl, ap, sym, ◌∙◌, subst, true, false, List, [], ◌∷◌, ◌++◌, length,
  length-append, leb, WString, arith, Bool-cases, inl, inr,
}
use eacopy.Base.Bytes.{Bytes}
use eacopy.Os.{Os, Entry, found}
use eacopy.Server.{Connection, World, Ended, value, closed, fault, stuck, Step, resume}
use eacopy.Server.Listing.{
  name_bytes, entry_bytes, is_left_out, listing_bytes, append_entry, add_entry, add_entries,
  end_listing, find_files_command,
}

resume-fault :
    {S A B : Type 0} (f : A → Step S B) (r : Ended A × World S)
    → r.0 ≡ fault
    → (resume f r).0 ≡ fault
resume-fault f (value a, world) h = absurd (cc)
resume-fault f (closed, world) h = absurd (cc)
resume-fault f (fault, world) h = refl
resume-fault f (stuck, world) h = absurd (cc)

module _ (w : Os) (connection : Connection) (buffer_size : ℕ) where
  -- No name fills the buffer by itself.
  abbrev pub ShortNames : List Entry → Type 0
  ShortNames [] = Unit
  ShortNames (entry ∷ entries) = (name_bytes entry + 20 < buffer_size) × ShortNames entries

  pub left_out_entry :
      (entry : Entry) (buffer : Bytes) (world : World w.State)
      → is_left_out entry ≡ true
      → add_entry w connection buffer_size entry buffer world ≡ (value buffer, world)
  unfolding add_entry
  left_out_entry entry buffer world h = rw (add_entry, h) refl

  pub short_entry :
      (entry : Entry) (buffer : Bytes) (world : World w.State)
      → is_left_out entry ≡ false
      → name_bytes entry + 20 < buffer_size
      → add_entry w connection buffer_size entry buffer world
        ≡ append_entry w connection buffer_size entry buffer world
  unfolding add_entry
  short_entry entry buffer world h short =
      let no_block : leb buffer_size (name_bytes entry + 20) ≡ false = ground (arith, short) in
      rw (add_entry, h, no_block) refl

  after_entry :
      (entry : Entry) (entries : List Entry) (buffer : Bytes) (world : World w.State)
      (r : Ended Bytes × World w.State)
      → add_entry w connection buffer_size entry buffer world ≡ r
      → (resume (add_entries w connection buffer_size entries) r).0 ≡ fault
      → (add_entries w connection buffer_size (entry ∷ entries) buffer world).0 ≡ fault
  unfolding add_entries
  after_entry entry entries buffer world r step h =
      subst (λ r'. (resume (add_entries w connection buffer_size entries) r').0 ≡ fault) (sym step)
        h

  add_entries-fault :
      (entries : List Entry) (buffer : Bytes) (world : World w.State)
      → ShortNames entries
      → length buffer ≤ 3 * buffer_size
      → 3 * buffer_size < length buffer + length (listing_bytes entries)
      → (add_entries w connection buffer_size entries buffer world).0 ≡ fault
  unfolding append_entry
  add_entries-fault [] buffer world short fits over = absurd (omega (arith, fits, over))
  add_entries-fault (entry ∷ entries) buffer world (here, short) fits over =
      elim (Bool-cases (is_left_out entry)) [
        | inl left_out ↦
            after_entry entry entries buffer world (value buffer, world)
              (left_out_entry entry buffer world left_out)
              (add_entries-fault entries buffer world short fits (ground (arith, over, left_out)))
        | inr kept ↦
            elim (Bool-cases (leb (length (buffer ++ entry_bytes entry)) (3 * buffer_size))) [
              | inr past ↦
                  after_entry entry entries buffer world (fault, world)
                    (short_entry entry buffer world kept here ∙ rw (append_entry, past) refl) refl
              | inl within ↦
                  let longer = buffer ++ entry_bytes entry in
                  after_entry entry entries buffer world (value longer, world)
                    (short_entry entry buffer world kept here ∙ rw (append_entry, within) refl)
                    (add_entries-fault entries longer world short (ground (arith, within)) (
                      let split : listing_bytes (entry ∷ entries)
                          ≡ entry_bytes entry ++ listing_bytes entries =
                        rw kept refl in
                      omega (
                        arith,
                        over,
                        ap length split,
                        length-append (entry_bytes entry) (listing_bytes entries),
                        length-append buffer (entry_bytes entry),
                      )))
            ]
      ]

  -- When the entries that FindFiles is to send take more than the three buffers of a CopyContext, which
  -- are one allocation, and no name fills a buffer alone, the handler writes past the end of them.
  pub find_files_command-fault :
      (path : WString) (entries : List Entry) (error : ℕ) (world : World w.State)
      → w.find_files (connection.server_path ++ path) world.os ≡ found entries error
      → ShortNames entries
      → 3 * buffer_size < length (listing_bytes entries)
      → (find_files_command w connection buffer_size path world).0 ≡ fault
  unfolding find_files_command
  find_files_command-fault path entries error world listing short over =
      let h = add_entries-fault entries [] world short (omega arith) (omega (arith, over)) in
      rw (find_files_command, listing)
        (resume-fault (end_listing w connection buffer_size error)
          (add_entries w connection buffer_size entries [] world) h)
