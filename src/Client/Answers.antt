-- ===== src/Client/Answers.antt =====
-- What the loop of sendFindFiles of source/EACopyClient.cpp makes of the bytes that a server sends.
use eacopy.Base.{
  ◌*◌, ℕ, suc, ◌≤◌, ◌≡◌, refl, ap, sym, ◌∙◌, subst, false, List, [], ◌∷◌, ◌++◌, append_assoc,
  length, ltb, ◌==◌, if◌then◌else◌, arith, inl, inr, Option-cases,
}
use eacopy.Base.Bytes.{Bytes, le, from_le, from_le-le, length-le}
use eacopy.Os.{Os, Entry}
use eacopy.Network.{receive_data}
use eacopy.Network.Stream.{Stream, receive_data-incoming}
use eacopy.Server.Listing.{listing_bytes}
use eacopy.Server.ListingSent.{wire}
use eacopy.Client.{
  Libraries, Work, value, failed, fault, Step, pure, ◌>>=◌, receive_or_fail, NameAndFileInfo,
  buffer_size,
}
use eacopy.Client.Requests.{receive_blocks, parse_block, of_option}
use eacopy.Client.Listing.{all_listed, AllSendable, parse_block-listing_bytes}

pub append-split : (a b x y : Bytes) → length a ≡ length b → a ++ x ≡ b ++ y → (a ≡ b) × (x ≡ y)
append-split [] [] x y n h = (refl, h)
append-split [] (c ∷ b) x y n h = absurd (omega (arith, n))
append-split (c ∷ a) [] x y n h = absurd (omega (arith, n))
append-split (c ∷ a) (d ∷ b) x y n h =
    let tails : a ++ x ≡ b ++ y = cc in
    let (same, rest) = append-split a b x y (omega (arith, n)) tails in (cc, rest)

module _ (w : Os) (stream : Stream w) where
  -- A receipt that succeeds takes the bytes in front, and goes on from there.
  pub receive_front :
      {B : Type 0} (size : ℕ) (front rest : Bytes) (f : Bytes → Step w.State B)
      (work : Work w.State) (b : B)
      → length front ≡ size
      → stream.incoming work.os ≡ front ++ rest
      → ((receive_or_fail w size >>= f) work).0 ≡ value b
      → (os : w.State) × ((receive_or_fail w size >>= f) work ≡ f front (record work { os = os }))
        × (stream.incoming os ≡ rest)
  receive_front size front rest f work b len here h =
      let s1 = (receive_data w size work.os).1 in
      elim (Option-cases (receive_data w size work.os).0) [
        | inl broken ↦ absurd (ground (arith, broken, h))
        | inr (bytes, came) ↦
            let (taken, count) = receive_data-incoming w stream size bytes work.os came in
            let (same, left) =
              append-split bytes front (stream.incoming s1) rest (omega (arith, count, len))
                (sym taken ∙ here) in
            (s1, rw (came, same) refl, left)
      ]

  module _ (libraries : Libraries w) where
    abbrev pub blocks : ℕ → List NameAndFileInfo → Step w.State (List NameAndFileInfo)
    blocks = receive_blocks w libraries

    abbrev block_read : ℕ → List NameAndFileInfo → ℕ → Bytes → Step w.State (List NameAndFileInfo)
    block_read rounds files size block =
        of_option (parse_block size block) >>= λ entries. blocks rounds (files ++ entries)

    -- What follows the size of a block.
    abbrev sized : ℕ → List NameAndFileInfo → ℕ → Step w.State (List NameAndFileInfo)
    sized rounds files size =
        if size == 0
        then pure files
        else if size == 4294967295
        then (λ work. (failed, work))
        else if ltb (3 * buffer_size) size
        then (λ work. (fault, work))
        else (receive_or_fail w size >>= block_read rounds files size)

    sized_lem :
        (rounds : ℕ) (files : List NameAndFileInfo) (size : ℕ) (work : Work w.State)
        → 1 ≤ size
        → size ≤ 3 * buffer_size
        → sized rounds files size work
          ≡ (receive_or_fail w size >>= block_read rounds files size) work
    sized_lem rounds files size work more fits =
        let e1 : (size == 0) ≡ false = ground (arith, more) in
        let e2 : (size == 4294967295) ≡ false = ground (arith, fits) in
        let e3 : ltb (3 * buffer_size) size ≡ false = ground (arith, fits) in rw (e1, e2, e3) refl

    pub receive_blocks_end :
        (rounds : ℕ) (files got : List NameAndFileInfo) (rest : Bytes) (work : Work w.State)
        → stream.incoming work.os ≡ le 4 0 ++ rest
        → (blocks (suc rounds) files work).0 ≡ value got
        → (got ≡ files) × (stream.incoming (blocks (suc rounds) files work).1.os ≡ rest)
    unfolding receive_blocks le from_le
    receive_blocks_end rounds files got rest work here h =
        let (os, step, left) =
          receive_front 4 (le 4 0) rest (λ bytes. sized rounds files (from_le bytes)) work got refl
            here h in
        (ground (arith, h, step), ap (λ r. stream.incoming r.1.os) step ∙ left)

    pub receive_blocks_listing :
        (rounds : ℕ) (entries : List Entry) (got : List NameAndFileInfo) (rest : Bytes)
        (work : Work w.State)
        → AllSendable entries
        → 1 ≤ length (listing_bytes entries)
        → length (listing_bytes entries) ≤ 3 * buffer_size
        → stream.incoming work.os ≡ wire entries ++ rest
        → (blocks (suc (suc rounds)) [] work).0 ≡ value got
        → (got ≡ all_listed entries)
          × (stream.incoming (blocks (suc (suc rounds)) [] work).1.os ≡ rest)
    unfolding receive_blocks
    receive_blocks_listing rounds entries got rest work fine some_bytes fits here h =
        let block = listing_bytes entries in
        let size = length block in
        let front = le 4 size in
        let split : wire entries ++ rest ≡ front ++ (block ++ (le 4 0 ++ rest)) =
          append_assoc front (block ++ le 4 0) rest
          ∙ ap (λ t. front ++ t) (append_assoc block (le 4 0) rest) in
        let (os, step, left) =
          receive_front 4 front (block ++ (le 4 0 ++ rest))
            (λ bytes. sized (suc rounds) [] (from_le bytes)) work got (length-le 4 size)
            (here ∙ split) h in
        let number : from_le front ≡ size = from_le-le 4 size (omega (arith, fits)) in
        let work1 = record work { os = os } in
        let choice : sized (suc rounds) [] (from_le front) work1
            ≡ (receive_or_fail w size >>= block_read (suc rounds) [] size) work1 =
          ap (λ n. sized (suc rounds) [] n work1) number
          ∙ sized_lem (suc rounds) [] size work1 some_bytes fits in
        let (os2, step2, left2) =
          receive_front size block (le 4 0 ++ rest) (block_read (suc rounds) [] size) work1 got refl
            left (subst (λ r. r.0 ≡ value got) (step ∙ choice) h) in
        let work2 = record work1 { os = os2 } in
        let read : block_read (suc rounds) [] size block work2
            ≡ blocks (suc rounds) ([] ++ all_listed entries) work2 =
          ap (λ o. (of_option o >>= λ more. blocks (suc rounds) ([] ++ more)) work2)
            (parse_block-listing_bytes size entries (omega arith) fine) in
        let whole = step ∙ choice ∙ step2 ∙ read in
        let (files, end) =
          receive_blocks_end rounds (all_listed entries) got rest work2 left2
            (subst (λ r. r.0 ≡ value got) whole h) in
        (files, ap (λ r. stream.incoming r.1.os) whole ∙ end)
