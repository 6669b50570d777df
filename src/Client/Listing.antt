-- ===== src/Client/Listing.antt =====
-- sendFindFiles and sendGetFileAttributes of source/EACopyClient.cpp against the answers that
-- source/EACopyServer.cpp gives to them.
use eacopy.Base.{
  ℕ, zero, suc, ◌+◌, ◌*◌, ◌%◌, ◌/◌, ◌≤◌, ◌<◌, ◌≡◌, refl, subst, ap, ◌∙◌, List, [], ◌∷◌, ◌++◌,
  append_assoc, some, length, length-append, if◌then◌else◌, WString, arith, inl, inr, Bool-cases,
}
use eacopy.Base.Bytes.{Bytes, le, read_number-le, text_bytes, Readable, length-le}
use eacopy.Keys.{no_time}
use eacopy.Os.{Entry}
use eacopy.Server.Listing.{entry_bytes, listing_bytes, is_left_out}
use eacopy.Client.{NameAndFileInfo}
use eacopy.Client.Requests.{
  take_name, parse_entry, parse_block, behind_attributes, behind_low, behind_high, behind_size,
  named,
}

-- What a client is to know of an entry.
abbrev pub listed : Entry → NameAndFileInfo
listed entry = record {
  name = entry.name;
  info = record {
    creation_time = no_time;
    last_write_time = entry.info.last_write_time;
    file_size = entry.info.file_size;
  };
  attributes = entry.attributes;
}

abbrev pub all_listed : List Entry → List NameAndFileInfo
all_listed [] = []
all_listed (entry ∷ entries) =
    let rest = all_listed entries in if is_left_out entry then rest else listed entry ∷ rest

-- An entry whose numbers fit their types and whose name has no zero in it.
abbrev pub Sendable : Entry → Type 0
Sendable entry =
    (entry.attributes < 4294967296)
    × (entry.info.last_write_time.low < 4294967296)
    × (entry.info.last_write_time.high < 4294967296)
    × (entry.info.file_size < 18446744073709551616)
    × Readable entry.name

abbrev pub AllSendable : List Entry → Type 0
AllSendable [] = Unit
AllSendable (entry ∷ entries) = Sendable entry × AllSendable entries

take_name-text :
    (name : WString) (rest : Bytes)
    → Readable name
    → take_name (text_bytes name ++ 0 ∷ 0 ∷ rest) ≡ some (name, rest)
unfolding take_name text_bytes
take_name-text [] rest h = refl
take_name-text (c ∷ cs) rest h =
    let e : c % 256 + 256 * (c / 256 % 256) ≡ c = omega arith in
    rw (e, take_name-text cs rest h.2) (ground arith)

pub parse_entry-entry_bytes :
    (entry : Entry) (rest : Bytes)
    → Sendable entry
    → parse_entry (entry_bytes entry ++ rest) ≡ some (listed entry, rest)
unfolding parse_entry entry_bytes
parse_entry-entry_bytes entry rest h =
    let t = entry.info.last_write_time in
    let name_part = text_bytes entry.name ++ 0 ∷ 0 ∷ rest in
    let split : entry_bytes entry ++ rest
        ≡ le 4 entry.attributes
          ++ (le 4 t.low ++ (le 4 t.high ++ (le 8 entry.info.file_size ++ name_part))) =
      simp append_assoc in
    let sized = le 8 entry.info.file_size ++ name_part in
    ap parse_entry split
    ∙ ap behind_attributes (
        read_number-le 4 entry.attributes (le 4 t.low ++ (le 4 t.high ++ sized)) (omega (arith, h)))
    ∙ ap (behind_low entry.attributes)
        (read_number-le 4 t.low (le 4 t.high ++ sized) (omega (arith, h)))
    ∙ ap (behind_high entry.attributes t.low) (read_number-le 4 t.high sized (omega (arith, h)))
    ∙ ap (behind_size entry.attributes t)
        (read_number-le 8 entry.info.file_size name_part (omega (arith, h)))
    ∙ ap (named entry.attributes t entry.info.file_size) (take_name-text entry.name rest h.4)

length-entry_bytes : (entry : Entry) → 1 ≤ length (entry_bytes entry)
unfolding entry_bytes
length-entry_bytes entry = omega (
  arith,
  length-le 4 entry.attributes,
  length-append (le 4 entry.attributes) (
      (le 4 entry.info.last_write_time.low ++ le 4 entry.info.last_write_time.high)
      ++ (le 8 entry.info.file_size ++ (text_bytes entry.name ++ 0 ∷ 0 ∷ []))),
)

parse_block-entry :
    (rounds : ℕ) (bytes behind : Bytes) (entry : NameAndFileInfo) (entries : List NameAndFileInfo)
    → 1 ≤ length bytes
    → parse_entry bytes ≡ some (entry, behind)
    → parse_block rounds behind ≡ some entries
    → parse_block (suc rounds) bytes ≡ some (entry ∷ entries)
unfolding parse_block
parse_block-entry rounds [] behind entry entries more here rest = absurd (omega (arith, more))
parse_block-entry rounds (b ∷ bytes) behind entry entries more here rest =
    rw (parse_block, here, rest) refl

-- A block of entries is read back as the entries that were written, without the directory itself and
-- the one above it, when their numbers fit and their names hold no zero.
pub parse_block-listing_bytes :
    (rounds : ℕ) (entries : List Entry)
    → length (listing_bytes entries) ≤ rounds
    → AllSendable entries
    → parse_block rounds (listing_bytes entries) ≡ some (all_listed entries)
unfolding parse_block
parse_block-listing_bytes rounds [] enough h = ground arith
parse_block-listing_bytes zero (entry ∷ entries) enough (here, h) =
    elim (Bool-cases (is_left_out entry)) [
      | inl left_out ↦
          rw left_out (parse_block-listing_bytes zero entries (ground (arith, enough, left_out)) h)
      | inr kept ↦
          let long : length (entry_bytes entry ++ listing_bytes entries) ≤ 0 =
            subst
              (λ b.
                length
                  (if b then listing_bytes entries else entry_bytes entry ++ listing_bytes entries)
                ≤ 0)
              kept enough in
          absurd (
            omega (
              arith,
              long,
              length-entry_bytes entry,
              length-append (entry_bytes entry) (listing_bytes entries),
            ))
    ]
parse_block-listing_bytes (suc rounds) (entry ∷ entries) enough (here, h) =
    elim (Bool-cases (is_left_out entry)) [
      | inl left_out ↦
          rw left_out
            (parse_block-listing_bytes (suc rounds) entries (ground (arith, enough, left_out)) h)
      | inr kept ↦
          let long : length (entry_bytes entry ++ listing_bytes entries) ≤ suc rounds =
            subst
              (λ b.
                length
                  (if b then listing_bytes entries else entry_bytes entry ++ listing_bytes entries)
                ≤ suc rounds)
              kept enough in
          let split = length-append (entry_bytes entry) (listing_bytes entries) in
          let some_bytes = length-entry_bytes entry in
          rw kept (
            parse_block-entry rounds (entry_bytes entry ++ listing_bytes entries)
              (listing_bytes entries) (listed entry) (all_listed entries)
              (omega (arith, split, some_bytes))
              (parse_entry-entry_bytes entry (listing_bytes entries) here)
              (parse_block-listing_bytes rounds entries (omega (arith, long, split, some_bytes)) h))
    ]
