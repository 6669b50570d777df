-- ===== src/Database/File/RoundTrip.antt =====
-- Reading back what was written: the reader replays the additions in the order of the history.
use eacopy.Base.{
  ℕ, zero, suc, ◌+◌, ◌-◌, ◌*◌, ◌%◌, ◌≤◌, ◌<◌, ◌≡◌, refl, ap, false, [], ◌∷◌, ◌++◌, Option, none,
  some, length, take, drop, ltb, leb, ◌==◌, ◌>>=◌, arith, append_assoc, append-nil, Option-cases,
  inl, inr, length-append,
}
use eacopy.Base.Bytes.{
  Bytes, le, read_bytes, text_bytes, read_number-le, read_bytes-append, text_of-text_bytes,
  length-text_bytes, Readable, length-le, pow256,
}
use eacopy.Base.OrdMap
use eacopy.Keys.{FileKey}
use eacopy.Keys.Orders.{key_order}
use eacopy.Database.{Database, FileRec, Nodes, add_to_files_history}
use eacopy.Database.File.{
  encode_entry, encode_history, write_file, terminator, entry, parse_key, parse_name, parse_round,
  complete, read_rounds, read_file, link_db_cookie,
}

-- What the file format can hold: a readable name that fits the reader's buffer and ends with the
-- key's name, and numbers of the sizes of their types.
pub record Storable (key : FileKey) (rec : FileRec) : Type 0 where
  pub readable : Readable rec.name
  pub nonempty : 0 < length rec.name
  pub short : length rec.name * 2 + 1 < 4096
  pub key_short : length key.name ≤ length rec.name
  pub key_suffix : drop (length rec.name - length key.name) rec.name ≡ key.name
  pub size : key.file_size < pow256 8
  pub low : key.last_write_time.low < pow256 4
  pub high : key.last_write_time.high < pow256 4
  pub first : rec.hash.first < pow256 8
  pub second : rec.hash.second < pow256 8

take_all : (bs : Bytes) (n : ℕ) → length bs ≡ n → take n bs ≡ bs
take_all [] zero h = refl
take_all [] (suc n) h = refl
take_all (b ∷ bs) zero h = absurd (omega arith)
take_all (b ∷ bs) (suc n) h = ap (◌∷◌ b) (take_all bs n (omega arith))

module _ (key : FileKey) (rec : FileRec) (s : Storable key rec) (rest : Bytes) where
  parse_key-encoded :
      parse_key rec.name (length key.name) (
        le 8 key.file_size
        ++ (le 4 key.last_write_time.low
            ++ (le 4 key.last_write_time.high
                ++ (le 8 rec.hash.first ++ (le 8 rec.hash.second ++ rest)))))
      ≡ some (entry key rec.hash rec.name rest)
  unfolding parse_key
  parse_key-encoded = rw (read_number-le 8 key.file_size _ s.size) (
      rw (read_number-le 4 key.last_write_time.low _ s.low) (
        rw (read_number-le 4 key.last_write_time.high _ s.high) (
          rw (read_number-le 8 rec.hash.first _ s.first)
            (rw (read_number-le 8 rec.hash.second _ s.second) (rw s.key_suffix)))))

  abbrev tail_bytes : Bytes
  tail_bytes =
      le 8 key.file_size
      ++ (le 4 key.last_write_time.low
          ++ (le 4 key.last_write_time.high
              ++ (le 8 rec.hash.first ++ (le 8 rec.hash.second ++ rest))))

  parse_name-encoded :
      parse_name (length rec.name * 2) (length key.name) (text_bytes rec.name ++ tail_bytes)
      ≡ some (entry key rec.hash rec.name rest)
  unfolding parse_name
  parse_name-encoded =
      let sized : length (text_bytes rec.name) ≡ length rec.name * 2 =
        omega (arith, length-text_bytes rec.name) in
      let long : ltb (length rec.name) (length key.name) ≡ false = ground (arith, s.key_short) in
      rw (read_bytes-append (length rec.name * 2) (text_bytes rec.name) tail_bytes sized, ◌>>=◌)
        (rw (text_of-text_bytes rec.name s.readable) (rw long parse_key-encoded))

  encode_entry-append :
      encode_entry key rec ++ rest
      ≡ le 2 (length rec.name * 2)
        ++ (le 2 (length key.name) ++ (text_bytes rec.name ++ tail_bytes))
  unfolding encode_entry
  encode_entry-append =
      let small : (length rec.name * 2) % 65536 ≡ length rec.name * 2 = omega (arith, s.short) in
      let whole : take (length rec.name * 2) (text_bytes rec.name) ≡ text_bytes rec.name =
        take_all (text_bytes rec.name) (length rec.name * 2)
          (omega (arith, length-text_bytes rec.name)) in
      rw small (rw whole (simp append_assoc))

  parse_round-encoded :
      parse_round (encode_entry key rec ++ rest) ≡ some (entry key rec.hash rec.name rest)
  unfolding parse_round
  parse_round-encoded =
      let n : ℕ = length rec.name * 2 in
      let some_text : (n == 0) ≡ false = ground (arith, s.nonempty) in
      let fits : leb 4096 (n + 1) ≡ false = ground (arith, s.short) in
      rw encode_entry-append (
        rw (read_number-le 2 n _ (omega (arith, s.short)), ◌>>=◌)
          (rw some_text (
            rw fits (
              rw (read_number-le 2 (length key.name) _ (omega (arith, s.short, s.key_short)), ◌>>=◌)
                parse_name-encoded))))

-- The additions that the nodes of a history stand for.
unfoldable pub replay : Database → Nodes → Database → Option Database
replay src [] db = some db
replay src ((i, key) ∷ h) db = elim (OrdMap.find key_order key src.files) [
  | none ↦ none
  | some rec ↦ elim (add_to_files_history key rec.hash rec.name db) [
    | none ↦ none
    | some db' ↦ replay src h db'
  ]
]

abbrev pub AllStorable : Database → Nodes → Type 0
AllStorable src [] = Unit
AllStorable src ((i, key) ∷ h) =
    ((rec : FileRec) × (OrdMap.find key_order key src.files ≡ some rec) × Storable key rec)
    × AllStorable src h

terminated : (rest : Bytes) → parse_round (le 2 0 ++ rest) ≡ some terminator
unfolding parse_round
terminated rest = rw (read_number-le 2 0 rest (omega arith), ◌>>=◌)

read_rounds-encoded :
    (src : Database) (h : Nodes) (fuel : ℕ) (db db' : Database) (bytes : Bytes)
    → AllStorable src h
    → length h < fuel
    → encode_history src h ≡ some bytes
    → replay src h db ≡ some db'
    → read_rounds fuel bytes db ≡ complete db'
unfolding read_rounds encode_history replay
read_rounds-encoded src h zero db db' bytes s f e r = absurd (omega arith)
read_rounds-encoded src [] (suc fuel) db db' bytes s f e r =
    ground (arith, e, r, append-nil (le 2 0), terminated [])
read_rounds-encoded src ((i, key) ∷ h) (suc fuel) db db' bytes s f e r =
    let (rec, known, fits) = s.0 in
    elim (Option-cases (encode_history src h)) [
      | inl no_rest ↦ absurd (ground (arith, e, known, no_rest))
      | inr (rest, encoded) ↦ elim (Option-cases (add_to_files_history key rec.hash rec.name db)) [
        | inl refused ↦ absurd (ground (arith, r, known, refused))
        | inr (db1, added) ↦
            let more : read_rounds fuel rest db1 ≡ complete db' =
              read_rounds-encoded src h fuel db1 db' rest s.1 (omega arith) encoded
                (ground (arith, r, known, added)) in
            let whole : encode_entry key rec ++ rest ≡ bytes = ground (arith, e, known, encoded) in
            rw (← whole) (ground (arith, parse_round-encoded key rec fits rest, added, more))
      ]
    ]

length-encode_entry : (key : FileKey) (rec : FileRec) → 2 ≤ length (encode_entry key rec)
unfolding encode_entry
length-encode_entry key rec =
    let n : ℕ = (length rec.name * 2) % 65536 in
    omega (arith, length-append (le 2 n) _, length-le 2 n)

-- Each node takes some bytes, so the file's length is fuel enough.
encoded-total :
    (src : Database) (h : Nodes)
    → AllStorable src h
    → (bytes : Bytes) × (encode_history src h ≡ some bytes) × (length h < suc (length bytes))
unfolding encode_history
encoded-total src [] s = (le 2 0, refl, omega arith)
encoded-total src ((i, key) ∷ h) s =
    let (rec, known, fits) = s.0 in
    let (rest, encoded, longer) = encoded-total src h s.1 in
    (
      encode_entry key rec ++ rest,
      rw (known, encode_history) (rw encoded),
      omega (arith, length-append (encode_entry key rec) rest, length-encode_entry key rec),
    )

-- Every database whose files the format can hold is written, and reading the result back performs
-- the additions of its history again, in order, to any database.
pub read_file-write_file :
    (src db db' : Database)
    → AllStorable src src.history
    → replay src src.history db ≡ some db'
    → (bytes : Bytes) × (write_file src ≡ some bytes) × (read_file bytes db ≡ complete db')
unfolding write_file read_file
read_file-write_file src db db' s r =
    let (bytes, encoded, longer) = encoded-total src src.history s in
    let rounds : read_rounds (suc (length bytes)) bytes db ≡ complete db' =
      read_rounds-encoded src src.history (suc (length bytes)) db db' bytes s longer encoded r in
    let cookie : read_bytes (length link_db_cookie) (link_db_cookie ++ bytes)
        ≡ some (link_db_cookie, bytes) =
      read_bytes-append (length link_db_cookie) link_db_cookie bytes refl in
    (link_db_cookie ++ bytes, rw encoded, rw (cookie, read_file) rounds)
