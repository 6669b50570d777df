-- ===== src/Server/Kept.antt =====
-- What a ReadFile command leaves as it was, and when it skips a file.
use eacopy.Base.{
  ◌∙◌, ◌≢◌, ◌⊎◌, Bool-cases, inl, inr, ℕ, ◌≡◌, refl, sym, ap, true, ◌&&◌, ◌||◌, [], ◌∷◌, ◌==◌,
  if◌then◌else◌, arith,
}
use eacopy.Keys.{FileInfo, equals, Hash, hash_eq, is_valid}
use eacopy.Database.{Database}
use eacopy.Os.{Os, is_directory}
use eacopy.Files.{get_file_info}
use eacopy.Network.Sending.{CompressionStats}
use eacopy.Server.{
  resume, ServerSettings, Connection, World, Ended, value, closed, fault, stuck, Step, pure, ◌>>◌,
  send_or_close,
}
use eacopy.Server.Queues.{too_busy}
use eacopy.Server.Read.{
  first_response, server_hash, client_hash, compare_with, compare_hashes, ReadResponse, skip,
  bad_source, server_busy, response_byte, ReadCommand, Libraries, Place, place_of, choose,
  carry_out, read_file_command,
}

-- The database and the session's directories are the same.
abbrev Same : {S : Type 0} → World S → World S → Type 0
Same a b = (a.database ≡ b.database) × (a.created_dirs ≡ b.created_dirs)

resume-Same :
    (S A B : Type 0) (f : A → Step S B) (r : Ended A × World S) (base : World S)
    → Same r.1 base
    → ((a : A) (world : World S) → Same (f a world).1 world)
    → Same (resume f r).1 base
resume-Same S A B f (value a, world) base (same, same') next =
    let (now, now') = next a world in (now ∙ same, now' ∙ same')
resume-Same S A B f (closed, world) base same next = same
resume-Same S A B f (fault, world) base same next = same
resume-Same S A B f (stuck, world) base same next = same

value-injective : {A : Type 0} {a b : A} → value a ≡ value b → a ≡ b
value-injective e = cc

module _ (w : Os) (libraries : Libraries w) (settings : ServerSettings)
    (connection : Connection) where
  choose_keeps :
      (cmd : ReadCommand) (fi : FileInfo) (world : World w.State)
      → ((choose w libraries settings connection cmd fi world).1.database ≡ world.database)
        × ((choose w libraries settings connection cmd fi world).1.created_dirs
            ≡ world.created_dirs)
  unfolding choose
  choose_keeps cmd fi world = ground arith

  carry_out_keeps :
      (rounds : ℕ) (cmd : ReadCommand) (fi : FileInfo) (cs : CompressionStats)
      (response : ReadResponse) (world : World w.State)
      → ((carry_out w libraries settings connection rounds cmd fi cs response world).1.database
          ≡ world.database)
        × ((carry_out w libraries settings connection rounds cmd fi cs response
              world).1.created_dirs
            ≡ world.created_dirs)
  unfolding carry_out
  carry_out_keeps rounds cmd fi cs response world = ground arith

  answer :
      ℕ → ReadCommand → FileInfo → CompressionStats → ReadResponse → Step w.State CompressionStats
  answer rounds cmd fi cs response =
      send_or_close w (response_byte response ∷ [])
      >> carry_out w libraries settings connection rounds cmd fi cs response

  answer-Same :
      (rounds : ℕ) (cmd : ReadCommand) (fi : FileInfo) (cs : CompressionStats)
      (response : ReadResponse) (world : World w.State)
      → Same (answer rounds cmd fi cs response world).1 world
  unfolding answer
  answer-Same rounds cmd fi cs response world =
      resume-Same w.State (Unit {0}) CompressionStats
        (λ done. carry_out w libraries settings connection rounds cmd fi cs response)
        (send_or_close w (response_byte response ∷ []) world) world (refl, refl)
        (λ done. carry_out_keeps rounds cmd fi cs response)

  refusal-Same :
      (byte : ℕ) (cs : CompressionStats) (world : World w.State)
      → Same ((send_or_close w (byte ∷ []) >> pure cs) world).1 world
  refusal-Same byte cs world = ground arith

  -- A ReadFile command changes neither the database nor what is known of the session's directories, on
  -- every way that its handler can end: a hash that it has calculated is not recorded, though a comment
  -- of the source says so.
  pub read_file_command_keeps :
      (rounds : ℕ) (place : Place) (cmd : ReadCommand) (cs : CompressionStats)
      (world : World w.State)
      → ((read_file_command w libraries settings connection rounds place cmd cs world).1.database
          ≡ world.database)
        × ((read_file_command w libraries settings connection rounds place cmd cs
              world).1.created_dirs
            ≡ world.created_dirs)
  unfolding read_file_command answer
  read_file_command_keeps rounds place cmd cs world =
      let info = get_file_info w (place_of w libraries settings connection cmd.path) world.os in
      elim (Bool-cases connection.is_valid_environment) [
        | inr bad ↦ rw (read_file_command, bad) (refusal-Same (response_byte bad_source) cs world)
        | inl good ↦
            elim (Bool-cases (
              too_busy settings.max_concurrent_download_count place.index place.info
                place.queues)) [
                  | inl busy ↦
                      rw (read_file_command, good, busy)
                        (refusal-Same (response_byte server_busy) cs world)
                  | inr free ↦
                      elim (Bool-cases (info.attributes == 0 || is_directory info.attributes)) [
                        | inl no_file ↦
                            rw (read_file_command, good, free, no_file)
                              (refusal-Same (response_byte bad_source) cs world)
                        | inr file ↦
                            rw (read_file_command, good, free, file)
                              (resume-Same w.State ReadResponse CompressionStats
                                (answer rounds cmd info.info cs)
                                (choose w libraries settings connection cmd info.info world) world
                                (choose_keeps cmd info.info world)
                                (answer-Same rounds cmd info.info cs))
                      ]
                ]
      ]

  first_response_copies :
      (cmd : ReadCommand) (db : Database)
      → first_response w libraries settings connection cmd db ≢ skip
  unfolding first_response
  first_response_copies cmd db h = ground (arith, h)

  -- The hash of the server's file, and behind the question for it that of the client's, are known, valid
  -- and the same.
  abbrev pub SameHashes : ReadCommand → FileInfo → World w.State → Type 0
  SameHashes cmd fi world =
      (ours : Hash) × (theirs : Hash) × ((server_hash w libraries settings connection cmd fi
          world).0
        ≡ value ours)
      × ((client_hash w libraries settings connection cmd
            (server_hash w libraries settings connection cmd fi world).1).0
          ≡ value theirs)
      × (is_valid ours ≡ true)
      × (is_valid theirs ≡ true)
      × (hash_eq theirs ours ≡ true)

  judged :
      (ours : Hash) (response : ReadResponse) (r : Ended Hash × World w.State)
      → response ≢ skip
      → (resume
          (λ theirs. pure (if is_valid theirs && hash_eq theirs ours then skip else response))
          r).0
        ≡ value skip
      → (theirs : Hash) × (r.0 ≡ value theirs)
        × (is_valid theirs ≡ true)
        × (hash_eq theirs ours ≡ true)
  judged ours response (value theirs, world) copies h =
      elim (Bool-cases (is_valid theirs && hash_eq theirs ours)) [
        | inl both ↦ (theirs, refl, ground (arith, both), ground (arith, both))
        | inr other ↦ absurd (ground (arith, other, h, copies))
      ]
  judged ours response (closed, world) copies h = absurd (cc)
  judged ours response (fault, world) copies h = absurd (cc)
  judged ours response (stuck, world) copies h = absurd (cc)

  compared :
      (cmd : ReadCommand) (response : ReadResponse) (r : Ended Hash × World w.State)
      → response ≢ skip
      → (resume
          (λ ours.
            if is_valid ours
            then compare_with w libraries settings connection ours cmd response
            else pure response)
          r).0
        ≡ value skip
      → (ours : Hash) × (r.0 ≡ value ours)
        × (is_valid ours ≡ true)
        × ((compare_with w libraries settings connection ours cmd response r.1).0 ≡ value skip)
  compared cmd response (value ours, world) copies h = elim (Bool-cases (is_valid ours)) [
    | inl valid ↦
        let step : (if is_valid ours
              then compare_with w libraries settings connection ours cmd response
              else pure response)
            ≡ compare_with w libraries settings connection ours cmd response =
          rw valid refl in
        (ours, refl, valid, sym (ap (λ (f : Step w.State ReadResponse). (f world).0) step) ∙ h)
    | inr invalid ↦
        let step : (if is_valid ours
              then compare_with w libraries settings connection ours cmd response
              else pure response)
            ≡ pure response =
          rw invalid refl in
        absurd (
          copies
            (value-injective (sym (ap (λ (f : Step w.State ReadResponse). (f world).0) step) ∙ h)))
  ]
  compared cmd response (closed, world) copies h = absurd (cc)
  compared cmd response (fault, world) copies h = absurd (cc)
  compared cmd response (stuck, world) copies h = absurd (cc)

  compare_with-skip :
      (ours : Hash) (cmd : ReadCommand) (response : ReadResponse) (world : World w.State)
      → response ≢ skip
      → (compare_with w libraries settings connection ours cmd response world).0 ≡ value skip
      → (theirs : Hash) × ((client_hash w libraries settings connection cmd world).0 ≡ value theirs)
        × (is_valid theirs ≡ true)
        × (hash_eq theirs ours ≡ true)
  unfolding compare_with
  compare_with-skip ours cmd response world copies h =
      judged ours response (client_hash w libraries settings connection cmd world) copies h

  compare_hashes-skip :
      (cmd : ReadCommand) (fi : FileInfo) (response : ReadResponse) (world : World w.State)
      → response ≢ skip
      → (compare_hashes w libraries settings connection cmd fi response world).0 ≡ value skip
      → SameHashes cmd fi world
  unfolding compare_hashes
  compare_hashes-skip cmd fi response world copies h =
      let (ours, known, valid, h') =
        compared cmd response (server_hash w libraries settings connection cmd fi world) copies h in
      let (theirs, known', valid', same) =
        compare_with-skip ours cmd response
          (server_hash w libraries settings connection cmd fi world).1 copies h' in
      (ours, theirs, known, known', valid, valid', same)

  -- The handler decides to skip a file only if the client has it with the same time and size, or if the
  -- settings use hashes, the client has it with the same size, and the hashes of both files are known,
  -- valid and the same.
  pub choose-skip :
      (cmd : ReadCommand) (fi : FileInfo) (world : World w.State)
      → (choose w libraries settings connection cmd fi world).0 ≡ value skip
      → (equals fi cmd.info ≡ true)
        ⊎ ((settings.use_hash ≡ true)
            × (fi.file_size ≡ cmd.info.file_size)
            × SameHashes cmd fi world)
  unfolding choose
  choose-skip cmd fi world h = elim (Bool-cases (equals fi cmd.info)) [
    | inl same ↦ inl same
    | inr other ↦
        let first = first_response w libraries settings connection cmd world.database in
        elim (Bool-cases (settings.use_hash && fi.file_size == cmd.info.file_size)) [
          | inl both ↦
              let step : choose w libraries settings connection cmd fi world
                  ≡ compare_hashes w libraries settings connection cmd fi first world =
                rw (choose, other, both) refl in
              inr (
                ground (arith, both),
                ground (arith, both),
                compare_hashes-skip cmd fi first world (first_response_copies cmd world.database)
                    (sym (ap (λ r. r.0) step) ∙ h),
              )
          | inr neither ↦
              let step : (choose w libraries settings connection cmd fi world).0
                  ≡ value (first_response w libraries settings connection cmd world.database) =
                rw (choose, other, neither) refl in
              absurd (ground (arith, h, step, first_response_copies cmd world.database))
        ]
  ]
