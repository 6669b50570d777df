-- ===== src/Server/Sound.antt =====
-- The database stays sound whatever a client sends.
use eacopy.Base.{
  [], ◌∷◌, ℕ, ◌≡◌, refl, sym, subst, Bool, true, false, Option, some, Option-cases, Bool-cases, inl,
  inr, arith,
}
use eacopy.Base.Bytes.{Bytes}
use eacopy.Keys.{Hash}
use eacopy.Database.{Database, FileRec, add_to_files_history}
use eacopy.Database.Invariant.{Inv, add_to_files_history-Inv}
use eacopy.Os.{Os}
use eacopy.Network.Transfer.{Decompressed}
use eacopy.Server.{
  send_or_close, ServerSettings, Connection, World, Ended, value, closed, fault, stuck, resume,
  pure, ◌>>=◌, ◌>>◌, Step, change_database,
}
use eacopy.Server.Write.{
  response_byte, bad_destination, after_file, copy_using_smb, is_settled, send_result, full_path_of,
  WriteCommand, WriteResponse, Decision, key_of, reuse_local, skip_existing, decide, reuse_hashed,
  ask_hash, record_key, take_file, carry_out, write_file_command,
}

change_database-Inv :
    (S : Type 0) (f : Database → Option Database) (world : World S)
    → Inv world.database
    → ((db : Database) → f world.database ≡ some db → Inv db)
    → Inv (change_database f world).1.database
change_database-Inv S f world inv sound = elim (Option-cases (f world.database)) [
  | inl none_left ↦ rw (change_database, none_left) inv
  | inr (db, e) ↦ rw (change_database, e) (sound db e)
]

resume-Inv :
    (S A B : Type 0) (f : A → Step S B) (r : Ended A × World S)
    → ((a : A) (world : World S) → Inv world.database → Inv (f a world).1.database)
    → Inv r.1.database
    → Inv (resume f r).1.database
resume-Inv S A B f (value a, world) next inv = next a world inv
resume-Inv S A B f (closed, world) next inv = inv
resume-Inv S A B f (fault, world) next inv = inv
resume-Inv S A B f (stuck, world) next inv = inv

module _ (w : Os) (settings : ServerSettings) (connection : Connection) where
  reuse_local-database :
      (rounds : ℕ) (cmd : WriteCommand) (local : FileRec) (start : Decision) (world : World w.State)
      → (reuse_local w settings connection rounds cmd local start world).1.database ≡ world.database
  unfolding reuse_local
  reuse_local-database rounds cmd local start world = ground arith

  skip_existing-database :
      (cmd : WriteCommand) (local : FileRec) (start : Decision) (world : World w.State)
      → (skip_existing w settings connection cmd local start world).1.database ≡ world.database
  unfolding skip_existing
  skip_existing-database cmd local start world = ground arith

  decide-database :
      (rounds : ℕ) (cmd : WriteCommand) (world : World w.State)
      → (decide w settings connection rounds cmd world).1.database ≡ world.database
  unfolding decide
  decide-database rounds cmd world = ground arith

  reuse_hashed-database :
      (rounds : ℕ) (cmd : WriteCommand) (local : FileRec) (response : WriteResponse)
      (world : World w.State)
      → (reuse_hashed w settings connection rounds cmd local response world).1.database
        ≡ world.database
  unfolding reuse_hashed
  reuse_hashed-database rounds cmd local response world = ground arith

  ask_hash-database :
      (rounds : ℕ) (cmd : WriteCommand) (decision : Decision) (world : World w.State)
      → (ask_hash w settings connection rounds cmd decision world).1.database ≡ world.database
  unfolding ask_hash
  ask_hash-database rounds cmd decision world = ground arith

  take_file-database :
      (decompress : Bytes → Decompressed) (rounds : ℕ) (cmd : WriteCommand) (front buffer : Bytes)
      (response : WriteResponse) (world : World w.State)
      → (take_file w settings connection decompress rounds cmd front buffer response
          world).1.database
        ≡ world.database
  unfolding take_file
  take_file-database decompress rounds cmd front buffer response world = ground arith

  record_key-Inv :
      (cmd : WriteCommand) (hash : Hash) (world : World w.State)
      → Inv world.database
      → Inv (record_key w settings connection cmd hash world).1.database
  record_key-Inv cmd hash world inv =
      change_database-Inv w.State
        (add_to_files_history (key_of w settings connection cmd.path cmd.info) hash
          (full_path_of w settings connection cmd.path))
        world inv (λ db e. add_to_files_history-Inv _ hash _ world.database db inv e)

  send_result-database :
      (response : WriteResponse) (success : Bool) (taken : ℕ) (world : World w.State)
      → ((send_result w settings connection response success >>= λ done. pure taken)
          world).1.database
        ≡ world.database
  send_result-database copy_using_smb success taken world = refl
  send_result-database response success taken world = ground arith

  after_file-Inv :
      (cmd : WriteCommand) (decision : Decision) (r : Bool × ℕ) (world : World w.State)
      → Inv world.database
      → Inv (after_file w settings connection cmd decision r world).1.database
  after_file-Inv cmd decision (true, taken) world inv =
      resume-Inv w.State (Unit {0}) ℕ
        (λ done. send_result w settings connection decision.response true >>= λ sent. pure taken)
        (record_key w settings connection cmd decision.hash world)
        (λ done world' inv'.
          subst Inv (sym (send_result-database decision.response true taken world')) inv')
        (record_key-Inv cmd decision.hash world inv)
  after_file-Inv cmd decision (false, taken) world inv =
      subst Inv (sym (send_result-database decision.response false taken world)) inv

  carry_out-Inv :
      (decompress : Bytes → Decompressed) (rounds : ℕ) (cmd : WriteCommand) (front buffer : Bytes)
      (decision : Decision) (world : World w.State)
      → Inv world.database
      → Inv
          (carry_out w settings connection decompress rounds cmd front buffer decision
            world).1.database
  unfolding carry_out
  carry_out-Inv decompress rounds cmd front buffer decision world inv =
      elim (Bool-cases (is_settled decision.response)) [
        | inl settled ↦
            rw (carry_out, settled)
              (resume-Inv w.State (Unit {0}) ℕ (λ done. pure 0)
                (record_key w settings connection cmd decision.hash world)
                (λ done world' inv'. inv') (record_key-Inv cmd decision.hash world inv))
        | inr copying ↦
            rw (carry_out, copying)
              (resume-Inv w.State (Bool × ℕ) ℕ (after_file w settings connection cmd decision)
                (take_file w settings connection decompress rounds cmd front buffer
                  decision.response world)
                (after_file-Inv cmd decision)
                (subst Inv
                  (sym
                    (take_file-database decompress rounds cmd front buffer decision.response world))
                  inv))
      ]

  abbrev respond :
      (Bytes → Decompressed) → ℕ → WriteCommand → Bytes → Bytes → Decision → Step w.State ℕ
  respond decompress rounds cmd front buffer decision =
      send_or_close w (response_byte decision.response ∷ [])
      >> carry_out w settings connection decompress rounds cmd front buffer decision

  respond-Inv :
      (decompress : Bytes → Decompressed) (rounds : ℕ) (cmd : WriteCommand) (front buffer : Bytes)
      (decision : Decision) (world : World w.State)
      → Inv world.database
      → Inv (respond decompress rounds cmd front buffer decision world).1.database
  respond-Inv decompress rounds cmd front buffer decision world inv =
      resume-Inv w.State (Unit {0}) ℕ
        (λ sent. carry_out w settings connection decompress rounds cmd front buffer decision)
        (send_or_close w (response_byte decision.response ∷ []) world)
        (λ sent. carry_out-Inv decompress rounds cmd front buffer decision) inv

  -- Whatever the client sends and however the operating system answers, the handler of a WriteFile
  -- command leaves a sound database sound, on every way it can end.
  pub write_file_command-Inv :
      (decompress : Bytes → Decompressed) (rounds : ℕ) (cmd : WriteCommand) (front buffer : Bytes)
      (world : World w.State)
      → Inv world.database
      → Inv
          (write_file_command w settings connection decompress rounds cmd front buffer
            world).1.database
  unfolding write_file_command
  write_file_command-Inv decompress rounds cmd front buffer world inv =
      elim (Bool-cases connection.is_valid_environment) [
        | inr bad ↦
            rw (write_file_command, bad)
              (resume-Inv w.State (Unit {0}) ℕ (λ done. pure 0)
                (send_or_close w (response_byte bad_destination ∷ []) world)
                (λ done world' inv'. inv') inv)
        | inl good ↦
            rw (write_file_command, good)
              (resume-Inv w.State Decision ℕ
                (λ first.
                  ask_hash w settings connection rounds cmd first
                  >>= respond decompress rounds cmd front buffer)
                (decide w settings connection rounds cmd world)
                (λ first world' inv'.
                  resume-Inv w.State Decision ℕ (respond decompress rounds cmd front buffer)
                    (ask_hash w settings connection rounds cmd first world')
                    (respond-Inv decompress rounds cmd front buffer)
                    (subst Inv (sym (ask_hash-database rounds cmd first world')) inv'))
                (subst Inv (sym (decide-database rounds cmd world)) inv))
      ]
