-- ===== src/Server/Admission.antt =====
-- Which clients the command Environment of source/EACopyServer.cpp lets in when the server asks for the
-- secret of a file.
use eacopy.Base.{ℕ, ◌≡◌, ◌≢◌, ◌⊎◌, true, ◌++◌, none, some}
use eacopy.Os.{Os}
use eacopy.Server.Sessions.{
  Sessions, create_secret_file, secret_file_name, count_of, Access, EnvironmentCommand, Shares,
  ask_secret,
}

module _ (w : Os) (shares : Shares w) where
  -- The connection is in a new session. A file with its secret was made in the directory of the server
  -- that it asked for, and the client has returned the secret.
  abbrev pub HasRead : Sessions → Access w.State → Type 0
  HasRead sessions r =
      (secret : ℕ) × (file_guid : ℕ) × (s : w.State) × (r.active_session ≡ some secret)
      × (count_of secret sessions ≡ none)
      × ((create_secret_file w shares (r.server_path ++ secret_file_name w shares file_guid) secret
            s).0
          ≡ true)
      × ((ask_secret w shares file_guid secret
            (create_secret_file w shares (r.server_path ++ secret_file_name w shares file_guid)
              secret s).1).0
          ≡ true)

  -- The connection is in a session that was there before, whose secret the client has given.
  abbrev pub HasJoined : EnvironmentCommand → Sessions → Access w.State → Type 0
  HasJoined cmd sessions r =
      (r.active_session ≡ some cmd.cmd_secret_guid)
      × (cmd.cmd_secret_guid ≢ 0)
      × (count_of cmd.cmd_secret_guid sessions ≢ none)

  abbrev Admitted : EnvironmentCommand → Sessions → Access w.State → Type 0
  Admitted cmd sessions r = HasJoined cmd sessions r ⊎ HasRead sessions r
