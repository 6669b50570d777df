-- ===== src/Server/Sessions.antt =====
-- The command Environment of Server::connectionThread of source/EACopyServer.cpp, the table of sessions,
-- and getLocalFromNet. The entry into a queue of downloads, which happens on the way, is in
-- Server/Queues. A Guid is a number of 128 bits; the file of the secret is made without its hidden flag.
use eacopy.Base.{
  ℕ, ◌+◌, ◌%◌, Bool, true, false, ◌&&◌, not, List, [], ◌∷◌, ◌++◌, Option, none, some, take, drop,
  length, ◌==◌, if◌then◌else◌, WString,
}
use eacopy.Base.Bytes.{le, from_le}
use eacopy.Paths.{backslash, char_at, split_last}
use eacopy.Os.{Os}
use eacopy.Network.{send_data, receive_data}
use eacopy.Network.Transfer.{open_file_write, write_file, close_file}
use eacopy.Files.{delete_file}
use eacopy.Files.Directories.{ensure_directory}

-- m_activeSessions: the connections of each session.
abbrev pub Sessions : Type 0
Sessions = List (ℕ × ℕ)

unfoldable pub count_of : ℕ → Sessions → Option ℕ
count_of guid [] = none
count_of guid ((g, n) ∷ sessions) =
    let rest = count_of guid sessions in if g == guid then some n else rest

-- `insert({guid, {}})` where it is missing, and `++connectionCount`
unfoldable pub raise_count : ℕ → Sessions → Sessions
raise_count guid [] = (guid, 1) ∷ []
raise_count guid ((g, n) ∷ sessions) =
    let rest = raise_count guid sessions in
    if g == guid then (g, (n + 1) % 4294967296) ∷ sessions else (g, n) ∷ rest

-- `--connectionCount`
unfoldable pub lower_count : ℕ → Sessions → Sessions
lower_count guid [] = []
lower_count guid ((g, n) ∷ sessions) =
    let rest = lower_count guid sessions in
    if g == guid then (g, (n + 4294967295) % 4294967296) ∷ sessions else (g, n) ∷ rest

unfoldable pub erase : ℕ → Sessions → Sessions
erase guid [] = []
erase guid ((g, n) ∷ sessions) =
    let rest = erase guid sessions in if g == guid then sessions else (g, n) ∷ rest

-- `if (connectionCount == 0) erase(guid)`
abbrev pub settle_by : Option ℕ → ℕ → Sessions → Sessions
settle_by none guid sessions = sessions
settle_by (some n) guid sessions = if n == 0 then erase guid sessions else sessions

-- What connectionThread keeps of a connection for this. `active_session` is the session whose entry
-- the pointer of that name points to.
pub record Access (S : Type 0) : Type 0 where
  pub sessions : Sessions
  pub active_session : Option ℕ
  pub secret_guid : ℕ
  pub server_path : WString
  pub is_server_path_external : Bool
  pub is_valid_environment : Bool
  pub os : S

pub record EnvironmentCommand : Type 0 where
  pub net_directory : WString
  pub cmd_secret_guid : ℕ

-- What is Windows's here: NetShareGetInfo, CoCreateGuid and StringFromGUID2.
pub record Shares (w : Os) : Type 0 where
  pub share_path : WString → Option WString
  pub create_guid : w.State → Option ℕ × w.State
  pub guid_text : ℕ → WString

abbrev before_slash : WString → WString
before_slash [] = []
before_slash (c ∷ cs) = let rest = before_slash cs in if c == backslash then [] else c ∷ rest

abbrev ended_with_slash : WString → WString
ended_with_slash path = elim (split_last backslash path) [
  | some (before, []) ↦ path
  | some (before, b ∷ behind) ↦ path ++ backslash ∷ []
  | none ↦ path ++ backslash ∷ []
]

-- getLocalFromNet: the directory and whether it is external.
unfoldable pub get_local_from_net : (WString → Option WString) → WString → Option (WString × Bool)
get_local_from_net share_path net_directory =
    let netname = before_slash net_directory in
    elim (share_path netname) [
      | none ↦
          if char_at net_directory 0 == backslash && char_at net_directory 1 == backslash
          then some (net_directory, true)
          else none
      | some path ↦ some (ended_with_slash (path ++ drop (length netname) net_directory), false)
    ]

module _ (w : Os) (shares : Shares w) where
  -- createFile for the file of the secret
  unfoldable pub create_secret_file : WString → ℕ → w.State → Bool × w.State
  create_secret_file path secret s =
      let (opened, s1) = open_file_write w path true s in
      let (written, s2) = write_file w opened (le 16 secret) s1 in close_file w written written s2

  abbrev pub secret_file_name : ℕ → WString
  secret_file_name guid = b'.' ∷ b'f' ∷ take 36 (drop 1 (shares.guid_text guid))

  abbrev pub enter_session : ℕ → Access w.State → Access w.State
  enter_session guid a = record a {
    sessions = raise_count guid a.sessions;
    active_session = some guid;
  }

  -- The exchange over the socket: whether the client returns the secret.
  unfoldable pub ask_secret : (file_guid secret : ℕ) → w.State → Bool × w.State
  ask_secret file_guid secret s =
      let (sent, s1) = send_data w (le 16 file_guid) s in
      if sent
      then (let (bytes, s2) = receive_data w 16 s1 in
          (elim bytes [ none ↦ false | some b ↦ from_le b == secret ], s2))
      else (false, s1)

  -- The new session, once the file of the secret is there.
  unfoldable pub start_session : (file_guid : ℕ) → Access w.State → Bool × Access w.State
  unfolding count_of raise_count ask_secret
  start_session file_guid a = elim (count_of a.secret_guid a.sessions) [
    | some n ↦ (false, a)
    | none ↦
        let (returned, s1) = ask_secret file_guid a.secret_guid a.os in
        (returned, record (enter_session a.secret_guid a) { os = s1 })
  ]

  abbrev pub without_file : WString → Bool × Access w.State → Bool × Access w.State
  without_file path (went, a) = (went, record a { os = (delete_file w path false a.os).1 })

  -- The file with a new secret, which is deleted in the end. Only a client that may read it can return
  -- the secret.
  unfoldable pub test_access : (file_guid : ℕ) → Access w.State → Bool × Access w.State
  unfolding create_secret_file start_session
  test_access file_guid a =
      let path = a.server_path ++ secret_file_name file_guid in
      let made = ensure_directory w a.server_path 0 false true a.os in
      let (created, s2) = create_secret_file path a.secret_guid made.state in
      if not made.usable
      then (false, record a { os = made.state })
      else without_file path (
          if created
          then start_session file_guid (record a { os = s2 })
          else (false, record a { os = s2 }))

  -- A client without a secret.
  unfoldable pub without_secret : Access w.State → Bool × Access w.State
  unfolding test_access
  without_secret a =
      let (file_guid, s1) = shares.create_guid a.os in
      elim file_guid [
        | none ↦ (false, record a { os = s1 })
        | some guid ↦
            let (secret, s2) = shares.create_guid s1 in
            elim secret [
              | none ↦ (false, record a { os = s2 })
              | some new_secret ↦ test_access guid (record a { secret_guid = new_secret; os = s2 })
            ]
      ]

  -- The test of a client, where the server asks for it.
  unfoldable pub admit : (use_security_file : Bool) → Access w.State → Bool × Access w.State
  unfolding without_secret
  admit false a = (true, enter_session a.secret_guid a)
  admit true a =
      if a.secret_guid == 0 then without_secret a else elim (count_of a.secret_guid a.sessions) [
        | none ↦ (false, a)
        | some n ↦ (true, enter_session a.secret_guid a)
      ]

  abbrev pub validated : Bool × Access w.State → Bool × Access w.State
  validated (false, a) = (false, a)
  validated (true, a) = (true, record a { is_valid_environment = true })

  -- The case of Environment: false is `return -1`.
  unfoldable pub environment :
      (use_security_file : Bool) → EnvironmentCommand → Access w.State → Bool × Access w.State
  unfolding get_local_from_net admit
  environment use_security_file cmd a =
      elim (get_local_from_net shares.share_path cmd.net_directory) [
        | none ↦ (
          false,
          record a {
            secret_guid = cmd.cmd_secret_guid;
            server_path = cmd.net_directory;
            is_server_path_external = false;
          },
        )
        | some (path, external) ↦ validated (
            admit use_security_file (record a {
              secret_guid = cmd.cmd_secret_guid;
              server_path = path;
              is_server_path_external = external;
            }))
      ]

  -- The guard removeSecretGuid, at the end of the connection.
  unfoldable pub leave_session : Access w.State → Access w.State
  unfolding lower_count erase
  leave_session a = elim a.active_session [
    | none ↦ a
    | some guid ↦
        let lowered = lower_count guid a.sessions in
        record a { sessions = settle_by (count_of guid lowered) a.secret_guid lowered }
  ]
