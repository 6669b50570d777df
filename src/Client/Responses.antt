-- ===== src/Client/Responses.antt =====
-- What the client of source/EACopyClient.cpp does with the responses of the server of
-- source/EACopyServer.cpp to an upload.
use eacopy.Base.{
  ℕ, ◌+◌, ◌*◌, ◌≤◌, ◌<◌, ◌≡◌, refl, true, false, ◌&&◌, [], ◌∷◌, some, length, ltb, leb, ◌==◌,
  WString, arith, ◌++◌, ap, sym, ◌∙◌, Bool-cases, inl, inr,
}
use eacopy.Base.Bytes.{Bytes, from_le}
use eacopy.Keys.{FileInfo}
use eacopy.Os.{Os}
use eacopy.Settings.{Settings}
use eacopy.Network.{send_data, receive_data}
use eacopy.Network.Stream.{Stream, send_data-outgoing, receive_data-incoming}
use eacopy.Network.Transfer.{Decompressed}
use eacopy.Server.{Connection, World, ServerSettings}
use eacopy.Server as Server
use eacopy.Server.Write.{WriteCommand, response_byte, bad_destination, write_file_command}
use eacopy.Client.{Work, fault, Libraries, max_path, write_file}
use eacopy.Client.Answers.{append-split}
use eacopy.Client.Requests.{send_request}
use eacopy.Client.Upload.{
  write_type_of, write_response_count, announced, receive_response, send_write_file_command,
}

module _ (w : Os) (libraries : Libraries w) (settings : Settings) where
  -- The bytes of the command for an upload.
  abbrev pub command_bytes : WString → FileInfo → Bytes
  command_bytes dst info =
      libraries.layout
        (write_file (record { write_type = write_type_of settings; info = info; path = dst }))

  send_write_file_command-fault :
      (rounds : ℕ) (src dst : WString) (info : FileInfo) (attributes b : ℕ) (work : Work w.State)
      → (info.last_write_time.low == 0 && info.last_write_time.high == 0) ≡ false
      → length dst < max_path
      → (send_data w (command_bytes dst info) work.os).0 ≡ true
      → (receive_data w 1 (send_data w (command_bytes dst info) work.os).1).0 ≡ some (b ∷ [])
      → write_response_count ≤ b
      → (send_write_file_command w libraries settings rounds src dst info attributes work).0 ≡ fault
  unfolding send_write_file_command announced send_request receive_response from_le
  send_write_file_command-fault rounds src dst info attributes b work known short went came over =
      let fits : leb max_path (length dst) ≡ false = ground (arith, short) in
      let behind : ltb (b + 256 * 0) write_response_count ≡ false = ground (arith, over) in
      rw (send_write_file_command, fits, known, went, came, behind) refl

module _ (ws : Os) (served : Stream ws) (of_server : ServerSettings) (connection : Connection) where
  -- The only byte that a server sends when its environment is not valid.
  refusal :
      (decompress : Bytes → Decompressed) (rounds : ℕ) (cmd : WriteCommand) (front buffer : Bytes)
      (world : World ws.State) (sent : Bytes) (taken : ℕ)
      → connection.is_valid_environment ≡ false
      → (write_file_command ws of_server connection decompress rounds cmd front buffer world).0
        ≡ Server.value taken
      → served.outgoing
          (write_file_command ws of_server connection decompress rounds cmd front buffer world).1.os
        ≡ served.outgoing world.os ++ sent
      → sent ≡ response_byte bad_destination ∷ []
  unfolding write_file_command
  refusal decompress rounds cmd front buffer world sent taken invalid done out =
      elim (Bool-cases (send_data ws (response_byte bad_destination ∷ []) world.os).0) [
        | inr broken ↦ absurd (ground (arith, invalid, broken, done))
        | inl went ↦
            let wrote =
              send_data-outgoing ws served (response_byte bad_destination ∷ []) world.os went in
            let whole : served.outgoing world.os ++ sent
                ≡ served.outgoing world.os ++ (response_byte bad_destination ∷ []) =
              ground (arith, invalid, went, out, wrote) in
            (append-split (served.outgoing world.os) (served.outgoing world.os) sent
              (response_byte bad_destination ∷ []) refl whole).1
      ]

  module _ (wc : Os) (stream : Stream wc) (libraries : Libraries wc) (settings : Settings) where
    -- An upload between a client and a server whose environment is not valid: the server's handler of
    -- WriteFile succeeds. The client offers a file with a known time under a path that fits the command,
    -- the command is sent, and what the client is to receive then begins with what that handler has
    -- sent. When the client receives its response, sendWriteFileCommand counts it behind the end of its
    -- arrays of counters.
    pub send_write_file_command_refused :
        (decompress : Bytes → Decompressed) (rounds : ℕ) (cmd : WriteCommand) (front buffer : Bytes)
        (world : World ws.State) (sent rest : Bytes) (taken : ℕ) (rounds' : ℕ) (src dst : WString)
        (info : FileInfo) (attributes : ℕ) (bytes : Bytes) (work : Work wc.State)
        → connection.is_valid_environment ≡ false
        → (write_file_command ws of_server connection decompress rounds cmd front buffer world).0
          ≡ Server.value taken
        → served.outgoing
            (write_file_command ws of_server connection decompress rounds cmd front buffer
              world).1.os
          ≡ served.outgoing world.os ++ sent
        → (info.last_write_time.low == 0 && info.last_write_time.high == 0) ≡ false
        → length dst < max_path
        → (send_data wc (command_bytes wc libraries settings dst info) work.os).0 ≡ true
        → stream.incoming (send_data wc (command_bytes wc libraries settings dst info) work.os).1
          ≡ sent ++ rest
        → (receive_data wc 1
            (send_data wc (command_bytes wc libraries settings dst info) work.os).1).0
          ≡ some bytes
        → (send_write_file_command wc libraries settings rounds' src dst info attributes work).0
          ≡ fault
    send_write_file_command_refused decompress rounds cmd front buffer world sent rest taken rounds'
          src dst info attributes bytes work invalid done out known short went here came =
        let s1 = (send_data wc (command_bytes wc libraries settings dst info) work.os).1 in
        let answer = refusal decompress rounds cmd front buffer world sent taken invalid done out in
        let (taken_off, one) = receive_data-incoming wc stream 1 bytes s1 came in
        let (same, left) =
          append-split bytes (response_byte bad_destination ∷ [])
            (stream.incoming (receive_data wc 1 s1).1) rest one
            (sym taken_off ∙ here ∙ ap (λ t. t ++ rest) answer) in
        send_write_file_command-fault wc libraries settings rounds' src dst info attributes
          (response_byte bad_destination) work known short went (came ∙ ap some same) (omega arith)
