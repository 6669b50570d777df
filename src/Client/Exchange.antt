-- ===== src/Client/Exchange.antt =====
-- FindFiles between the client of source/EACopyClient.cpp and the server of source/EACopyServer.cpp.
use eacopy.Base.{
  ℕ, suc, ◌≤◌, ◌≡◌, refl, ap, sym, ◌∙◌, List, [], ◌∷◌, ◌++◌, append_assoc, length, WString, arith,
}
use eacopy.Base.Bytes.{Bytes, le}
use eacopy.Os.{Os, Entry, found}
use eacopy.Network.Stream.{Stream}
use eacopy.Server.{Connection, World}
use eacopy.Server as Server
use eacopy.Server.Listing.{listing_bytes, find_files_command}
use eacopy.Server.Overflow.{ShortNames}
use eacopy.Server.ListingSent.{wire, find_files_command-outgoing}
use eacopy.Client.{Libraries, Work, value, NameAndFileInfo, buffer_size}
use eacopy.Client.Requests.{receive_blocks}
use eacopy.Client.Listing.{all_listed, AllSendable}
use eacopy.Client.Answers.{append-split, receive_blocks_end, receive_blocks_listing}

append-cancel : (a x y : Bytes) → a ++ x ≡ a ++ y → x ≡ y
append-cancel a x y h = (append-split a a x y refl h).1

nothing_there : (bytes : Bytes) → length bytes ≡ 0 → bytes ≡ []
nothing_there [] h = refl
nothing_there (b ∷ bytes) h = absurd (omega (arith, h))

module _ (ws : Os) (served : Stream ws) (connection : Connection) (wc : Os) (stream : Stream wc)
    (libraries : Libraries wc) where
  -- A listing from the server to the client: when no name fills the server's buffer by itself, the
  -- entries can be sent, at least one of them is, the handler of FindFiles succeeds, and the client
  -- receives what it has sent, then a success of the client's loop gives exactly the entries that were
  -- found, in their order, without the directory itself and the one above it, and leaves on the
  -- connection exactly what the server sends later.
  pub receive_blocks-find_files_command :
      (path : WString) (entries : List Entry) (error : ℕ) (world : World ws.State)
      (sent rest : Bytes) (rounds : ℕ) (work : Work wc.State) (got : List NameAndFileInfo)
      → ws.find_files (connection.server_path ++ path) world.os ≡ found entries error
      → ShortNames ws connection buffer_size entries
      → AllSendable entries
      → 1 ≤ length (listing_bytes entries)
      → (find_files_command ws connection buffer_size path world).0 ≡ Server.value tt
      → served.outgoing (find_files_command ws connection buffer_size path world).1.os
        ≡ served.outgoing world.os ++ sent
      → stream.incoming work.os ≡ sent ++ rest
      → (receive_blocks wc libraries (suc (suc rounds)) [] work).0 ≡ value got
      → (got ≡ all_listed entries)
        × (stream.incoming (receive_blocks wc libraries (suc (suc rounds)) [] work).1.os ≡ rest)
  receive_blocks-find_files_command path entries error world sent rest rounds work got listing short
        fine some_bytes done out here h =
      let (wrote, fits) =
        find_files_command-outgoing ws served connection buffer_size path entries error world
          listing short done in
      let same = append-cancel (served.outgoing world.os) sent (wire entries) (sym out ∙ wrote) in
      receive_blocks_listing wc stream libraries rounds entries got rest work fine some_bytes fits
        (here ∙ ap (λ t. t ++ rest) same) h

  -- A listing in which nothing is sent, as that of an empty directory: when the handler of FindFiles
  -- succeeds and the client receives what it has sent, then a success of the client's loop gives no
  -- entry, and leaves an empty block of the answer on the connection, in front of what the server sends
  -- later.
  pub receive_blocks-find_files_command_empty :
      (path : WString) (entries : List Entry) (error : ℕ) (world : World ws.State)
      (sent rest : Bytes) (rounds : ℕ) (work : Work wc.State) (got : List NameAndFileInfo)
      → ws.find_files (connection.server_path ++ path) world.os ≡ found entries error
      → ShortNames ws connection buffer_size entries
      → length (listing_bytes entries) ≡ 0
      → (find_files_command ws connection buffer_size path world).0 ≡ Server.value tt
      → served.outgoing (find_files_command ws connection buffer_size path world).1.os
        ≡ served.outgoing world.os ++ sent
      → stream.incoming work.os ≡ sent ++ rest
      → (receive_blocks wc libraries (suc rounds) [] work).0 ≡ value got
      → (got ≡ [])
        × (stream.incoming (receive_blocks wc libraries (suc rounds) [] work).1.os ≡ le 4 0 ++ rest)
  receive_blocks-find_files_command_empty path entries error world sent rest rounds work got listing
        short nothing done out here h =
      let (wrote, fits) =
        find_files_command-outgoing ws served connection buffer_size path entries error world
          listing short done in
      let same = append-cancel (served.outgoing world.os) sent (wire entries) (sym out ∙ wrote) in
      let none_of : listing_bytes entries ≡ [] = nothing_there (listing_bytes entries) nothing in
      let blank : wire entries ≡ le 4 0 ++ le 4 0 =
        ap (λ b. le 4 (length b) ++ (b ++ le 4 0)) none_of in
      receive_blocks_end wc stream libraries rounds [] got (le 4 0 ++ rest) work
        (here ∙ ap (λ t. t ++ rest) (same ∙ blank) ∙ append_assoc (le 4 0) (le 4 0) rest) h
