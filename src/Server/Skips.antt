-- ===== src/Server/Skips.antt =====
-- A file that the server skips is there.
use eacopy.Base.{
  [], ◌∷◌, ℕ, ◌≡◌, ◌≢◌, refl, ap, sym, subst, Bool, true, false, ◌&&◌, not, leb, is_empty,
  if◌then◌else◌, WString, text_eq, Bool-cases, inl, inr, arith,
}
use eacopy.Keys.{no_hash, FileInfo, equals}
use eacopy.Database.{get_record, FileRec}
use eacopy.Paths.{convert_to_short_path}
use eacopy.Os.{Os}
use eacopy.Files.{Info, get_file_info, create_file_link, skipped}
use eacopy.Files.Links.{
  RefusedByFiles, IsThere, create_file_link-skipped, convert_to_short_path-idempotent,
}
use eacopy.Server.{ServerSettings, Connection, World, Ended, value}
use eacopy.Server.Write.{
  copy, copy_using_smb, is_compressed, WriteCommand, skip, copies, Decision, key_of, full_path_of,
  reuse_local, skip_existing, decide,
}

text_eq_sound : (a b : WString) → text_eq a b ≡ true → a ≡ b
text_eq_sound [] [] h = refl
text_eq_sound [] (b ∷ bs) h = absurd (cc)
text_eq_sound (a ∷ as') [] h = absurd (cc)
text_eq_sound (a ∷ as') (b ∷ bs) h = ground (arith, h, text_eq_sound as' bs)

first_copies : (external : Bool) → copies (if external then copy_using_smb else copy) ≡ true
first_copies true = refl
first_copies false = refl

module _ (w : Os) (settings : ServerSettings) (connection : Connection) where
  short_info :
      (path : WString) (s : w.State)
      → get_file_info w (convert_to_short_path path) s ≡ get_file_info w path s
  unfolding get_file_info
  short_info path s = rw (convert_to_short_path-idempotent path) refl

  same_place :
      (path name : WString) (s : w.State)
      → text_eq path name ≡ true
      → get_file_info w path s ≡ get_file_info w name s
  same_place path name s h = ap (λ p. get_file_info w p s) (text_eq_sound path name h)

  linked_skip :
      (rounds : ℕ) (path source : WString) (info : FileInfo) (s : w.State)
      → RefusedByFiles w
      → (create_file_link w path info source true rounds s).0 ≡ skipped
      → IsThere w path info (create_file_link w path info source true rounds s).1
  linked_skip rounds path source info s law h =
      subst (λ (i : Info). (i.attributes ≢ 0) × (equals info i.info ≡ true))
        (short_info path (create_file_link w path info source true rounds s).1)
        (create_file_link-skipped w rounds path source info true s law h)

  reuse_local-skip :
      (rounds : ℕ) (cmd : WriteCommand) (local : FileRec) (start d : Decision)
      (world : World w.State)
      → RefusedByFiles w
      → copies start.response ≡ true
      → (reuse_local w settings connection rounds cmd local start world).0 ≡ value d
      → d.response ≡ skip
      → IsThere w
          (full_path_of w settings connection cmd.path)
          cmd.info
          (reuse_local w settings connection rounds cmd local start world).1.os
  unfolding reuse_local
  reuse_local-skip rounds cmd local start d world law copying h skips =
      let path = full_path_of w settings connection cmd.path in
      ground (
        arith,
        h,
        skips,
        copying,
        linked_skip rounds path local.name cmd.info world.os law,
        same_place path local.name world.os,
      )

  skip_existing-skip :
      (cmd : WriteCommand) (local : FileRec) (start d : Decision) (world : World w.State)
      → copies start.response ≡ true
      → (skip_existing w settings connection cmd local start world).0 ≡ value d
      → d.response ≡ skip
      → IsThere w
          (full_path_of w settings connection cmd.path)
          cmd.info
          (skip_existing w settings connection cmd local start world).1.os
  unfolding skip_existing
  skip_existing-skip cmd local start d world copying h skips = ground (arith, h, skips, copying)

  -- On a system that refuses a link because of an existing file only when one is there: when the first
  -- part of the handler decides to skip a file, there is a file at its place on the server, with the
  -- announced time and size, in the state in which the decision is made.
  pub decide-skip :
      (rounds : ℕ) (cmd : WriteCommand) (d : Decision) (world : World w.State)
      → RefusedByFiles w
      → (decide w settings connection rounds cmd world).0 ≡ value d
      → d.response ≡ skip
      → IsThere w
          (full_path_of w settings connection cmd.path)
          cmd.info
          (decide w settings connection rounds cmd world).1.os
  unfolding decide
  decide-skip rounds cmd d world law h skips =
      let local = get_record (key_of w settings connection cmd.path cmd.info) world.database in
      let external = connection.is_server_path_external && not (is_compressed cmd.write_type) in
      let start : Decision = record {
        response = if external then copy_using_smb else copy;
        hash = no_hash;
      } in
      let copying : copies start.response ≡ true = first_copies external in
      let result = decide w settings connection rounds cmd world in
      let goal = λ (r : Ended Decision × World w.State).
        r.0 ≡ value d → IsThere w (full_path_of w settings connection cmd.path) cmd.info r.1.os in
      elim (Bool-cases
        (not (is_empty local.name) && leb settings.use_links_threshold cmd.info.file_size)) [
          | inl known ↦
              let step : result ≡ reuse_local w settings connection rounds cmd local start world =
                rw (decide, known) refl in
              subst goal (sym step)
                (λ h'. reuse_local-skip rounds cmd local start d world law copying h' skips) h
          | inr unknown ↦
              let step : result ≡ skip_existing w settings connection cmd local start world =
                rw (decide, unknown) refl in
              subst goal (sym step)
                (λ h'. skip_existing-skip cmd local start d world copying h' skips) h
        ]
