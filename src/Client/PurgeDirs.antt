-- ===== src/Client/PurgeDirs.antt =====
-- The directories to purge while source/EACopyClient.cpp handles a path.
use eacopy.Base.{
  ℕ, zero, suc, ◌≡◌, refl, ◌∙◌, Bool, true, false, [], ◌∷◌, ◌++◌, Option, none, some, length, drop,
  if◌then◌else◌, WString, is_empty, Bool-cases, inl, inr, Option-cases, ◌&&◌, not, arith, codes,
}
use eacopy.Keys.{FileInfo}
use eacopy.Os.{Os, is_directory}
use eacopy.Paths.{file_name_of, split_last, backslash}
use eacopy.Settings.{Settings}
use eacopy.Files.{get_file_info}
use eacopy.Client.{
  Work, Ended, value, failed, fault, stuck, Step, recover, resume, ◌>>=◌, ◌>>◌, Libraries, Link,
  change_stats, add_path, Request,
}
use eacopy.Client.Requests.{
  send_request, send_create_directory_command, send_get_file_attributes, of_option,
}
use eacopy.Client.ProcessFile.{count_fail, count_retry}
use eacopy.Client.Handle.{
  Sought, there, not_there, make_directory, ensure_client_directory, ensure_rounds,
  add_new_directory, add_directory_to_handled_files, handle_file, handle_directory,
  handle_known_path, find_path, or_empty, after_search, handle_path, directory_part,
}

-- A step that leaves the directories to purge as they are, in whatever way it ends.
abbrev pub Keeps : {S A : Type 0} → Step S A → Type 0
Keeps {S} f = (work : Work S) → (f work).1.purge_dirs ≡ work.purge_dirs

resume-purge_dirs :
    {S A B : Type 0} (f : A → Step S B) (r : Ended A × Work S)
    → ((a : A) → Keeps (f a))
    → (resume f r).1.purge_dirs ≡ r.1.purge_dirs
resume-purge_dirs f (value a, work) k = k a work
resume-purge_dirs f (failed, work) k = refl
resume-purge_dirs f (fault, work) k = refl
resume-purge_dirs f (stuck, work) k = refl

recover-purge_dirs :
    {S A : Type 0} (f : Step S A) (r : Ended A × Work S)
    → Keeps f
    → (recover f r).1.purge_dirs ≡ r.1.purge_dirs
recover-purge_dirs f (value a, work) k = refl
recover-purge_dirs f (failed, work) k = k work
recover-purge_dirs f (fault, work) k = refl
recover-purge_dirs f (stuck, work) k = refl

pub bind-Keeps :
    {S A B : Type 0} (m : Step S A) (f : A → Step S B)
    → Keeps m
    → ((a : A) → Keeps (f a))
    → Keeps (m >>= f)
bind-Keeps m f km kf work = resume-purge_dirs f (m work) kf ∙ km work

choose-Keeps :
    {S A : Type 0} (b : Bool) (f g : Step S A) → Keeps f → Keeps g → Keeps (if b then f else g)
choose-Keeps true f g kf kg = kf
choose-Keeps false f g kf kg = kg

-- The same for a test of the work.
choose-purge_dirs :
    {S A : Type 0} (b : Bool) (f g : Step S A) (work : Work S)
    → Keeps f
    → Keeps g
    → (if b then f work else g work).1.purge_dirs ≡ work.purge_dirs
choose-purge_dirs true f g work kf kg = kf work
choose-purge_dirs false f g work kf kg = kg work

of_option-Keeps : {S A : Type 0} (o : Option A) → Keeps {S = S} (of_option o)
of_option-Keeps none work = refl
of_option-Keeps (some a) work = refl

module _ (w : Os) (libraries : Libraries w) (settings : Settings) (link : Link) where
  send_request-Keeps :
      (request : Request) (path : WString) → Keeps (send_request w libraries request path)
  unfolding send_request
  send_request-Keeps request path = choose-Keeps _ _ _ (λ work. refl) (λ work. refl)

  send_create_directory_command-Keeps :
      (directory : WString) → Keeps (send_create_directory_command w libraries settings directory)
  unfolding send_create_directory_command
  send_create_directory_command-Keeps directory work = ground (arith)

  send_get_file_attributes-Keeps :
      (path : WString) → Keeps (send_get_file_attributes w libraries path)
  unfolding send_get_file_attributes
  send_get_file_attributes-Keeps path work = ground (arith)

  make_directory-Keeps :
      (directory : WString) (attributes : ℕ)
      → Keeps (make_directory w libraries settings link directory attributes)
  unfolding make_directory
  make_directory-Keeps directory attributes work = ground arith

  ensure_client_directory-Keeps :
      (directory : WString) (attributes : ℕ)
      → Keeps (ensure_client_directory w libraries settings link directory attributes)
  unfolding ensure_client_directory
  ensure_client_directory-Keeps directory attributes work =
      let made = make_directory-Keeps directory attributes work in
      let sent = send_create_directory_command-Keeps directory work in ground (arith, made, sent)

  ensure_rounds-Keeps :
      (rounds : ℕ) (directory : WString) (attributes : ℕ)
      → Keeps (ensure_rounds w libraries settings link rounds directory attributes)
  unfolding ensure_rounds
  ensure_rounds-Keeps zero directory attributes work =
      ensure_client_directory-Keeps directory attributes work
  ensure_rounds-Keeps (suc rounds) directory attributes work =
      recover-purge_dirs
        (change_stats count_retry
          >> ensure_rounds w libraries settings link rounds directory attributes)
        (ensure_client_directory w libraries settings link directory attributes work)
        (λ work'.
          ensure_rounds-Keeps rounds directory attributes
            (record work' { stats = count_retry work'.stats }))
      ∙ ensure_client_directory-Keeps directory attributes work

  add_new_directory-Keeps :
      (path dest_full_path : WString) (attributes : ℕ)
      → Keeps (add_new_directory w libraries settings link path dest_full_path attributes)
  unfolding add_new_directory
  add_new_directory-Keeps path dest_full_path attributes work =
      let work' = record work { handled_files = add_path path work.handled_files } in
      let ensured =
        ensure_rounds-Keeps settings.retry_count
          (or_empty w libraries settings link (directory_part dest_full_path)) attributes work' in
      ground (arith, ensured)

  add_directory_to_handled_files-Keeps :
      (path : WString) (attributes : ℕ)
      → Keeps (add_directory_to_handled_files w libraries settings link path attributes)
  unfolding add_directory_to_handled_files
  add_directory_to_handled_files-Keeps path attributes work =
      elim (Option-cases (directory_part (drop (length settings.dest_directory) path))) [
        | inl nothing ↦ rw (add_directory_to_handled_files, nothing) refl
        | inr (above, e) ↦
            let added = add_new_directory-Keeps above path attributes work in
            rw (add_directory_to_handled_files, e) (ground (arith, added))
      ]

  handle_file-Keeps :
      (source_path dest_path file_name : WString) (info : FileInfo) (attributes : ℕ)
      → Keeps
          (handle_file w libraries settings link source_path dest_path file_name info attributes)
  unfolding handle_file
  handle_file-Keeps source_path dest_path file_name info attributes work =
      let name = (if settings.flatten_destination then file_name_of file_name else file_name) in
      let path = dest_path ++ name in
      let held = add_path (drop (length settings.dest_directory) path) work.handled_files in
      let added =
        add_directory_to_handled_files-Keeps path (get_file_info w source_path work.os).attributes
          (record work { handled_files = held }) in
      ground (arith, added)

  handle_directory-Keeps :
      (source_path dest_path directory wildcard : WString) (depth_left : ℕ)
      → Keeps (
          handle_directory w libraries settings link source_path dest_path directory wildcard
            depth_left)
  unfolding handle_directory
  handle_directory-Keeps source_path dest_path directory wildcard depth_left work =
      let new_source = source_path ++ directory ++ backslash ∷ [] in
      let new_dest =
        (if not settings.flatten_destination && not (is_empty directory)
          then dest_path ++ directory ++ backslash ∷ []
          else dest_path) in
      let added =
        add_directory_to_handled_files-Keeps new_dest
          (get_file_info w new_source work.os).attributes work in
      ground (arith, added)

  handle_known_path-Keeps :
      (source_path dest_path file_name : WString) (attributes : ℕ) (info : FileInfo)
      → Keeps (
          handle_known_path w libraries settings link source_path dest_path file_name attributes
            info)
  unfolding handle_known_path
  handle_known_path-Keeps source_path dest_path (c ∷ name) attributes info work =
      elim (Bool-cases (is_directory attributes)) [
        | inl t ↦ rw t (
            handle_directory-Keeps source_path dest_path (c ∷ name) (codes "*.*")
              settings.copy_subdir_depth work)
        | inr t ↦ rw t (handle_file-Keeps source_path dest_path (c ∷ name) info attributes work)
      ]
  handle_known_path-Keeps source_path dest_path [] attributes info work =
      elim (Bool-cases (is_directory attributes)) [
        | inl t ↦ rw t (
            handle_directory-Keeps source_path dest_path [] (codes "*.*") settings.copy_subdir_depth
              work)
        | inr t ↦ elim (Option-cases (split_last backslash source_path)) [
          | inl nothing ↦ rw (t, nothing) refl
          | inr ((before, behind), e) ↦
              rw (t, e)
                (handle_file-Keeps (before ++ backslash ∷ []) dest_path behind info attributes work)
        ]
      ]

  find_path-Keeps :
      (source_path file_name : WString)
      → Keeps (find_path w libraries settings link source_path file_name)
  unfolding find_path
  find_path-Keeps source_path file_name work =
      let sent = send_get_file_attributes-Keeps file_name work in ground (arith, sent)

  after_search-Keeps :
      (retry : Step w.State (Unit {0})) (source_path dest_path file_name : WString)
      (sought : Sought)
      → Keeps retry
      → Keeps (after_search w libraries settings link retry source_path dest_path file_name sought)
  unfolding after_search
  after_search-Keeps retry source_path dest_path file_name (there info attributes) k work =
      handle_known_path-Keeps source_path dest_path file_name attributes info work
  after_search-Keeps retry source_path dest_path file_name (not_there error) k work =
      let again = k work in ground (arith, again)

  -- Whatever handlePath does with a path, and in whatever way it ends, the directories to purge stay as
  -- they are.
  pub handle_path-Keeps :
      (retries : ℕ) (source_path dest_path file_name : WString)
      → Keeps (handle_path w libraries settings link retries source_path dest_path file_name)
  unfolding handle_path
  handle_path-Keeps zero source_path dest_path file_name work =
      resume-purge_dirs _ (find_path w libraries settings link source_path file_name work)
        (λ sought.
          after_search-Keeps (change_stats count_fail) source_path dest_path file_name sought
            (λ work'. refl))
      ∙ find_path-Keeps source_path file_name work
  handle_path-Keeps (suc retries) source_path dest_path file_name work =
      resume-purge_dirs _ (find_path w libraries settings link source_path file_name work)
        (λ sought.
          after_search-Keeps
            (change_stats count_retry
              >> handle_path w libraries settings link retries source_path dest_path file_name)
            source_path dest_path file_name sought
            (λ work'.
              handle_path-Keeps retries source_path dest_path file_name
                (record work' { stats = count_retry work'.stats })))
      ∙ find_path-Keeps source_path file_name work
