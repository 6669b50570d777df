-- ===== src/Server/Directories.antt =====
-- CommandType_CreateDir and CommandType_DeleteFiles of source/EACopyServer.cpp. Of createdDirs, a set, the
-- model keeps a list: no directory is created twice in one call.
use eacopy.Base.{
  ℕ, ◌+◌, min, true, false, not, [], ◌∷◌, ◌++◌, none, some, length, if◌then◌else◌, WString,
}
use eacopy.Os.{Os}
use eacopy.Files.Directories.{Ensured, ensure_directory}
use eacopy.Files.Delete.{delete_all_files}
use eacopy.Server.{Connection, World, stuck, Step, send_or_close}

module _ (w : Os) (connection : Connection) where
  -- The byte that answers a directory, where there is a valid environment.
  unfoldable pub create_dir_response : Ensured w.State → ℕ
  create_dir_response ensured = if ensured.usable then 2 + min (length ensured.created) 200 else 0

  -- What the session knows of the directories afterwards.
  abbrev with_created : Ensured w.State → World w.State → World w.State
  with_created ensured world = record world {
    created_dirs =
        if ensured.usable then world.created_dirs ++ ensured.created else world.created_dirs;
    os = ensured.state;
  }

  unfoldable pub create_dir_command : WString → Step w.State (Unit {0})
  unfolding create_dir_response
  create_dir_command path world =
      if not connection.is_valid_environment
      then send_or_close w (1 ∷ []) world
      else (let ensured =
            ensure_directory w (connection.server_path ++ path) 0 false true world.os in
          elim ensured.stuck [
            | true ↦ (stuck, with_created ensured world)
            | false ↦
                send_or_close w (create_dir_response ensured ∷ []) (with_created ensured world)
          ])

  unfoldable pub delete_files_command : ℕ → WString → Step w.State (Unit {0})
  delete_files_command depth path world =
      if not connection.is_valid_environment
      then send_or_close w (2 ∷ []) world
      else (let (deleted, os) =
            delete_all_files w false depth (connection.server_path ++ path) world.os in
          elim deleted [
            | none ↦ (stuck, record world { os = os })
            | some true ↦ send_or_close w (0 ∷ []) (record world { os = os })
            | some false ↦ send_or_close w (1 ∷ []) (record world { os = os })
          ])
