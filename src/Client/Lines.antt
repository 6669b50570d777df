-- ===== src/Client/Lines.antt =====
-- handleFilesOrWildcardsFromFile of source/EACopyClient.cpp, which hands the lines of an input file to a
-- function, and excludeFilesFromFile. Waiting and the log are left out.
use eacopy.Base.{
  ℕ, zero, suc, ◌-◌, Bool, true, false, ◌||◌, List, [], ◌∷◌, ◌++◌, Option, none, some, length, map,
  ltb, leb, ◌+◌, ◌==◌, if◌then◌else◌, WString,
}
use eacopy.Base.Bytes.{Bytes}
use eacopy.Paths.{is_absolute_path, convert_slash_to_backslash}
use eacopy.Os.{Os}
use eacopy.Settings.{Settings}
use eacopy.Files.{get_file_info}
use eacopy.Client.{
  Work, Ended, value, failed, fault, stuck, Step, pure, fail, attempt, ◌>>=◌, ◌>>◌, call,
  change_stats, Libraries, Link, to_source, add_path, buffer_size,
}
use eacopy.Client.Requests.{send_get_file_attributes}
use eacopy.Client.Download.{send_read_file_command}
use eacopy.Client.Handle.{reaches, ensure_client_directory}
use eacopy.Client.ProcessFile.{count_retry}

-- A line without the carriage return at its end.
unfoldable pub strip_return : Bytes → Bytes
strip_return [] = []
strip_return (c ∷ []) = if c == 13 then [] else c ∷ []
strip_return (c ∷ d ∷ cs) = c ∷ strip_return (d ∷ cs)

-- Empty lines are passed over.
unfoldable pub add_line : Bytes → List Bytes → List Bytes
add_line [] lines = lines
add_line (c ∷ line) lines = (c ∷ line) ∷ lines

-- The characters at which `strchr` stops.
pub data Stop : Type 0 where
  terminator newline no_stop : Stop

unfoldable pub stop_of : ℕ → Stop
stop_of c = if c == 0 then terminator else if c == 10 then newline else no_stop

abbrev pub end_line : Bytes → List Bytes × Bytes → List Bytes × Bytes
end_line current (lines, left) = (add_line (strip_return current) lines, left)

-- The loop over a buffer with `strchr`, which stops at a 0: the lines that end in it, and what is left.
-- `current` is the start of the line.
unfoldable pub cut_lines : (current : Bytes) → Bytes → List Bytes × Bytes
unfolding strip_return add_line stop_of
cut_lines current [] = ([], current)
cut_lines current (c ∷ cs) = elim (stop_of c) [
  | terminator ↦ ([], current ++ c ∷ cs)
  | newline ↦ end_line current (cut_lines [] cs)
  | no_stop ↦ cut_lines (current ++ c ∷ []) cs
]

-- What a C string in a buffer shows of it.
abbrev pub until_nul : Bytes → Bytes
until_nul [] = []
until_nul (c ∷ cs) = let rest = until_nul cs in if c == 0 then [] else c ∷ rest

-- A `char` is signed, and so is what it becomes as a `wchar_t`.
unfoldable pub widen : Bytes → WString
widen = map (λ c. if ltb c 128 then c else 65280 + c)

abbrev pub has_wildcard : WString → Bool
has_wildcard [] = false
has_wildcard (c ∷ cs) = c == b'*' || has_wildcard cs

module _ {S : Type 0} (func : Bytes → Step S (Unit {0})) where
  -- A line, if it was not handled before an error: the number of handled lines.
  unfoldable pub offer : Bytes → (line_index handled : ℕ) → Step S ℕ
  offer line line_index handled =
      if leb handled line_index then func line >> pure (suc handled) else pure handled

  unfoldable pub offer_all : List Bytes → (line_index handled : ℕ) → Step S (ℕ × ℕ)
  unfolding offer
  offer_all [] line_index handled = pure (line_index, handled)
  offer_all (line ∷ lines) line_index handled =
      offer line line_index handled >>= offer_all lines (suc line_index)

module _ (w : Os) (func : Bytes → Step w.State (Unit {0})) where
  -- What follows the lines of a buffer: at the end of the file what is left is a line too. `rest` is
  -- what follows otherwise.
  abbrev pub after_lines :
      (Bytes → ℕ → ℕ → Step w.State (Unit {0}))
      → (left bytes : Bytes) → ℕ × ℕ
      → Step w.State (Unit {0})
  after_lines rest left [] (index, count) = offer func (until_nul left) index count >>= λ n. pure tt
  after_lines rest left (b ∷ bytes) (index, count) = rest left index count

  -- What a round does with what was read.
  abbrev pub handle_buffer :
      (Bytes → ℕ → ℕ → Step w.State (Unit {0}))
      → (left bytes : Bytes) → ℕ
      → ℕ
      → Step w.State (Unit {0})
  handle_buffer rest left bytes line_index handled = elim (left ++ bytes) [
    | [] ↦ pure tt
    | b ∷ buffer ↦
        offer_all func (cut_lines [] (b ∷ buffer)).0 line_index handled
        >>= after_lines rest (cut_lines [] (b ∷ buffer)).1 bytes
  ]

  -- The loop over the file. After a failed read the same is read again.
  unfoldable pub read_lines :
      ℕ → (left : Bytes) → (line_index handled : ℕ) → Step w.State (Unit {0})
  unfolding offer_all cut_lines
  read_lines zero left line_index handled work = (stuck, work)
  read_lines (suc rounds) left line_index handled work =
      let (came, os) = w.read (buffer_size - length left - 1) work.os in
      elim came [
        | none ↦ read_lines rounds left line_index handled (record work { os = os })
        | some bytes ↦
            handle_buffer (read_lines rounds) left bytes line_index handled
              (record work { os = os })
      ]

module _ (w : Os) (libraries : Libraries w) (settings : Settings) (link : Link) where
  abbrev pub close_after : {A : Type 0} → Ended A × Work w.State → Ended A × Work w.State
  close_after (e, work) = (e, record work { os = (w.close work.os).1 })

  -- What is read: a file that only the server of the source has is fetched first. `none` when that fails.
  unfoldable pub fetch_input : ℕ → WString → WString → WString → Step w.State (Option WString)
  fetch_input rounds source_path file_name dest_path work =
      if is_absolute_path file_name
      then (value (some file_name), work)
      else if reaches w libraries settings link to_source work
      then fetched (
          (attempt (
                ensure_client_directory w libraries settings link dest_path
                  (get_file_info w source_path work.os).attributes)
              >>= λ made.
                  send_get_file_attributes w libraries file_name >>= λ (info, attributes, error).
                  send_read_file_command w libraries settings rounds (source_path ++ file_name)
                    file_name info attributes)
            work)
      else (value (some (source_path ++ file_name)), work)
    where
      fetched : {A : Type 0} → Ended A × Work w.State → Ended (Option WString) × Work w.State
      fetched (value a, work') = (value (some (dest_path ++ file_name)), work')
      fetched (failed, work') = (value none, work')
      fetched (fault, work') = (fault, work')
      fetched (stuck, work') = (stuck, work')

  unfoldable pub opened : Option WString → Step w.State Bool
  opened none = pure false
  opened (some path) = call (λ s.
      let (failure, s1) = w.open_read path true s in
      (elim failure [ none ↦ true | some error ↦ false ], s1))

  -- A round of the loop over the retries: whether the file could be opened. It is closed in every case.
  unfoldable pub read_input :
      (Bytes → Step w.State (Unit {0})) → ℕ → WString → WString → WString → Step w.State Bool
  unfolding fetch_input opened
  read_input func rounds source_path file_name dest_path =
      fetch_input rounds source_path file_name dest_path >>= opened >>= λ there.
      if there
      then (λ work. close_after ((read_lines w func rounds [] 0 0 >>= λ u. pure true) work))
      else pure false

  -- handleFilesOrWildcardsFromFile, over the retries that are left.
  unfoldable pub handle_files_or_wildcards_from_file :
      ℕ
      → (Bytes → Step w.State (Unit {0}))
      → ℕ
      → WString
      → WString
      → WString
      → Step w.State (Unit {0})
  unfolding read_input
  handle_files_or_wildcards_from_file zero func rounds source_path file_name dest_path =
      read_input func rounds source_path file_name dest_path >>= λ there.
      if there then pure tt else fail
  handle_files_or_wildcards_from_file (suc retries) func rounds source_path file_name dest_path =
      let retry =
        change_stats count_retry
        >> handle_files_or_wildcards_from_file retries func rounds source_path file_name
            dest_path in
      read_input func rounds source_path file_name dest_path >>= λ there.
      if there then pure tt else retry

  -- What excludeFilesFromFile does with a line: it counts as handled already.
  unfoldable pub exclude_line : Bytes → Step w.State (Unit {0})
  unfolding widen
  exclude_line line work =
      let path = convert_slash_to_backslash (widen line) in
      if has_wildcard path
      then (failed, work)
      else (value tt, record work { handled_files = add_path path work.handled_files })

  -- excludeFilesFromFile
  unfoldable pub exclude_files_from_file : ℕ → WString → WString → WString → Step w.State (Unit {0})
  unfolding handle_files_or_wildcards_from_file exclude_line
  exclude_files_from_file = handle_files_or_wildcards_from_file settings.retry_count exclude_line
