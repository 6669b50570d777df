-- ===== src/Client/Threads.antt =====
-- The threads of source/EACopyClient.cpp around the two queues: processDir, processFile and the end of
-- processQueues, a locked section at a time. A file or directory is a number here. What a thread does
-- outside the locks is open: while it is inside a directory it may queue files and directories, and it
-- may finish a file or, after a busy server, put it back.
use eacopy.Base.{
  ℕ, ◌+◌, ◌-◌, ◌<◌, ◌≡◌, ◌≢◌, Bool, true, false, List, [], ◌∷◌, ◌++◌, if◌then◌else◌, ◌==◌, ◌⊎◌,
  Option, none, some, length,
}

-- Where the main thread stands: before the loop, where it queues what it has been told to copy, at work
-- in the loop, behind its test of the directories, or behind the loop.
pub data Main : Type 0 where
  preparing working saw_no_dirs left : Main

abbrev pub has_seen : Main → Bool
has_seen preparing = false
has_seen working = false
has_seen saw_no_dirs = true
has_seen left = true

pub record Pool : Type 0 where
  pub dir_entries : List ℕ
  pub process_dir_active : ℕ
  pub copy_entries : List ℕ
  -- The files that the worker threads and the main thread have taken off the queue, those that are done,
  -- and all that were ever queued.
  pub in_hand : List ℕ
  pub main_in_hand : Option ℕ
  pub processed : List ℕ
  pub queued : List ℕ
  pub main : Main

-- Whether some thread may queue files and directories.
abbrev pub MayQueue : Pool → Type 0
MayQueue s = (s.main ≡ preparing) ⊎ (0 < s.process_dir_active)

-- A locked section of some thread. `workers` is the number of worker threads, each of which has one file
-- in hand at most, as the main thread has, and `busy` tells whether servers may be busy.
pub data Move (workers : ℕ) (busy : Bool) (s : Pool) : Pool → Type 0 where
  take_dir :
      (d : ℕ) (ds : List ℕ)
      → s.dir_entries ≡ d ∷ ds
      → Move workers busy s
          (record s { dir_entries = ds; process_dir_active = s.process_dir_active + 1 })
  queue_dir :
      (d : ℕ)
      → MayQueue s
      → Move workers busy s (record s { dir_entries = s.dir_entries ++ d ∷ [] })
  queue_file :
      (f : ℕ)
      → MayQueue s
      → Move workers busy s
          (record s { copy_entries = s.copy_entries ++ f ∷ []; queued = f ∷ s.queued })
  leave_dir :
      0 < s.process_dir_active
      → Move workers busy s (record s { process_dir_active = s.process_dir_active - 1 })
  take_file :
      (f : ℕ) (fs : List ℕ)
      → length s.in_hand < workers
      → s.copy_entries ≡ f ∷ fs
      → Move workers busy s (record s { copy_entries = fs; in_hand = f ∷ s.in_hand })
  finish_file :
      (f : ℕ) (before behind : List ℕ)
      → s.in_hand ≡ before ++ f ∷ behind
      → Move workers busy s (record s { in_hand = before ++ behind; processed = f ∷ s.processed })
  put_back :
      (f : ℕ) (before behind : List ℕ)
      → busy ≡ true
      → s.in_hand ≡ before ++ f ∷ behind
      → Move workers busy s
          (record s { in_hand = before ++ behind; copy_entries = f ∷ s.copy_entries })
  main_take_file :
      (f : ℕ) (fs : List ℕ)
      → s.main ≡ working
      → s.main_in_hand ≡ none
      → s.copy_entries ≡ f ∷ fs
      → Move workers busy s (record s { copy_entries = fs; main_in_hand = some f })
  main_finish_file :
      (f : ℕ)
      → s.main_in_hand ≡ some f
      → Move workers busy s (record s { main_in_hand = none; processed = f ∷ s.processed })
  main_put_back :
      (f : ℕ)
      → busy ≡ true
      → s.main_in_hand ≡ some f
      → Move workers busy s (record s { main_in_hand = none; copy_entries = f ∷ s.copy_entries })
  enter_loop : s.main ≡ preparing → Move workers busy s (record s { main = working })
  see_no_dirs :
      s.main ≡ working
      → s.main_in_hand ≡ none
      → s.process_dir_active ≡ 0
      → s.dir_entries ≡ []
      → Move workers busy s (record s { main = saw_no_dirs })
  see_files :
      s.main ≡ saw_no_dirs → s.copy_entries ≢ [] → Move workers busy s (record s { main = working })
  leave_loop :
      s.main ≡ saw_no_dirs → s.copy_entries ≡ [] → Move workers busy s (record s { main = left })

pub data Run (workers : ℕ) (busy : Bool) (s : Pool) : Pool → Type 0 where
  here : Run workers busy s s
  later : {t u : Pool} → Run workers busy s t → Move workers busy t u → Run workers busy s u

-- How often a file stands in a queue.
abbrev pub occurrences : List ℕ → ℕ → ℕ
occurrences [] file = 0
occurrences (first ∷ queue) file = occurrences queue file + (if first == file then 1 else 0)
