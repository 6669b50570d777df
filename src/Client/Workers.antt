-- ===== src/Client/Workers.antt =====
-- What the threads of source/EACopyClient.cpp do to the two queues, in any order of their locked sections.
use eacopy.Base.{
  ℕ, ◌+◌, ◌<◌, ◌≡◌, refl, ap, true, false, List, [], ◌∷◌, ◌++◌, if◌then◌else◌, ◌==◌, arith, inl,
  inr, Option, none, some, length,
}
use eacopy.Client.Threads.{
  Main, preparing, working, left, has_seen, Pool, MayQueue, Move, take_dir, queue_dir, queue_file,
  leave_dir, take_file, finish_file, put_back, main_take_file, main_finish_file, main_put_back,
  enter_loop, see_no_dirs, see_files, leave_loop, Run, here, later, occurrences,
}

occurrences-append :
    (front back : List ℕ) (file : ℕ)
    → occurrences (front ++ back) file ≡ occurrences front file + occurrences back file
occurrences-append [] back file = omega arith
occurrences-append (first ∷ front) back file = omega (occurrences-append front back file, arith)

has_seen-left : (m : Main) → m ≡ left → has_seen m ≡ true
has_seen-left m e = ap has_seen e

abbrev main_occurrences : Option ℕ → ℕ → ℕ
main_occurrences none file = 0
main_occurrences (some held) file = if held == file then 1 else 0

-- What the main thread has seen stays so, and no file is lost on the way from queued to processed.
pub record IsSound (s : Pool) : Type 0 where
  pub no_dirs : has_seen s.main ≡ true → s.dir_entries ≡ []
  pub none_active : has_seen s.main ≡ true → s.process_dir_active ≡ 0
  pub no_files : s.main ≡ left → s.copy_entries ≡ []
  pub main_free : has_seen s.main ≡ true → s.main_in_hand ≡ none
  pub balance :
      (a : ℕ)
      → occurrences s.queued a
        ≡ occurrences s.copy_entries a
          + occurrences s.in_hand a
          + main_occurrences s.main_in_hand a
          + occurrences s.processed a

count_out :
    (a f : ℕ) (whole before behind : List ℕ)
    → whole ≡ before ++ f ∷ behind
    → occurrences whole a ≡ (if f == a then 1 else 0) + occurrences (before ++ behind) a
count_out a f whole before behind e = omega (
  arith,
  ap (λ q. occurrences q a) e,
  occurrences-append before (f ∷ behind) a,
  occurrences-append before behind a,
)

not_queueing : (s : Pool) → IsSound s → has_seen s.main ≡ true → ¬ MayQueue s
not_queueing s v m (inl e) = ground (arith, ap has_seen e, m)
not_queueing s v m (inr p) = omega (arith, v.none_active m, p)

Move-IsSound : {workers : ℕ} {s t : Pool} → Move workers false s t → IsSound s → IsSound t
Move-IsSound {s} (take_dir d ds e) v = record {
  no_dirs = λ m. absurd (ground (arith, v.no_dirs m, e));
  none_active = λ m. absurd (ground (arith, v.no_dirs m, e));
  no_files = v.no_files;
  main_free = v.main_free;
  balance = v.balance;
}
Move-IsSound {s} (queue_dir d p) v = record {
  no_dirs = λ m. absurd (not_queueing s v m p);
  none_active = v.none_active;
  no_files = v.no_files;
  main_free = v.main_free;
  balance = v.balance;
}
Move-IsSound {s} (queue_file f p) v = record {
  no_dirs = v.no_dirs;
  none_active = v.none_active;
  no_files = λ m. absurd (not_queueing s v (has_seen-left s.main m) p);
  main_free = v.main_free;
  balance = λ a. omega (arith, v.balance a, occurrences-append s.copy_entries (f ∷ []) a);
}
Move-IsSound {s} (leave_dir p) v = record {
  no_dirs = v.no_dirs;
  none_active = λ m. omega (arith, v.none_active m);
  no_files = v.no_files;
  main_free = v.main_free;
  balance = v.balance;
}
Move-IsSound {s} (take_file f fs room e) v = record {
  no_dirs = v.no_dirs;
  none_active = v.none_active;
  no_files = λ m. absurd (ground (arith, v.no_files m, e));
  main_free = v.main_free;
  balance = λ a. omega (arith, v.balance a, ap (λ q. occurrences q a) e);
}
Move-IsSound {s} (finish_file f before behind e) v = record {
  no_dirs = v.no_dirs;
  none_active = v.none_active;
  no_files = v.no_files;
  main_free = v.main_free;
  balance = λ a. omega (arith, v.balance a, count_out a f s.in_hand before behind e);
}
Move-IsSound (put_back f before behind busy e) v = absurd (cc)
Move-IsSound {s} (main_take_file f fs at_work free e) v = record {
  no_dirs = v.no_dirs;
  none_active = v.none_active;
  no_files = λ m. absurd (ground (arith, v.no_files m, e));
  main_free = λ m. absurd (ground (arith, ap has_seen at_work, m));
  balance = λ a.
      omega (arith, v.balance a, ap (λ q. occurrences q a) e, ap (λ o. main_occurrences o a) free);
}
Move-IsSound {s} (main_finish_file f held) v = record {
  no_dirs = v.no_dirs;
  none_active = v.none_active;
  no_files = v.no_files;
  main_free = λ m. refl;
  balance = λ a. omega (arith, v.balance a, ap (λ o. main_occurrences o a) held);
}
Move-IsSound (main_put_back f busy held) v = absurd (cc)
Move-IsSound {s} (enter_loop m0) v = record {
  no_dirs = λ m. absurd (cc);
  none_active = λ m. absurd (cc);
  no_files = λ m. absurd (cc);
  main_free = λ m. absurd (cc);
  balance = v.balance;
}
Move-IsSound {s} (see_no_dirs m0 free p e) v = record {
  no_dirs = λ m. e;
  none_active = λ m. p;
  no_files = λ m. absurd (cc);
  main_free = λ m. free;
  balance = v.balance;
}
Move-IsSound {s} (see_files m0 e) v = record {
  no_dirs = λ m. absurd (cc);
  none_active = λ m. absurd (cc);
  no_files = λ m. absurd (cc);
  main_free = λ m. absurd (cc);
  balance = v.balance;
}
Move-IsSound {s} (leave_loop m0 e) v = record {
  no_dirs = λ m. v.no_dirs (ap has_seen m0);
  none_active = λ m. v.none_active (ap has_seen m0);
  no_files = λ m. e;
  main_free = λ m. v.main_free (ap has_seen m0);
  balance = v.balance;
}

Run-IsSound : {workers : ℕ} {s t : Pool} → Run workers false s t → IsSound s → IsSound t
Run-IsSound here v = v
Run-IsSound (later r m) v = Move-IsSound m (Run-IsSound r v)

-- The threads start with empty queues.
abbrev pub start : Pool
start = record {
  dir_entries = [];
  process_dir_active = 0;
  copy_entries = [];
  in_hand = [];
  main_in_hand = none;
  processed = [];
  queued = [];
  main = preparing;
}

start-IsSound : IsSound start
start-IsSound = record {
  no_dirs = λ m. refl;
  none_active = λ m. refl;
  no_files = λ m. refl;
  main_free = λ m. refl;
  balance = λ a. omega arith;
}

-- In every run of the threads, of whatever number, without a busy server: when the main thread has left
-- its loop and no worker thread holds a file any more, no directory and no file is left in the queues, no
-- thread is inside a directory, and every file was processed exactly as often as it was queued.
pub Run-processed :
    (workers : ℕ) (t : Pool)
    → Run workers false start t
    → t.main ≡ left
    → t.in_hand ≡ []
    → (t.dir_entries ≡ [])
      × (t.copy_entries ≡ [])
      × (t.process_dir_active ≡ 0)
      × ((a : ℕ) → occurrences t.processed a ≡ occurrences t.queued a)
Run-processed workers t run gone idle =
    let v = Run-IsSound run start-IsSound in
    let seen = has_seen-left t.main gone in
    (
      v.no_dirs seen,
      v.no_files gone,
      v.none_active seen,
      λ a. omega (
        arith,
        v.balance a,
        ap (λ q. occurrences q a) (v.no_files gone),
        ap (λ q. occurrences q a) idle,
        ap (λ o. main_occurrences o a) (v.main_free seen),
      ),
    )

-- With busy servers and at least one worker thread, from every state in which the main thread is at work
-- in its loop without a file in hand, no thread is inside a directory, the worker threads hold no file and
-- a single file is all that there is left: a run leads to a state in which the main thread has left its
-- loop and no thread holds a file or is inside a directory, while the file is still in the queue and
-- nothing more was processed.
pub Run-lost :
    (workers : ℕ) (s : Pool) (f : ℕ)
    → 0 < workers
    → s.main ≡ working
    → s.main_in_hand ≡ none
    → s.process_dir_active ≡ 0
    → s.dir_entries ≡ []
    → s.in_hand ≡ []
    → s.copy_entries ≡ f ∷ []
    → (t : Pool) × Run workers true s t
      × (t.main ≡ left)
      × (t.in_hand ≡ [])
      × (t.main_in_hand ≡ none)
      × (t.process_dir_active ≡ 0)
      × (t.copy_entries ≡ f ∷ [])
      × (t.processed ≡ s.processed)
Run-lost workers s f some_worker at_work free none_active no_dirs idle single =
    let room : length s.in_hand < workers = omega (arith, ap length idle, some_worker) in
    (
      _,
      later
          (later
            (later (later here (take_file f [] room single))
              (see_no_dirs at_work free none_active no_dirs))
            (leave_loop refl refl))
          (put_back f [] s.in_hand refl refl),
      refl,
      idle,
      free,
      none_active,
      refl,
      refl,
    )
