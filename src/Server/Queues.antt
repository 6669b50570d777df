-- ===== src/Server/Queues.antt =====
-- The queues of connections in source/EACopyServer.cpp, by which a download is let in or told that the
-- server is busy.
use eacopy.Base.{
  ℕ, zero, suc, ◌+◌, ◌-◌, ◌<◌, ◌≡◌, min, Bool, true, false, List, [], ◌∷◌, ◌++◌, length, ltb, ◌==◌,
  if◌then◌else◌, arith, Bool-cases, inl, inr, ◌↔◌,
}

-- MaxPriorityQueueCount
abbrev pub max_priority_queue_count : ℕ
max_priority_queue_count = 32

-- A queue of connections; a connection is a number, as the code compares addresses.
abbrev pub Queue : Type 0
Queue = List ℕ

-- `min(cmd.connectionIndex, MaxPriorityQueueCount - 1)`
unfoldable pub queue_index : ℕ → ℕ
queue_index connection_index = min connection_index (max_priority_queue_count - 1)

abbrev pub queue_at : ℕ → List Queue → Queue
queue_at i [] = []
queue_at zero (q ∷ qs) = q
queue_at (suc i) (q ∷ qs) = queue_at i qs

-- `m_queues[i].push_back(&info)`
unfoldable pub enter : ℕ → ℕ → List Queue → List Queue
enter i info [] = []
enter zero info (q ∷ qs) = (q ++ info ∷ []) ∷ qs
enter (suc i) info (q ∷ qs) = q ∷ enter i info qs

abbrev erase_first : ℕ → Queue → Queue
erase_first info [] = []
erase_first info (c ∷ q) = let rest = erase_first info q in if c == info then q else c ∷ rest

-- `q.erase(std::find(q.begin(), q.end(), &info))`
unfoldable pub leave : ℕ → ℕ → List Queue → List Queue
leave i info [] = []
leave zero info (q ∷ qs) = erase_first info q ∷ qs
leave (suc i) info (q ∷ qs) = q ∷ leave i info qs

-- All connections of the first queues.
unfoldable pub total_before : ℕ → List Queue → ℕ
total_before i [] = 0
total_before zero (q ∷ qs) = 0
total_before (suc i) (q ∷ qs) = length q + total_before i qs

-- The loop over the queue, with the spots that are left.
unfoldable pub no_spot : ℕ → ℕ → Queue → Bool
no_spot spots info [] = false
no_spot zero info (c ∷ q) = true
no_spot (suc spots) info (c ∷ q) =
    let rest = no_spot spots info q in if c == info then false else rest

-- `tooBusy`
unfoldable pub too_busy : ℕ → ℕ → ℕ → List Queue → Bool
unfolding total_before no_spot
too_busy max_count i info queues =
    let before = total_before i queues in
    if ltb before max_count
    then (let spots = max_count - before in
        let q = queue_at i queues in if ltb spots (length q) then no_spot spots info q else false)
    else true

-- How many connections stand before a connection in a queue.
abbrev pub position : ℕ → Queue → ℕ
position info [] = 0
position info (c ∷ q) = let rest = position info q in if c == info then 0 else suc rest

abbrev pub Waiting : ℕ → Queue → Type 0
Waiting info q = position info q < length q

no_spot_iff :
    (spots info : ℕ) (q : Queue)
    → Waiting info q
    → (no_spot spots info q ≡ false) ↔ (position info q < spots)
unfolding no_spot
no_spot_iff spots info [] h = absurd (omega (arith, h))
no_spot_iff zero info (c ∷ q) h = ground arith
no_spot_iff (suc spots) info (c ∷ q) h = elim (Bool-cases (c == info)) [
  | inl same ↦ ground (arith, same)
  | inr other ↦ ground (arith, other, h, no_spot_iff spots info q)
]

-- A connection that waits in its queue is let in exactly if fewer connections than the limit stand
-- before it: those in the queues of lower index, and those in front of it in its own.
pub too_busy_iff :
    (max_count i info : ℕ) (queues : List Queue)
    → Waiting info (queue_at i queues)
    → (too_busy max_count i info queues ≡ false)
      ↔ (total_before i queues + position info (queue_at i queues) < max_count)
unfolding too_busy
too_busy_iff max_count i info queues h =
    ground (arith, h, no_spot_iff (max_count - total_before i queues) info (queue_at i queues) h)
