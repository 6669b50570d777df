-- ===== src/Database/History.antt =====
-- The nodes of the history: how lookups, removals and appends act on them.
use mathlib.Core.Option
use eacopy.Base.{
  ℕ, suc, ◌≤◌, ◌<◌, ◌≡◌, refl, [], ◌∷◌, ◌++◌, Option, none, some, length, ◌==◌, if◌then◌else◌,
  arith,
}
use eacopy.Base.OrdMap.{Map, find, insert, erase, find-insert, find-erase}
use eacopy.Base.Order.{same_eq}
use eacopy.Keys.{FileKey}
use eacopy.Keys.Orders.{key_order}
use eacopy.Database.{FileRec, Nodes, node_at, remove_node}

pub node_at-remove_node :
    (i j : ℕ) (h : Nodes) → node_at j (remove_node i h) ≡ (if j == i then none else node_at j h)
unfolding node_at remove_node
node_at-remove_node i j [] = ground arith
node_at-remove_node i j ((n, k) ∷ h) = ground (arith, node_at-remove_node i j h)

-- The identities rise along the history and stay below a bound.
abbrev pub Rising : ℕ → ℕ → Nodes → Type 0
Rising lo hi [] = Unit
Rising lo hi ((i, k) ∷ h) = (lo ≤ i) × (i < hi) × Rising (suc i) hi h

pub Rising-mono :
    (lo lo' hi hi' : ℕ) (h : Nodes) → lo' ≤ lo → hi ≤ hi' → Rising lo hi h → Rising lo' hi' h
Rising-mono lo lo' hi hi' [] p q r = tt
Rising-mono lo lo' hi hi' ((i, k) ∷ h) p q r =
    (omega arith, omega arith, Rising-mono (suc i) (suc i) hi hi' h (omega arith) q r.2)

pub remove_node-Rising : (i lo hi : ℕ) (h : Nodes) → Rising lo hi h → Rising lo hi (remove_node i h)
unfolding remove_node
remove_node-Rising i lo hi [] r = tt
remove_node-Rising i lo hi ((j, k) ∷ h) r =
    ground
      (arith, remove_node-Rising i (suc j) hi h r.2, Rising-mono (suc j) lo hi hi (remove_node i h))

pub append-Rising :
    (i lo hi : ℕ) (k : FileKey) (h : Nodes)
    → Rising lo i h
    → lo ≤ i
    → i < hi
    → Rising lo hi (h ++ (i, k) ∷ [])
append-Rising i lo hi k [] r p q = (p, q, tt)
append-Rising i lo hi k ((j, _) ∷ h) r p q =
    (r.0, omega arith, append-Rising i (suc j) hi k h r.2 (omega arith) q)

pub node_at-append :
    (i j lo : ℕ) (k : FileKey) (h : Nodes)
    → Rising lo i h
    → node_at j (h ++ (i, k) ∷ []) ≡ (if j == i then some k else node_at j h)
unfolding node_at
node_at-append i j lo k [] r = refl
node_at-append i j lo k ((n, _) ∷ h) r = ground (arith, node_at-append i j (suc n) k h r.2)

pub node_at_below : (j lo hi : ℕ) (h : Nodes) → Rising lo hi h → j < lo → node_at j h ≡ none
unfolding node_at
node_at_below j lo hi [] r p = refl
node_at_below j lo hi ((n, _) ∷ h) r p = ground (arith, node_at_below j (suc n) hi h r.2)

remove_node_absent : (i : ℕ) (h : Nodes) → node_at i h ≡ none → remove_node i h ≡ h
unfolding node_at remove_node
remove_node_absent i [] e = refl
remove_node_absent i ((n, _) ∷ h) e = ground (arith, remove_node_absent i h)

pub length-remove_node :
    (i lo hi : ℕ) (k : FileKey) (h : Nodes)
    → Rising lo hi h
    → node_at i h ≡ some k
    → suc (length (remove_node i h)) ≡ length h
unfolding node_at remove_node
length-remove_node i lo hi k [] r e = absurd (cc)
length-remove_node i lo hi k ((n, _) ∷ h) r e = ground (
  arith,
  length-remove_node i (suc n) hi k h r.2,
  node_at_below n (suc n) hi h r.2,
  remove_node_absent n h,
)

abbrev pub iterator_of : FileKey → Map FileKey FileRec → Option ℕ
iterator_of k files = Option.map (λ r. r.history_it) (find key_order k files)

-- Each node is the one that its key's record points at.
abbrev pub Linked : Map FileKey FileRec → Nodes → Type 0
Linked files [] = Unit
Linked files ((i, k) ∷ h) = (iterator_of k files ≡ some i) × Linked files h

pub insert-Linked_new :
    (key : FileKey) (rec : FileRec) (files : Map FileKey FileRec) (h : Nodes)
    → find key_order key files ≡ none
    → Linked files h
    → Linked (insert key_order key rec files) h
insert-Linked_new key rec files [] e l = tt
insert-Linked_new key rec files ((i, k) ∷ h) e l = (
  rw find-insert (ground (arith, same_eq key_order k key)),
  insert-Linked_new key rec files h e l.1,
)

pub insert-Linked_old :
    (key : FileKey) (rec old : FileRec) (files : Map FileKey FileRec) (h : Nodes)
    → find key_order key files ≡ some old
    → Linked files h
    → Linked (insert key_order key rec files) (remove_node old.history_it h)
unfolding remove_node
insert-Linked_old key rec old files [] e l = tt
insert-Linked_old key rec old files ((i, k) ∷ h) e l = ground (
  arith,
  insert-Linked_old key rec old files h e l.1,
  find-insert key_order k key rec files,
  same_eq key_order k key,
)

pub erase-Linked :
    (key : FileKey) (old : FileRec) (files : Map FileKey FileRec) (h : Nodes)
    → find key_order key files ≡ some old
    → Linked files h
    → Linked (erase key_order key files) (remove_node old.history_it h)
unfolding remove_node
erase-Linked key old files [] e l = tt
erase-Linked key old files ((i, k) ∷ h) e l = ground (
  arith,
  erase-Linked key old files h e l.1,
  find-erase key_order k key files,
  same_eq key_order k key,
)

pub append-Linked :
    (i : ℕ) (k : FileKey) (files : Map FileKey FileRec) (h : Nodes)
    → Linked files h
    → iterator_of k files ≡ some i
    → Linked files (h ++ (i, k) ∷ [])
append-Linked i k files [] l e = (e, tt)
append-Linked i k files ((j, _) ∷ h) l e = (l.0, append-Linked i k files h l.1 e)

-- The node at the front is the only one with its identity.
pub remove_node_front :
    (i lo hi : ℕ) (k : FileKey) (h : Nodes)
    → Rising lo hi ((i, k) ∷ h)
    → remove_node i ((i, k) ∷ h) ≡ h
unfolding remove_node
remove_node_front i lo hi k h r =
    ground (arith, remove_node_absent i h, node_at_below i (suc i) hi h r.2)

pub node_at-lt :
    (j lo hi : ℕ) (k : FileKey) (h : Nodes) → Rising lo hi h → node_at j h ≡ some k → j < hi
unfolding node_at
node_at-lt j lo hi k [] r e = absurd (cc)
node_at-lt j lo hi k ((n, _) ∷ h) r e = ground (arith, node_at-lt j (suc n) hi k h r.2)
