-- ===== src/Network/InMemory.antt =====
-- The connection of a machine in memory.
use eacopy.Base.{
  ℕ, suc, ◌-◌, ◌≡◌, ◌≤◌, subst, refl, ap, sym, ◌∙◌, [], ◌∷◌, ◌++◌, length, take, drop,
  take-append-drop, length-take, arith, WString,
}
use eacopy.Base.Bytes.{Bytes}
use eacopy.Os.{Os, Listing, sent, received}
use eacopy.Os.Memory.{Machine, memory}
use eacopy.Network.Stream.{Stream}

take_whole : (bytes : Bytes) → take (length bytes) bytes ≡ bytes
take_whole [] = refl
take_whole (b ∷ bytes) = ap (λ t. b ∷ t) (take_whole bytes)

take_all : (bytes : Bytes) → take (suc (length bytes - 1)) bytes ≡ bytes
take_all [] = refl
take_all (b ∷ bytes) =
    let same : suc (length bytes) - 1 ≡ length bytes = omega arith in
    ap (λ t. b ∷ t) (ap (λ n. take n bytes) same ∙ take_whole bytes)

taken_number : (a b : ℕ) → sent a ≡ sent b → a ≡ b
taken_number a b h = ground (arith, h)

got_bytes : (a b : Bytes) → received a ≡ received b → a ≡ b
got_bytes a b h = ground (arith, h)

pub memory-outgoing :
    (bytes : Bytes) (n : ℕ) (m m' : Machine)
    → memory.send bytes m ≡ (sent n, m')
    → m'.outbox ≡ m.outbox ++ take (suc n) bytes
memory-outgoing bytes n m m' h =
    let count = taken_number (length bytes - 1) n (ap (λ r. r.0) h) in
    let whole = subst (λ k. take (suc k) bytes ≡ bytes) count (take_all bytes) in
    ap (λ (r : Machine). r.outbox) (sym (ap (λ r. r.1) h)) ∙ ap (λ t. m.outbox ++ t) (sym whole)

pub memory-incoming :
    (size : ℕ) (bytes : Bytes) (m m' : Machine)
    → memory.recv size m ≡ (received bytes, m')
    → (m.inbox ≡ bytes ++ m'.inbox) × (length bytes ≤ size)
memory-incoming size bytes m m' h =
    let got = got_bytes (take size m.inbox) bytes (ap (λ r. r.0) h) in
    let left : drop size m.inbox ≡ m'.inbox = ap (λ r. r.1.inbox) h in
    (
      sym (take-append-drop size m.inbox)
          ∙ ap (λ t. t ++ drop size m.inbox) got
          ∙ ap (λ t. bytes ++ t) left,
      omega (arith, ap length got, length-take size m.inbox),
    )

abbrev pub memory_stream : Stream memory
memory_stream = record {
  outgoing = λ m. m.outbox;
  incoming = λ m. m.inbox;
  send-outgoing = memory-outgoing;
  recv-incoming = memory-incoming;
}

-- A machine whose searches give what they are told to.
abbrev pub searching : (WString → Machine → Listing) → Os
searching find = record memory { find_files = find }

abbrev pub searching_stream : (find : WString → Machine → Listing) → Stream (searching find)
searching_stream find = record {
  outgoing = λ m. m.outbox;
  incoming = λ m. m.inbox;
  send-outgoing = memory-outgoing;
  recv-incoming = memory-incoming;
}
