-- ===== src/Network/Stream.antt =====
-- What sendData and receiveData do to the two streams of a connection.
use eacopy.Base.{
  ℕ, zero, suc, ◌+◌, ◌-◌, ◌≤◌, ◌≡◌, refl, ap, sym, ◌∙◌, subst, true, [], ◌∷◌, ◌++◌, append-nil,
  append_assoc, some, length, take-append-drop, length-drop, length-append, take, drop, arith, inl,
  inr, ◌⊎◌,
}
use eacopy.Base.Bytes.{Bytes}
use eacopy.Os.{Os, Received, received, recv_failed, Sent, sent, send_failed}
use eacopy.Network.{send_rounds, send_data, receive_rounds, receive_data}

-- A connection: the bytes sent so far and those that are still to come.
pub record Stream (w : Os) : Type 0 where
  pub outgoing : w.State → Bytes
  pub incoming : w.State → Bytes
  pub send-outgoing :
      (bytes : Bytes) (n : ℕ) (s s' : w.State)
      → w.send bytes s ≡ (sent n, s')
      → outgoing s' ≡ outgoing s ++ take (suc n) bytes
  pub recv-incoming :
      (size : ℕ) (bytes : Bytes) (s s' : w.State)
      → w.recv size s ≡ (received bytes, s')
      → (incoming s ≡ bytes ++ incoming s') × (length bytes ≤ size)

pub Sent-cases : (r : Sent) → ((n : ℕ) × (r ≡ sent n)) ⊎ ((e : ℕ) × (r ≡ send_failed e))
Sent-cases (sent n) = inl (n, refl)
Sent-cases (send_failed e) = inr (e, refl)

pub Received-cases :
    (r : Received)
    → ((b : ℕ) × (bytes : Bytes) × (r ≡ received (b ∷ bytes)))
      ⊎ ((r ≡ received []) ⊎ ((e : ℕ) × (r ≡ recv_failed e)))
Received-cases (received []) = inr (inl refl)
Received-cases (received (b ∷ bytes)) = inl (b, bytes, refl)
Received-cases (recv_failed e) = inr (inr (e, refl))

module _ (w : Os) (stream : Stream w) where
  send_rounds-outgoing :
      (rounds : ℕ) (bytes : Bytes) (s : w.State)
      → length bytes ≤ rounds
      → (send_rounds w rounds bytes s).0 ≡ true
      → stream.outgoing (send_rounds w rounds bytes s).1 ≡ stream.outgoing s ++ bytes
  unfolding send_rounds
  send_rounds-outgoing zero [] s enough h = sym (append-nil (stream.outgoing s))
  send_rounds-outgoing zero (b ∷ bytes) s enough h = absurd (omega (arith, enough))
  send_rounds-outgoing (suc rounds) [] s enough h = sym (append-nil (stream.outgoing s))
  send_rounds-outgoing (suc rounds) (b ∷ bytes) s enough h =
      elim (Sent-cases (w.send (b ∷ bytes) s).0) [
        | inr (e, failed) ↦ absurd (ground (arith, failed, h))
        | inl (n, took) ↦
            let s1 = (w.send (b ∷ bytes) s).1 in
            let step : send_rounds w (suc rounds) (b ∷ bytes) s
                ≡ send_rounds w rounds (drop n bytes) s1 =
              rw (send_rounds, took) refl in
            let rest =
              send_rounds-outgoing rounds (drop n bytes) s1
                (omega (arith, enough, length-drop n bytes)) (subst (λ r. r.0 ≡ true) step h) in
            let now = stream.send-outgoing (b ∷ bytes) n s s1 (ap (λ r. (r, s1)) took) in
            ap (λ r. stream.outgoing r.1) step
            ∙ rest
            ∙ ap (λ t. t ++ drop n bytes) now
            ∙ append_assoc (stream.outgoing s) (b ∷ take n bytes) (drop n bytes)
            ∙ ap (λ t. stream.outgoing s ++ b ∷ t) (take-append-drop n bytes)
      ]

  receive_rounds-incoming :
      (rounds left : ℕ) (got bytes : Bytes) (s : w.State)
      → left ≤ rounds
      → (receive_rounds w rounds left got s).0 ≡ some bytes
      → (got ++ stream.incoming s ≡ bytes ++ stream.incoming (receive_rounds w rounds left got s).1)
        × (length bytes ≡ length got + left)
  unfolding receive_rounds
  receive_rounds-incoming zero left got bytes s enough h =
      let same : got ≡ bytes = ground (arith, h) in
      (ap (λ t. t ++ stream.incoming s) same, omega (arith, enough, ap length same))
  receive_rounds-incoming (suc rounds) zero got bytes s enough h =
      let same : got ≡ bytes = ground (arith, h) in
      (ap (λ t. t ++ stream.incoming s) same, omega (arith, ap length same))
  receive_rounds-incoming (suc rounds) (suc left) got bytes s enough h =
      let s1 = (w.recv (suc left) s).1 in
      elim (Received-cases (w.recv (suc left) s).0) [
        | inr (inl closed) ↦ absurd (ground (arith, closed, h))
        | inr (inr (e, failed)) ↦ absurd (ground (arith, failed, h))
        | inl (b, more, came) ↦
            let step : receive_rounds w (suc rounds) (suc left) got s
                ≡ receive_rounds w rounds (left - length more) (got ++ (b ∷ more)) s1 =
              rw (receive_rounds, came) refl in
            let (now, fits) =
              stream.recv-incoming (suc left) (b ∷ more) s s1 (ap (λ r. (r, s1)) came) in
            let (rest, size) =
              receive_rounds-incoming rounds (left - length more) (got ++ (b ∷ more)) bytes s1
                (omega (arith, enough)) (subst (λ r. r.0 ≡ some bytes) step h) in
            (
              ap (λ t. got ++ t) now
                  ∙ sym (append_assoc got (b ∷ more) (stream.incoming s1))
                  ∙ rest
                  ∙ ap (λ r. bytes ++ stream.incoming r.1) (sym step),
              omega (arith, fits, size, length-append got (b ∷ more)),
            )
      ]

  -- When sendData returns true, all the bytes of the buffer, in their order, have been added to what the
  -- connection has sent.
  pub send_data-outgoing :
      (bytes : Bytes) (s : w.State)
      → (send_data w bytes s).0 ≡ true
      → stream.outgoing (send_data w bytes s).1 ≡ stream.outgoing s ++ bytes
  unfolding send_data
  send_data-outgoing bytes s h = send_rounds-outgoing (length bytes) bytes s (omega arith) h

  -- When receiveData returns true, it has taken exactly as many bytes as it was asked for off the front
  -- of what the connection was to receive.
  pub receive_data-incoming :
      (size : ℕ) (bytes : Bytes) (s : w.State)
      → (receive_data w size s).0 ≡ some bytes
      → (stream.incoming s ≡ bytes ++ stream.incoming (receive_data w size s).1)
        × (length bytes ≡ size)
  unfolding receive_data
  receive_data-incoming size bytes s h =
      let (came, len) = receive_rounds-incoming size size [] bytes s (omega arith) h in
      (came, omega (arith, len))
