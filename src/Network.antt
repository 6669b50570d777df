-- ===== src/Network.antt =====
-- sendData and receiveData of source/EACopyNetwork.cpp. That they close the socket after some errors is
-- left out: their callers give the connection up then.
pub mod Stream
pub mod Transfer
pub mod Content
pub mod Sending
pub mod Outgoing
pub mod InMemory
mod Tests
use eacopy.Base.{
  ℕ, zero, suc, ◌-◌, Bool, true, false, List, [], ◌∷◌, ◌++◌, Option, none, some, length, drop,
}
use eacopy.Base.Bytes.{Bytes}
use eacopy.Os.{Os, Received, received, recv_failed, Sent, sent, send_failed}

module _ (w : Os) where
  -- The loop of sendData, over as many rounds as there may be bytes left.
  unfoldable pub send_rounds : ℕ → Bytes → w.State → Bool × w.State
  send_rounds zero bytes s = (true, s)
  send_rounds (suc rounds) [] s = (true, s)
  send_rounds (suc rounds) (b ∷ bytes) s =
      let (res, s1) = w.send (b ∷ bytes) s in
      elim res [ send_failed error ↦ (false, s1) | sent n ↦ send_rounds rounds (drop n bytes) s1 ]

  -- sendData
  unfoldable pub send_data : Bytes → w.State → Bool × w.State
  unfolding send_rounds
  send_data bytes s = send_rounds (length bytes) bytes s

  -- The loop of receiveData, over as many rounds as bytes are wanted.
  unfoldable pub receive_rounds : ℕ → ℕ → Bytes → w.State → Option Bytes × w.State
  receive_rounds zero left got s = (some got, s)
  receive_rounds (suc rounds) zero got s = (some got, s)
  receive_rounds (suc rounds) (suc left) got s =
      let (res, s1) = w.recv (suc left) s in
      elim res [
        | recv_failed error ↦ (none, s1)
        | received [] ↦ (none, s1)
        | received (b ∷ bytes) ↦ receive_rounds rounds (left - length bytes) (got ++ (b ∷ bytes)) s1
      ]

  -- receiveData: the bytes, or nothing when it returns false.
  unfoldable pub receive_data : ℕ → w.State → Option Bytes × w.State
  unfolding receive_rounds
  receive_data size s = receive_rounds size size [] s
